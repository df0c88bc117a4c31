-- ===== src/Domains/Ifsc.antt =====
-- src/surrogate/domains/ifsc.py: the literal "0" is kept, the bank code's letters and the branch code's
-- letters and digits are permuted as one mixed-radix number.
pub mod Roundtrip
use local_first_llm_privacy.Common.{
  ℕ, ◌+◌, ◌-◌, ◌==◌, ltb, if◌then◌else◌, Bool, true, false, List, [], ◌∷◌, ◌++◌, map, concat, take,
  drop, length, all, replicate, not, ensure, Option, none, some, Result, ok, raise, ◌>>=◌, ◌>>◌,
  surrogate_domain_error,
}
use local_first_llm_privacy.Common.Chars.{Text, is_digit_char, int_of_char, str}
use local_first_llm_privacy.Common.Bytes.{Bytes}
use local_first_llm_privacy.Crypto.{Crypto}
use local_first_llm_privacy.MixedRadixFf1.{encrypt_combined, decrypt_combined}
use local_first_llm_privacy.Domains.Positions.{char_at, chars_at, set_at, place, is_upper, letter}

-- `b"IFSC"`.
abbrev pub tweak : Bytes
tweak = b'I' ∷ b'F' ∷ b'S' ∷ b'C' ∷ []

abbrev pub length_of_value : ℕ
length_of_value = 11

abbrev pub bank_code_positions : List ℕ
bank_code_positions = 0 ∷ 1 ∷ 2 ∷ 3 ∷ []

abbrev pub frozen_literal_position : ℕ
frozen_literal_position = 4

abbrev pub frozen_literal : ℕ
frozen_literal = b'0'

abbrev pub branch_code_positions : List ℕ
branch_code_positions = 5 ∷ 6 ∷ 7 ∷ 8 ∷ 9 ∷ 10 ∷ []

abbrev pub radixes : List ℕ
radixes = replicate (length bank_code_positions) 26 ++ replicate (length branch_code_positions) 36

unfoldable pub alphanumeric_value : ℕ → Result (Option ℕ)
alphanumeric_value char =
    if is_digit_char char
    then (int_of_char char >>= λ v. ok (some v))
    else (if is_upper char then ok (some (char - b'A' + 10)) else ok none)

unfoldable pub alphanumeric_char : ℕ → Text
alphanumeric_char value = if ltb value 10 then str value else letter (value - 10)

-- `all(_alphanumeric_value(c) is not None for c in branch_code)`.
unfoldable pub all_alphanumeric : List ℕ → Result Bool
all_alphanumeric [] = ok true
all_alphanumeric (c ∷ chars) =
    alphanumeric_value c >>= λ v. elim v [ none ↦ ok false | some x ↦ all_alphanumeric chars ]

unfoldable pub alphanumeric_values : List ℕ → Result (List ℕ)
alphanumeric_values [] = ok []
alphanumeric_values (c ∷ chars) = alphanumeric_value c >>= λ v.
    alphanumeric_values chars >>= λ rest. ok (elim v [ none ↦ rest | some x ↦ x ∷ rest ])

unfoldable pub validate : Text → Result (Unit {0})
validate value =
    ensure (length value == length_of_value) surrogate_domain_error
    >> (chars_at value bank_code_positions >>= λ bank_code.
        chars_at value branch_code_positions >>= λ branch_code.
        char_at value frozen_literal_position >>= λ literal.
        ensure (literal == frozen_literal) surrogate_domain_error
        >> (ensure (all is_upper bank_code) surrogate_domain_error
            >> (all_alphanumeric branch_code >>= λ accepted.
                ensure accepted surrogate_domain_error)))

unfoldable pub extract_free_symbols : Text → Result (List ℕ)
extract_free_symbols value = chars_at value bank_code_positions >>= λ bank_code.
    chars_at value branch_code_positions >>= λ branch_chars.
    alphanumeric_values branch_chars >>= λ branch_code.
    ok (map (λ c. c - b'A') bank_code ++ branch_code)

unfoldable pub rebuild : List ℕ → Result Text
rebuild symbols =
    place (replicate length_of_value []) bank_code_positions
      (map letter (take (length bank_code_positions) symbols))
    >>= λ banked. set_at banked frozen_literal_position (frozen_literal ∷ []) >>= λ marked.
        place marked branch_code_positions
          (map alphanumeric_char (drop (length bank_code_positions) symbols))
        >>= λ chars. ok (concat chars)

module _ (c : Crypto) where
  unfoldable pub encrypt : Text → Bytes → Result Text
  encrypt value key =
      validate value
      >> (extract_free_symbols value >>= λ symbols.
          encrypt_combined c key tweak symbols radixes >>= λ permuted. rebuild permuted)

  unfoldable pub decrypt : Text → Bytes → Result Text
  decrypt surrogate key =
      validate surrogate
      >> (extract_free_symbols surrogate >>= λ symbols.
          decrypt_combined c key tweak symbols radixes >>= λ original. rebuild original)

-- ===== src/Domains/Pan.antt =====
-- src/surrogate/domains/pan.py: the category letter is kept, the other letters and the digits are permuted
-- as one mixed-radix number.
pub mod Roundtrip
use local_first_llm_privacy.Common.{
  ℕ, ◌-◌, ◌==◌, List, [], ◌∷◌, ◌++◌, map, concat, take, drop, length, all, replicate, ◌&&◌, not,
  ensure, Result, ok, raise, ◌>>=◌, ◌>>◌, surrogate_domain_error,
}
use local_first_llm_privacy.Common.Chars.{Text, is_digit_char, str}
use local_first_llm_privacy.Common.Bytes.{Bytes}
use local_first_llm_privacy.Crypto.{Crypto}
use local_first_llm_privacy.MixedRadixFf1.{encrypt_combined, decrypt_combined}
use local_first_llm_privacy.Domains.{ints}
use local_first_llm_privacy.Domains.Positions.{char_at, chars_at, set_at, place, is_upper, letter}

-- `b"PAN"`.
abbrev pub tweak : Bytes
tweak = b'P' ∷ b'A' ∷ b'N' ∷ []

abbrev pub length_of_value : ℕ
length_of_value = 10

abbrev pub free_letter_positions : List ℕ
free_letter_positions = 0 ∷ 1 ∷ 2 ∷ 4 ∷ 9 ∷ []

abbrev pub frozen_category_position : ℕ
frozen_category_position = 3

abbrev pub free_digit_positions : List ℕ
free_digit_positions = 5 ∷ 6 ∷ 7 ∷ 8 ∷ []

abbrev pub radixes : List ℕ
radixes = replicate (length free_letter_positions) 26 ++ replicate (length free_digit_positions) 10

unfoldable pub validate : Text → Result (Unit {0})
validate value =
    ensure (length value == length_of_value) surrogate_domain_error
    >> (chars_at value (free_letter_positions ++ (frozen_category_position ∷ [])) >>= λ letters.
        chars_at value free_digit_positions >>= λ digits.
        ensure (all is_upper letters && all is_digit_char digits) surrogate_domain_error)

unfoldable pub extract_free_symbols : Text → Result (List ℕ)
extract_free_symbols value = chars_at value free_letter_positions >>= λ letters.
    chars_at value free_digit_positions >>= λ digit_chars.
    ints digit_chars >>= λ digits. ok (map (λ c. c - b'A') letters ++ digits)

unfoldable pub rebuild : List ℕ → ℕ → Result Text
rebuild symbols frozen_category =
    place (replicate length_of_value []) free_letter_positions
      (map letter (take (length free_letter_positions) symbols))
    >>= λ lettered.
        set_at lettered frozen_category_position (frozen_category ∷ []) >>= λ categorized.
        place categorized free_digit_positions
          (map str (drop (length free_letter_positions) symbols))
        >>= λ chars. ok (concat chars)

module _ (c : Crypto) where
  unfoldable pub encrypt : Text → Bytes → Result Text
  encrypt value key =
      validate value
      >> (extract_free_symbols value >>= λ symbols.
          encrypt_combined c key tweak symbols radixes >>= λ permuted.
          char_at value frozen_category_position >>= λ category. rebuild permuted category)

  unfoldable pub decrypt : Text → Bytes → Result Text
  decrypt surrogate key =
      validate surrogate
      >> (extract_free_symbols surrogate >>= λ symbols.
          decrypt_combined c key tweak symbols radixes >>= λ original.
          char_at surrogate frozen_category_position >>= λ category. rebuild original category)

-- ===== src/Examples/Checksums.antt =====
-- The check digits on concrete numbers, and the theorems at them.
use local_first_llm_privacy.Common.{
  ℕ, ◌+◌, ◌<◌, ◌≡◌, refl, [], ◌∷◌, ◌++◌, true, false, ok, raise, value_error, arith, ◌↔◌,
}
use local_first_llm_privacy.Common.Chars.{Text, is_decimal, is_digit}
use local_first_llm_privacy.Checksum.{
  verhoeff_is_valid, verhoeff_generate_check_digit, luhn_is_valid, luhn_generate_check_digit,
}
use local_first_llm_privacy.Examples.Opened.{checksums}
use local_first_llm_privacy.Checksum.Verhoeff.{
  verhoeff_is_valid-generate_check_digit, verhoeff_is_valid-eq-raise_iff,
}
use local_first_llm_privacy.Checksum.VerhoeffErrors.{
  verhoeff_is_valid-substitution, verhoeff_is_valid-transposition,
}
use local_first_llm_privacy.Checksum.Luhn.{luhn_is_valid-generate_check_digit}
use local_first_llm_privacy.Checksum.LuhnErrors.{
  is_blind_pair, luhn_is_valid-substitution, luhn_is_valid-transposition,
}

-- "236" has the Verhoeff digit 3, and "7992739871" the Luhn digit 3.
abbrev payload : Text
payload = b'2' ∷ b'3' ∷ b'6' ∷ []

abbrev card_payload : Text
card_payload = b'7' ∷ b'9' ∷ b'9' ∷ b'2' ∷ b'7' ∷ b'3' ∷ b'9' ∷ b'8' ∷ b'7' ∷ b'1' ∷ []

verhoeff_digit : verhoeff_generate_check_digit payload ≡ ok (b'3' ∷ [])
unfolding checksums
verhoeff_digit = refl

verhoeff_valid : verhoeff_is_valid (payload ++ b'3' ∷ []) ≡ ok true
unfolding checksums
verhoeff_valid = refl

luhn_digit : luhn_generate_check_digit card_payload ≡ ok (b'3' ∷ [])
unfolding checksums
luhn_digit = refl

luhn_valid : luhn_is_valid (card_payload ++ b'3' ∷ []) ≡ ok true
unfolding checksums
luhn_valid = refl

verhoeff_is_valid-generate_check_digit_example :
    (k : ℕ) × (k < 10)
    × (verhoeff_generate_check_digit payload ≡ ok ((b'0' + k) ∷ []))
    × (verhoeff_is_valid (payload ++ (b'0' + k) ∷ []) ≡ ok true)
unfolding checksums
verhoeff_is_valid-generate_check_digit_example = verhoeff_is_valid-generate_check_digit payload refl

verhoeff_is_valid-substitution_example :
    verhoeff_is_valid ((b'2' ∷ []) ++ b'8' ∷ (b'6' ∷ b'3' ∷ [])) ≡ ok false
unfolding checksums
verhoeff_is_valid-substitution_example =
    verhoeff_is_valid-substitution (b'2' ∷ []) (b'6' ∷ b'3' ∷ []) b'3' b'8' {x = 3} {y = 8} refl
      refl (omega arith) refl

verhoeff_is_valid-transposition_example :
    verhoeff_is_valid ((b'2' ∷ []) ++ b'6' ∷ b'3' ∷ (b'3' ∷ [])) ≡ ok false
unfolding checksums
verhoeff_is_valid-transposition_example =
    verhoeff_is_valid-transposition (b'2' ∷ []) (b'3' ∷ []) b'3' b'6' {x = 3} {y = 6} refl refl
      (omega arith) refl

-- "12²": the superscript is a digit for `isdigit`, and not for `int`.
verhoeff_is_valid-eq-raise_iff_example :
    (verhoeff_is_valid (b'1' ∷ b'2' ∷ 0xb2 ∷ []) ≡ raise value_error)
    ↔ ((is_digit (b'1' ∷ b'2' ∷ 0xb2 ∷ []) ≡ true) × (is_decimal (b'1' ∷ b'2' ∷ 0xb2 ∷ []) ≡ false))
verhoeff_is_valid-eq-raise_iff_example = verhoeff_is_valid-eq-raise_iff (b'1' ∷ b'2' ∷ 0xb2 ∷ [])

verhoeff_superscript : verhoeff_is_valid (b'1' ∷ b'2' ∷ 0xb2 ∷ []) ≡ raise value_error
unfolding checksums
verhoeff_superscript = refl

luhn_is_valid-generate_check_digit_example :
    (k : ℕ) × (k < 10)
    × (luhn_generate_check_digit card_payload ≡ ok ((b'0' + k) ∷ []))
    × (luhn_is_valid (card_payload ++ (b'0' + k) ∷ []) ≡ ok true)
unfolding checksums
luhn_is_valid-generate_check_digit_example = luhn_is_valid-generate_check_digit card_payload refl

luhn_is_valid-substitution_example :
    luhn_is_valid
      ((b'7' ∷ b'9' ∷ []) ++ b'4' ∷ (b'2' ∷ b'7' ∷ b'3' ∷ b'9' ∷ b'8' ∷ b'7' ∷ b'1' ∷ b'3' ∷ []))
    ≡ ok false
unfolding checksums
luhn_is_valid-substitution_example =
    luhn_is_valid-substitution (b'7' ∷ b'9' ∷ [])
      (b'2' ∷ b'7' ∷ b'3' ∷ b'9' ∷ b'8' ∷ b'7' ∷ b'1' ∷ b'3' ∷ []) b'9' b'4' {x = 9} {y = 4} refl
      refl (omega arith) refl

-- "1909": an exchange of 0 and 9 goes unnoticed.
luhn_is_valid-transposition_example :
    luhn_is_valid ((b'1' ∷ []) ++ b'0' ∷ b'9' ∷ (b'9' ∷ [])) ≡ ok (is_blind_pair 9 0)
unfolding checksums
luhn_is_valid-transposition_example =
    luhn_is_valid-transposition (b'1' ∷ []) (b'9' ∷ []) b'9' b'0' {x = 9} {y = 0} refl refl refl

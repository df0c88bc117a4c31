-- ===== src/Domains/Aadhaar.antt =====
-- src/surrogate/domains/aadhaar.py: eleven digits are permuted by FF1 and the twelfth is the Verhoeff
-- digit of the others.
pub mod Roundtrip
use local_first_llm_privacy.Common.{
  ℕ, List, [], ◌∷◌, ◌||◌, not, length, take, ◌==◌, if◌then◌else◌, Result, ok, raise, ◌>>=◌,
  surrogate_domain_error,
}
use local_first_llm_privacy.Common.Chars.{Text, is_digit}
use local_first_llm_privacy.Common.Bytes.{Bytes}
use local_first_llm_privacy.Crypto.{Crypto}
use local_first_llm_privacy.Checksum.{verhoeff_generate_check_digit}
use local_first_llm_privacy.Ff1.{ff1_encrypt, ff1_decrypt}
use local_first_llm_privacy.Domains.{ints, with_check_digit}

-- `b"AADHAAR"`.
abbrev pub tweak : Bytes
tweak = b'A' ∷ b'A' ∷ b'D' ∷ b'H' ∷ b'A' ∷ b'A' ∷ b'R' ∷ []

abbrev pub payload_length : ℕ
payload_length = 11

abbrev pub full_length : ℕ
full_length = 12

unfoldable pub validate_and_split : Text → Result (List ℕ)
unfolding ints
validate_and_split value =
    if not (length value == full_length) || not (is_digit value)
    then raise surrogate_domain_error
    else ints (take payload_length value)

module _ (c : Crypto) where
  unfoldable pub encrypt : Text → Bytes → Result Text
  unfolding validate_and_split with_check_digit
  encrypt value key = do
    payload ← validate_and_split value
    permuted ← ff1_encrypt c key tweak 10 payload
    with_check_digit verhoeff_generate_check_digit permuted

  unfoldable pub decrypt : Text → Bytes → Result Text
  unfolding validate_and_split with_check_digit
  decrypt surrogate key = do
    payload ← validate_and_split surrogate
    original ← ff1_decrypt c key tweak 10 payload
    with_check_digit verhoeff_generate_check_digit original

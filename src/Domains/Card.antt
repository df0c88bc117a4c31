-- ===== src/Domains/Card.antt =====
-- src/surrogate/domains/card.py: all digits but the last are permuted by FF1, and the last is the
-- Luhn digit of the others.
pub mod Roundtrip
use local_first_llm_privacy.Common.{
  ℕ, List, [], ◌∷◌, ◌||◌, not, length, take, leb, ◌&&◌, ◌-◌, if◌then◌else◌, Result, ok, raise,
  ◌>>=◌, surrogate_domain_error,
}
use local_first_llm_privacy.Common.Chars.{Text, is_digit}
use local_first_llm_privacy.Common.Bytes.{Bytes}
use local_first_llm_privacy.Crypto.{Crypto}
use local_first_llm_privacy.Checksum.{luhn_generate_check_digit}
use local_first_llm_privacy.Ff1.{ff1_encrypt, ff1_decrypt}
use local_first_llm_privacy.Domains.{ints, with_check_digit}

-- `b"CARD"`.
abbrev pub tweak : Bytes
tweak = b'C' ∷ b'A' ∷ b'R' ∷ b'D' ∷ []

abbrev pub min_length : ℕ
min_length = 12

abbrev pub max_length : ℕ
max_length = 19

unfoldable pub validate_and_split : Text → Result (List ℕ)
unfolding ints
validate_and_split value =
    if not (leb min_length (length value) && leb (length value) max_length) || not (is_digit value)
    then raise surrogate_domain_error
    else ints (take (length value - 1) value)

module _ (c : Crypto) where
  unfoldable pub encrypt : Text → Bytes → Result Text
  unfolding validate_and_split with_check_digit
  encrypt value key = do
    payload ← validate_and_split value
    permuted ← ff1_encrypt c key tweak 10 payload
    with_check_digit luhn_generate_check_digit permuted

  unfoldable pub decrypt : Text → Bytes → Result Text
  unfolding validate_and_split with_check_digit
  decrypt surrogate key = do
    payload ← validate_and_split surrogate
    original ← ff1_decrypt c key tweak 10 payload
    with_check_digit luhn_generate_check_digit original

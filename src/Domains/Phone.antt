-- ===== src/Domains/Phone.antt =====
-- src/surrogate/domains/phone.py: the prefix and the leading digit are kept, the other nine digits are
-- permuted by FF1.
pub mod Roundtrip
use local_first_llm_privacy.Common.{
  ℕ, List, [], ◌∷◌, ◌++◌, Bool, true, false, ◌&&◌, ◌||◌, not, length, drop, any, ◌==◌,
  if◌then◌else◌, Result, ok, raise, ◌>>=◌, surrogate_domain_error,
}
use local_first_llm_privacy.Common.Chars.{Text, is_digit}
use local_first_llm_privacy.Common.Bytes.{Bytes}
use local_first_llm_privacy.Crypto.{Crypto}
use local_first_llm_privacy.Ff1.{ff1_encrypt, ff1_decrypt}
use local_first_llm_privacy.Domains.{ints, join_str}

-- `b"PHONE"`.
abbrev pub tweak : Bytes
tweak = b'P' ∷ b'H' ∷ b'O' ∷ b'N' ∷ b'E' ∷ []

abbrev pub valid_leading_digits : Text
valid_leading_digits = b'6' ∷ b'7' ∷ b'8' ∷ b'9' ∷ []

abbrev pub plus_91 : Text
plus_91 = b'+' ∷ b'9' ∷ b'1' ∷ []

abbrev pub nine_one : Text
nine_one = b'9' ∷ b'1' ∷ []

abbrev pub leading_zero : Text
leading_zero = b'0' ∷ []

-- `s.startswith(prefix)`.
abbrev pub starts_with : Text → Text → Bool
starts_with s [] = true
starts_with [] (p ∷ prefix) = false
starts_with (c ∷ s) (p ∷ prefix) = c == p && starts_with s prefix

-- `core[0] not in _VALID_LEADING_DIGITS`, for a text that is not empty.
unfoldable pub has_valid_lead : Text → Bool
has_valid_lead [] = false
has_valid_lead (c ∷ s) = any (λ v. c == v) valid_leading_digits

unfoldable pub check_core : Text → Text → Result (Text × Text)
unfolding has_valid_lead
check_core prefix core =
    if not (is_digit core) || not (has_valid_lead core)
    then raise surrogate_domain_error
    else ok (prefix, core)

unfoldable pub split_prefix : Text → Result (Text × Text)
unfolding check_core
split_prefix value =
    if starts_with value plus_91 && length value == 13
    then check_core plus_91 (drop 3 value)
    else (if starts_with value nine_one && length value == 12
        then check_core nine_one (drop 2 value)
        else (if starts_with value leading_zero && length value == 11
            then check_core leading_zero (drop 1 value)
            else (if length value == 10
                then check_core [] value
                else raise surrogate_domain_error)))

-- `prefix + core[0] + digits`.
unfoldable pub reassemble : Text → Text → List ℕ → Text
unfolding join_str
reassemble prefix [] digits = prefix ++ join_str digits
reassemble prefix (lead ∷ core) digits = prefix ++ lead ∷ join_str digits

module _ (c : Crypto) where
  unfoldable pub encrypt : Text → Bytes → Result Text
  unfolding split_prefix reassemble ints
  encrypt value key = do
    (prefix, core) ← split_prefix value
    free_digits ← ints (drop 1 core)
    permuted ← ff1_encrypt c key tweak 10 free_digits
    ok (reassemble prefix core permuted)

  unfoldable pub decrypt : Text → Bytes → Result Text
  unfolding split_prefix reassemble ints
  decrypt surrogate key = do
    (prefix, core) ← split_prefix surrogate
    free_digits ← ints (drop 1 core)
    original ← ff1_decrypt c key tweak 10 free_digits
    ok (reassemble prefix core original)

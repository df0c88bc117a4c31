-- ===== src/Domains/Aadhaar/Roundtrip.antt =====
-- The Aadhaar domain: surrogates are valid numbers, and which values come back.
use local_first_llm_privacy.Common.{◌≡◌, ◌↔◌, length, all, true, ok, arith}
use local_first_llm_privacy.Common.Chars.{Text, is_digit-is_decimal}
use local_first_llm_privacy.Common.Bytes.{Bytes}
use local_first_llm_privacy.Crypto.{Crypto, IsCipher, HasBitLengths}
use local_first_llm_privacy.Checksum.{verhoeff_is_valid}
use local_first_llm_privacy.Domains.Ascii.{is_ascii_digit, is_decimal-ascii}
use local_first_llm_privacy.Domains.CheckDigit.{verhoeff-IsScheme}
use local_first_llm_privacy.Domains.Repair.{repair_roundtrip}
use local_first_llm_privacy.Domains.Aadhaar.{tweak, validate_and_split, encrypt, decrypt}
use local_first_llm_privacy.Domains.{ints}
use local_first_llm_privacy.Common.{take}

-- A text of twelve ASCII digits passes the validation.
validate_and_split_accepts :
    (value : Text)
    → length value ≡ 12
    → all is_ascii_digit value ≡ true
    → validate_and_split value ≡ ints (take 11 value)
unfolding validate_and_split
validate_and_split_accepts value len ascii =
    let digits = is_digit-is_decimal value (is_decimal-ascii value (omega (arith, len)) ascii) in
    rw (len, digits)

-- For every value of twelve ASCII digits `encrypt` returns a surrogate of twelve ASCII digits that
-- passes the Verhoeff check, and `decrypt` under the same key returns; it returns the value itself
-- exactly if the value passed the Verhoeff check.
pub aadhaar_roundtrip :
    (c : Crypto) (key : Bytes) (value : Text)
    → IsCipher c key
    → HasBitLengths c
    → length value ≡ 12
    → all is_ascii_digit value ≡ true
    → (surrogate : Text) × (encrypt c value key ≡ ok surrogate)
      × (all is_ascii_digit surrogate ≡ true)
      × (length surrogate ≡ 12)
      × (verhoeff_is_valid surrogate ≡ ok true)
      × ((decrypt c surrogate key ≡ ok value) ↔ (verhoeff_is_valid value ≡ ok true))
unfolding encrypt decrypt
aadhaar_roundtrip c key value cipher lengths len ascii =
    let (ds, out, text, read, run, made, tascii, tlen, valid, tread, inv, back) =
      repair_roundtrip verhoeff-IsScheme c key cipher lengths tweak (omega arith) value 11 len
        (omega arith) (omega arith) ascii in
    (
      text,
      rw (validate_and_split_accepts value len ascii, read, run) made,
      tascii,
      tlen,
      valid,
      rw (validate_and_split_accepts text tlen tascii, tread, inv) back,
    )

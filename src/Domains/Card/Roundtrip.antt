-- ===== src/Domains/Card/Roundtrip.antt =====
-- The Card domain: surrogates are valid numbers, and which values come back.
use local_first_llm_privacy.Common.{
  ◌≡◌, ◌↔◌, ◌∙◌, sym, ℕ, suc, ◌-◌, ◌≤◌, ◌&&◌, leb, length, all, true, ok, arith,
}
use local_first_llm_privacy.Common.Chars.{Text, is_digit-is_decimal}
use local_first_llm_privacy.Common.Bytes.{Bytes}
use local_first_llm_privacy.Crypto.{Crypto, IsCipher, HasBitLengths}
use local_first_llm_privacy.Checksum.{luhn_is_valid}
use local_first_llm_privacy.Domains.Ascii.{is_ascii_digit, is_decimal-ascii}
use local_first_llm_privacy.Domains.CheckDigit.{luhn-IsScheme}
use local_first_llm_privacy.Domains.Repair.{repair_roundtrip}
use local_first_llm_privacy.Domains.Card.{tweak, validate_and_split, encrypt, decrypt}
use local_first_llm_privacy.Domains.{ints}
use local_first_llm_privacy.Common.{take}

-- A text of 12 to 19 ASCII digits passes the validation.
validate_and_split_accepts :
    (value : Text) (n : ℕ)
    → length value ≡ suc n
    → 12 ≤ length value
    → length value ≤ 19
    → all is_ascii_digit value ≡ true
    → validate_and_split value ≡ ints (take n value)
unfolding validate_and_split
validate_and_split_accepts value n len low high ascii =
    let digits = is_digit-is_decimal value (is_decimal-ascii value (omega (arith, len)) ascii) in
    let in_range : (leb 12 (length value) && leb (length value) 19) ≡ true = ground arith in
    let e : length value - 1 ≡ n = omega arith in rw (in_range, digits, e)

-- For every value of 12 to 19 ASCII digits `encrypt` returns a surrogate of as many ASCII digits that
-- passes the Luhn check, and `decrypt` under the same key returns; it returns the value itself exactly
-- if the value passed the Luhn check.
pub card_roundtrip :
    (c : Crypto) (key : Bytes) (value : Text)
    → IsCipher c key
    → HasBitLengths c
    → 12 ≤ length value
    → length value ≤ 19
    → all is_ascii_digit value ≡ true
    → (surrogate : Text) × (encrypt c value key ≡ ok surrogate)
      × (all is_ascii_digit surrogate ≡ true)
      × (length surrogate ≡ length value)
      × (luhn_is_valid surrogate ≡ ok true)
      × ((decrypt c surrogate key ≡ ok value) ↔ (luhn_is_valid value ≡ ok true))
unfolding encrypt decrypt
card_roundtrip c key value cipher lengths low high ascii =
    let n = length value - 1 in
    let len : length value ≡ suc (length value - 1) = omega arith in
    let (ds, out, text, read, run, made, tascii, tlen, valid, tread, inv, back) =
      repair_roundtrip luhn-IsScheme c key cipher lengths tweak (omega arith) value n len
        (omega arith) (omega arith) ascii in
    let same : length text ≡ length value = tlen ∙ sym len in
    (
      text,
      rw (validate_and_split_accepts value n len low high ascii, read, run) made,
      tascii,
      same,
      valid,
      rw
          (
            validate_and_split_accepts text n tlen (omega (arith, same)) (omega (arith, same))
                tascii,
            tread,
            inv,
          )
          back,
    )

-- ===== src/Examples/Surrogates.antt =====
-- The surrogate engine on concrete values under the toy cipher.
use local_first_llm_privacy.Common.{
  ℕ, ◌-◌, ◌/◌, ◌<◌, ◌≡◌, refl, List, [], ◌∷◌, ◌++◌, true, ok, raise, surrogate_domain_error, arith,
  ◌↔◌, ◌⊎◌, length, all,
}
use local_first_llm_privacy.Common.Chars.{Text}
use local_first_llm_privacy.Checksum.{verhoeff_is_valid, luhn_is_valid}
use local_first_llm_privacy.MixedRadix.{encode, decode, domain_size}
use local_first_llm_privacy.MixedRadix.Roundtrip.{
  InRange, decode-encode, encode-decode, AllPositive,
}
use local_first_llm_privacy.Ff1.{ff1_encrypt, ff1_decrypt}
use local_first_llm_privacy.Ff1.Digits.{Below}
use local_first_llm_privacy.Ff1.Roundtrip.{IsAccepted, ff1_decrypt-ff1_encrypt}
use local_first_llm_privacy.MixedRadixFf1.{encrypt_combined, decrypt_combined}
use local_first_llm_privacy.MixedRadixFf1.Roundtrip.{GivesUp, decrypt_combined-encrypt_combined}
use local_first_llm_privacy.Domains.Ascii.{is_ascii_digit}
use local_first_llm_privacy.Domains.Aadhaar
use local_first_llm_privacy.Domains.Aadhaar.Roundtrip.{aadhaar_roundtrip}
use local_first_llm_privacy.Domains.Card
use local_first_llm_privacy.Domains.Card.Roundtrip.{card_roundtrip}
use local_first_llm_privacy.Domains.Phone
use local_first_llm_privacy.Domains.Phone.Roundtrip.{international, IsCore, phone_roundtrip}
use local_first_llm_privacy.Examples.Opened.{checksums}
use local_first_llm_privacy.Examples.Toy.{
  toy, toy_key, toy-IsCipher, toy-IsBitLength, toy-HasBitLengths,
}

abbrev radixes : List ℕ
radixes = 26 ∷ 10 ∷ 36 ∷ []

abbrev symbols : List ℕ
symbols = 25 ∷ 7 ∷ 11 ∷ []

abbrev digits : List ℕ
digits = 3 ∷ 1 ∷ 4 ∷ 1 ∷ 5 ∷ []

decode-encode_example :
    (value : ℕ) × (encode symbols radixes ≡ ok value)
    × (value < domain_size radixes)
    × (decode value radixes ≡ ok symbols)
decode-encode_example = decode-encode symbols radixes (omega arith)

radixes-AllPositive : AllPositive radixes
radixes-AllPositive = omega arith

encode-decode_example :
    (ss : List ℕ) × (decode 4711 radixes ≡ ok ss)
    × InRange ss radixes
    × (encode ss radixes ≡ ok 4711)
unfolding domain_size
encode-decode_example = encode-decode 4711 radixes radixes-AllPositive (omega arith)

digits-IsAccepted : IsAccepted 10 [] digits
digits-IsAccepted = omega arith

ff1_decrypt-ff1_encrypt_example :
    (out : List ℕ) × (ff1_encrypt toy toy_key [] 10 digits ≡ ok out)
    × (length out ≡ length digits)
    × Below 10 out
    × (ff1_decrypt toy toy_key [] 10 out ≡ ok digits)
ff1_decrypt-ff1_encrypt_example =
    ff1_decrypt-ff1_encrypt toy toy_key [] 10 digits toy-IsCipher
      (toy-IsBitLength (length digits - length digits / 2) 10 (omega arith)) digits-IsAccepted

decrypt_combined-encrypt_combined_example :
    ((encrypt_combined toy toy_key [] symbols radixes ≡ raise surrogate_domain_error)
      × GivesUp toy toy_key [] symbols radixes)
    ⊎ ((out : List ℕ) × (encrypt_combined toy toy_key [] symbols radixes ≡ ok out)
        × InRange out radixes
        × (decrypt_combined toy toy_key [] out radixes ≡ ok symbols))
unfolding domain_size
decrypt_combined-encrypt_combined_example =
    decrypt_combined-encrypt_combined toy toy_key toy-IsCipher toy-HasBitLengths [] (omega arith)
      symbols radixes (omega arith) (omega arith) (omega arith) (omega arith)

-- "234123412346".
abbrev aadhaar_value : Text
aadhaar_value =
    b'2' ∷ b'3' ∷ b'4' ∷ b'1' ∷ b'2' ∷ b'3' ∷ b'4' ∷ b'1' ∷ b'2' ∷ b'3' ∷ b'4' ∷ b'6' ∷ []

aadhaar_roundtrip_example :
    (surrogate : Text) × (Aadhaar.encrypt toy aadhaar_value toy_key ≡ ok surrogate)
    × (all is_ascii_digit surrogate ≡ true)
    × (length surrogate ≡ 12)
    × (verhoeff_is_valid surrogate ≡ ok true)
    × ((Aadhaar.decrypt toy surrogate toy_key ≡ ok aadhaar_value)
        ↔ (verhoeff_is_valid aadhaar_value ≡ ok true))
aadhaar_roundtrip_example =
    aadhaar_roundtrip toy toy_key aadhaar_value toy-IsCipher toy-HasBitLengths refl refl

aadhaar_returns :
    (s : Text) × (Aadhaar.encrypt toy aadhaar_value toy_key ≡ ok s)
    × (Aadhaar.decrypt toy s toy_key ≡ ok aadhaar_value)
unfolding checksums
aadhaar_returns =
    let (s, enc, ascii, len, valid, back) = aadhaar_roundtrip_example in (s, enc, back.1 refl)

card_roundtrip_example :
    (surrogate : Text) × (Card.encrypt toy aadhaar_value toy_key ≡ ok surrogate)
    × (all is_ascii_digit surrogate ≡ true)
    × (length surrogate ≡ length aadhaar_value)
    × (luhn_is_valid surrogate ≡ ok true)
    × ((Card.decrypt toy surrogate toy_key ≡ ok aadhaar_value)
        ↔ (luhn_is_valid aadhaar_value ≡ ok true))
card_roundtrip_example =
    card_roundtrip toy toy_key aadhaar_value toy-IsCipher toy-HasBitLengths (omega arith)
      (omega arith) refl

abbrev subscriber : Text
subscriber = b'8' ∷ b'7' ∷ b'6' ∷ b'5' ∷ b'4' ∷ b'3' ∷ b'2' ∷ b'1' ∷ b'0' ∷ []

subscriber-IsCore : IsCore b'9' subscriber
subscriber-IsCore = record {
  lead_low = omega arith;
  lead_high = omega arith;
  nine = refl;
  ascii = refl;
}

phone_roundtrip_example :
    (rest' : Text) × (Phone.encrypt toy (Phone.plus_91 ++ b'9' ∷ subscriber) toy_key
      ≡ ok (Phone.plus_91 ++ b'9' ∷ rest'))
    × IsCore b'9' rest'
    × (Phone.decrypt toy (Phone.plus_91 ++ b'9' ∷ rest') toy_key
        ≡ ok (Phone.plus_91 ++ b'9' ∷ subscriber))
phone_roundtrip_example =
    phone_roundtrip toy toy_key b'9' subscriber toy-IsCipher toy-HasBitLengths international
      subscriber-IsCore

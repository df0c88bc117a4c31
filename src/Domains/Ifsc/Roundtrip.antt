-- ===== src/Domains/Ifsc/Roundtrip.antt =====
-- The round trip of src/surrogate/domains/ifsc.py.
use local_first_llm_privacy.Common.{
  ℕ, ◌+◌, ◌-◌, ◌<◌, ltb, if◌then◌else◌, List, [], ◌∷◌, some, ok, raise, surrogate_domain_error,
  Bool-cases, inl, inr, ◌⊎◌, ◌≡◌, refl, arith,
}
use local_first_llm_privacy.Common.Chars.{
  Text, is_digit_char-upper, is_digit_char-ascii, int_of_char-ascii, str-digit,
}
use local_first_llm_privacy.Common.Bytes.{Bytes}
use local_first_llm_privacy.Crypto.{Crypto, IsCipher, HasBitLengths}
use local_first_llm_privacy.MixedRadix.{domain_size}
use local_first_llm_privacy.MixedRadix.Roundtrip.{InRange}
use local_first_llm_privacy.MixedRadixFf1.Roundtrip.{GivesUp, decrypt_combined-encrypt_combined}
use local_first_llm_privacy.Domains.Positions.{
  char_at, chars_at, set_at, place, is_upper-letter, letter_value,
}
use local_first_llm_privacy.Domains.Ifsc.{
  tweak, radixes, alphanumeric_value, alphanumeric_char, all_alphanumeric, alphanumeric_values,
  validate, extract_free_symbols, rebuild, encrypt, decrypt,
}

-- The character of a value below 36.
unfoldable pub alphanumeric : ℕ → ℕ
alphanumeric v = if ltb v 10 then b'0' + v else b'A' + (v - 10)

-- The code with four letters and six letters or digits: every code of ASCII characters is one.
unfoldable pub ifsc_text : List ℕ → Text
ifsc_text (a ∷ b ∷ c ∷ d ∷ u ∷ v ∷ w ∷ x ∷ y ∷ z ∷ []) =
    (b'A' + a)
    ∷ (b'A' + b)
    ∷ (b'A' + c)
    ∷ (b'A' + d)
    ∷ b'0'
    ∷ alphanumeric u
    ∷ alphanumeric v
    ∷ alphanumeric w
    ∷ alphanumeric x
    ∷ alphanumeric y
    ∷ alphanumeric z
    ∷ []
ifsc_text _ = []

alphanumeric-value : (v : ℕ) → v < 36 → alphanumeric_value (alphanumeric v) ≡ ok (some v)
unfolding alphanumeric alphanumeric_value
alphanumeric-value v h = elim (Bool-cases (ltb v 10)) [
  | inl e ↦
      let low : v < 10 = ground (arith, e) in
      rw (alphanumeric, e, is_digit_char-ascii v low, int_of_char-ascii v low) refl
  | inr e ↦
      let high : v - 10 < 26 = ground (arith, e) in
      let back : (b'A' + (v - 10)) - b'A' + 10 ≡ v = ground (arith, e) in
      let upper = is_upper-letter (v - 10) high in
      rw (alphanumeric, e, is_digit_char-upper (v - 10) high, upper, back) refl
]

alphanumeric-char : (v : ℕ) → alphanumeric_char v ≡ alphanumeric v ∷ []
unfolding alphanumeric alphanumeric_char
alphanumeric-char v = elim (Bool-cases (ltb v 10)) [
  | inl e ↦ rw (alphanumeric, alphanumeric_char, e) (str-digit v (ground (arith, e)))
  | inr e ↦ rw (alphanumeric, alphanumeric_char, e) refl
]

record IsRead (symbols : List ℕ) : Type 0 where
  valid : validate (ifsc_text symbols) ≡ ok tt
  read : extract_free_symbols (ifsc_text symbols) ≡ ok symbols
  written : rebuild symbols ≡ ok (ifsc_text symbols)

ifsc_symbols : (symbols : List ℕ) → InRange symbols radixes → IsRead symbols
unfolding ifsc_text validate extract_free_symbols rebuild char_at chars_at set_at place
    all_alphanumeric alphanumeric_values
ifsc_symbols (a ∷ b ∷ c ∷ d ∷ u ∷ v ∷ w ∷ x ∷ y ∷ z ∷ [])
      (ha, (hb, (hc, (hd, (hu, (hv, (hw, (hx, (hy, (hz, end)))))))))) =
    let ua = is_upper-letter a ha in
    let ub = is_upper-letter b hb in
    let uc = is_upper-letter c hc in
    let ud = is_upper-letter d hd in
    let vu = alphanumeric-value u hu in
    let vv = alphanumeric-value v hv in
    let vw = alphanumeric-value w hw in
    let vx = alphanumeric-value x hx in
    let vy = alphanumeric-value y hy in
    let vz = alphanumeric-value z hz in
    record {
      valid = rw (ua, ub, uc, ud, vu, vv, vw, vx, vy, vz) refl;
      read =
          rw
            (vu, vv, vw, vx, vy, vz, letter_value a, letter_value b, letter_value c, letter_value d)
            refl;
      written =
          rw
            (
              alphanumeric-char u,
              alphanumeric-char v,
              alphanumeric-char w,
              alphanumeric-char x,
              alphanumeric-char y,
              alphanumeric-char z,
            )
            refl;
    }
ifsc_symbols [] h = absurd h
ifsc_symbols (a ∷ []) h = absurd h.1
ifsc_symbols (a ∷ b ∷ []) h = absurd h.1.1
ifsc_symbols (a ∷ b ∷ c ∷ []) h = absurd h.1.1.1
ifsc_symbols (a ∷ b ∷ c ∷ d ∷ []) h = absurd h.1.1.1.1
ifsc_symbols (a ∷ b ∷ c ∷ d ∷ u ∷ []) h = absurd h.1.1.1.1.1
ifsc_symbols (a ∷ b ∷ c ∷ d ∷ u ∷ v ∷ []) h = absurd h.1.1.1.1.1.1
ifsc_symbols (a ∷ b ∷ c ∷ d ∷ u ∷ v ∷ w ∷ []) h = absurd h.1.1.1.1.1.1.1
ifsc_symbols (a ∷ b ∷ c ∷ d ∷ u ∷ v ∷ w ∷ x ∷ []) h = absurd h.1.1.1.1.1.1.1.1
ifsc_symbols (a ∷ b ∷ c ∷ d ∷ u ∷ v ∷ w ∷ x ∷ y ∷ []) h = absurd h.1.1.1.1.1.1.1.1.1
ifsc_symbols (a ∷ b ∷ c ∷ d ∷ u ∷ v ∷ w ∷ x ∷ y ∷ z ∷ o ∷ s) h = absurd h.1.1.1.1.1.1.1.1.1.1

-- For ten symbols in range `encrypt` of the code either raises `SurrogateDomainError`, and then the
-- first 1000 values of the cycle walk from the number of the symbols all lie outside the domain, or
-- returns a code with symbols in range, which `decrypt` under the same key takes back to the code.
pub ifsc_roundtrip :
    (c : Crypto) (key : Bytes) (symbols : List ℕ)
    → IsCipher c key
    → HasBitLengths c
    → InRange symbols radixes
    → ((encrypt c (ifsc_text symbols) key ≡ raise surrogate_domain_error)
        × GivesUp c key tweak symbols radixes)
      ⊎ ((out : List ℕ) × (encrypt c (ifsc_text symbols) key ≡ ok (ifsc_text out))
          × InRange out radixes
          × (decrypt c (ifsc_text out) key ≡ ok (ifsc_text symbols)))
unfolding encrypt decrypt domain_size
ifsc_roundtrip c key symbols cipher lengths range =
    let here = ifsc_symbols symbols range in
    elim (decrypt_combined-encrypt_combined c key cipher lengths tweak (omega arith) symbols radixes
      range (omega arith) (omega arith) (omega arith)) [
        | inl (gave_up, outside) ↦ inl (rw (here.valid, here.read, gave_up) refl, outside)
        | inr (out, run, below, undo) ↦
            let there = ifsc_symbols out below in
            inr (
              out,
              rw (here.valid, here.read, run, there.written) refl,
              below,
              rw (there.valid, there.read, undo, here.written) refl,
            )
      ]

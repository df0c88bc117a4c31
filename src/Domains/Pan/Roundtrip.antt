-- ===== src/Domains/Pan/Roundtrip.antt =====
-- The round trip of src/surrogate/domains/pan.py.
use local_first_llm_privacy.Common.{
  ℕ, ◌+◌, true, List, [], ◌∷◌, ok, raise, surrogate_domain_error, inl, inr, ◌⊎◌, ◌≡◌, refl, arith,
}
use local_first_llm_privacy.Common.Chars.{Text, is_digit_char-ascii, int_of_char-ascii, str-digit}
use local_first_llm_privacy.Common.Bytes.{Bytes}
use local_first_llm_privacy.Crypto.{Crypto, IsCipher, HasBitLengths}
use local_first_llm_privacy.MixedRadix.{domain_size}
use local_first_llm_privacy.MixedRadix.Roundtrip.{InRange}
use local_first_llm_privacy.MixedRadixFf1.Roundtrip.{GivesUp, decrypt_combined-encrypt_combined}
use local_first_llm_privacy.Domains.{ints}
use local_first_llm_privacy.Domains.Positions.{
  char_at, chars_at, set_at, place, is_upper, is_upper-letter, letter_value,
}
use local_first_llm_privacy.Domains.Pan.{
  tweak, radixes, frozen_category_position, validate, extract_free_symbols, rebuild, encrypt,
  decrypt,
}

-- The number with the category and with nine symbols in its other places, five letters and four digits:
-- every number of ASCII characters is one.
unfoldable pub pan_text : ℕ → List ℕ → Text
pan_text category (a ∷ b ∷ c ∷ d ∷ e ∷ w ∷ x ∷ y ∷ z ∷ []) =
    (b'A' + a)
    ∷ (b'A' + b)
    ∷ (b'A' + c)
    ∷ category
    ∷ (b'A' + d)
    ∷ (b'0' + w)
    ∷ (b'0' + x)
    ∷ (b'0' + y)
    ∷ (b'0' + z)
    ∷ (b'A' + e)
    ∷ []
pan_text category _ = []

-- What the three helpers make of it.
record IsRead (category : ℕ) (symbols : List ℕ) : Type 0 where
  valid : validate (pan_text category symbols) ≡ ok tt
  read : extract_free_symbols (pan_text category symbols) ≡ ok symbols
  kept : char_at (pan_text category symbols) frozen_category_position ≡ ok category
  written : rebuild symbols category ≡ ok (pan_text category symbols)

abbrev ReadAt : ℕ → List ℕ → Type 0
ReadAt category symbols = is_upper category ≡ true → IsRead category symbols

pan_symbols :
    (symbols : List ℕ) → InRange symbols radixes → (category : ℕ) → ReadAt category symbols
unfolding pan_text validate extract_free_symbols rebuild char_at chars_at set_at place ints
pan_symbols (a ∷ b ∷ c ∷ d ∷ e ∷ w ∷ x ∷ y ∷ z ∷ [])
      (ha, (hb, (hc, (hd, (he, (hw, (hx, (hy, (hz, end))))))))) category upper =
    let ua = is_upper-letter a ha in
    let ub = is_upper-letter b hb in
    let uc = is_upper-letter c hc in
    let ud = is_upper-letter d hd in
    let ue = is_upper-letter e he in
    record {
      valid =
          rw
            (
              ua,
              ub,
              uc,
              ud,
              ue,
              upper,
              is_digit_char-ascii w hw,
              is_digit_char-ascii x hx,
              is_digit_char-ascii y hy,
              is_digit_char-ascii z hz,
            )
            refl;
      read =
          rw
            (
              int_of_char-ascii w hw,
              int_of_char-ascii x hx,
              int_of_char-ascii y hy,
              int_of_char-ascii z hz,
              letter_value a,
              letter_value b,
              letter_value c,
              letter_value d,
              letter_value e,
            )
            refl;
      kept = refl;
      written = rw (str-digit w hw, str-digit x hx, str-digit y hy, str-digit z hz) refl;
    }
pan_symbols [] h category upper = absurd h
pan_symbols (a ∷ []) h category upper = absurd h.1
pan_symbols (a ∷ b ∷ []) h category upper = absurd h.1.1
pan_symbols (a ∷ b ∷ c ∷ []) h category upper = absurd h.1.1.1
pan_symbols (a ∷ b ∷ c ∷ d ∷ []) h category upper = absurd h.1.1.1.1
pan_symbols (a ∷ b ∷ c ∷ d ∷ e ∷ []) h category upper = absurd h.1.1.1.1.1
pan_symbols (a ∷ b ∷ c ∷ d ∷ e ∷ w ∷ []) h category upper = absurd h.1.1.1.1.1.1
pan_symbols (a ∷ b ∷ c ∷ d ∷ e ∷ w ∷ x ∷ []) h category upper = absurd h.1.1.1.1.1.1.1
pan_symbols (a ∷ b ∷ c ∷ d ∷ e ∷ w ∷ x ∷ y ∷ []) h category upper = absurd h.1.1.1.1.1.1.1.1
pan_symbols (a ∷ b ∷ c ∷ d ∷ e ∷ w ∷ x ∷ y ∷ z ∷ u ∷ s) h category upper =
    absurd h.1.1.1.1.1.1.1.1.1

-- For a category letter and nine symbols in range, `encrypt` of the number either raises
-- `SurrogateDomainError`, and then the first 1000 values of the cycle walk from the number of the
-- symbols all lie outside the domain, or returns a number of the same category, with symbols in
-- range, which `decrypt` under the same key takes back to the number.
pub pan_roundtrip :
    (c : Crypto) (key : Bytes) (category : ℕ) (symbols : List ℕ)
    → IsCipher c key
    → HasBitLengths c
    → is_upper category ≡ true
    → InRange symbols radixes
    → ((encrypt c (pan_text category symbols) key ≡ raise surrogate_domain_error)
        × GivesUp c key tweak symbols radixes)
      ⊎ ((out : List ℕ) × (encrypt c (pan_text category symbols) key ≡ ok (pan_text category out))
          × InRange out radixes
          × (decrypt c (pan_text category out) key ≡ ok (pan_text category symbols)))
unfolding encrypt decrypt domain_size
pan_roundtrip c key category symbols cipher lengths upper range =
    let here = pan_symbols symbols range category upper in
    elim (decrypt_combined-encrypt_combined c key cipher lengths tweak (omega arith) symbols radixes
      range (omega arith) (omega arith) (omega arith)) [
        | inl (gave_up, outside) ↦ inl (rw (here.valid, here.read, gave_up) refl, outside)
        | inr (out, run, below, undo) ↦
            let there = pan_symbols out below category upper in
            inr (
              out,
              rw (here.valid, here.read, run, here.kept, there.written) refl,
              below,
              rw (there.valid, there.read, undo, there.kept, here.written) refl,
            )
      ]

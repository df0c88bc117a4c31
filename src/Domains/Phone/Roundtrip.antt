-- ===== src/Domains/Phone/Roundtrip.antt =====
-- The phone domain: every number that it accepts comes back, and its prefix and leading digit stay.
use local_first_llm_privacy.Common.{
  ℕ, ◌-◌, ◌/◌, ◌≤◌, ◌≡◌, ap, ◌∙◌, [], ◌∷◌, ◌++◌, true, length, all, arith, ok,
}
use local_first_llm_privacy.Common.Chars.{Text, is_digit-is_decimal}
use local_first_llm_privacy.Common.Bytes.{Bytes}
use local_first_llm_privacy.Crypto.{Crypto, IsCipher, HasBitLengths}
use local_first_llm_privacy.Ff1.Roundtrip.{IsAccepted, ff1_decrypt-ff1_encrypt}
use local_first_llm_privacy.Domains.{join_str}
use local_first_llm_privacy.Domains.Ascii.{
  is_ascii_digit, is_decimal-ascii, ints-ascii, join_str-ascii,
}
use local_first_llm_privacy.Domains.Phone.{
  tweak, plus_91, nine_one, leading_zero, has_valid_lead, check_core, split_prefix, reassemble,
  encrypt, decrypt,
}

-- The four prefixes that the domain knows.
pub data IsPrefix : Text → Type 0 where
  international : IsPrefix plus_91
  country : IsPrefix nine_one
  trunk : IsPrefix leading_zero
  bare : IsPrefix []

-- A subscriber number: a leading digit from 6 to 9, and nine ASCII digits.
pub record IsCore (lead : ℕ) (rest : Text) : Type 0 where
  pub lead_low : b'6' ≤ lead
  pub lead_high : lead ≤ b'9'
  pub nine : length rest ≡ 9
  pub ascii : all is_ascii_digit rest ≡ true

check_core_accepts :
    (prefix : Text) (lead : ℕ) (rest : Text)
    → IsCore lead rest
    → check_core prefix (lead ∷ rest) ≡ ok (prefix, lead ∷ rest)
unfolding check_core has_valid_lead
check_core_accepts prefix lead rest h =
    let digit : is_ascii_digit lead ≡ true = ground arith in
    let whole : all is_ascii_digit (lead ∷ rest) ≡ true = ground (arith, h.ascii) in
    let digits =
      is_digit-is_decimal (lead ∷ rest) (is_decimal-ascii (lead ∷ rest) (omega arith) whole) in
    ground (arith, digits)

split_prefix_lem :
    {prefix : Text} (lead : ℕ) (rest : Text)
    → IsPrefix prefix
    → IsCore lead rest
    → split_prefix (prefix ++ lead ∷ rest) ≡ ok (prefix, lead ∷ rest)
unfolding split_prefix
split_prefix_lem lead rest international h = ground (arith, check_core_accepts plus_91 lead rest h)
split_prefix_lem lead rest country h = ground (arith, check_core_accepts nine_one lead rest h)
split_prefix_lem lead rest trunk h = ground (arith, check_core_accepts leading_zero lead rest h)
split_prefix_lem lead rest bare h = ground (arith, check_core_accepts [] lead rest h)

-- For every value made of one of the four prefixes, a leading digit from 6 to 9 and nine ASCII digits,
-- `encrypt` returns a value of the same prefix and leading digit with nine ASCII digits, and `decrypt`
-- under the same key takes it back to the value.
pub phone_roundtrip :
    (c : Crypto) (key : Bytes) {prefix : Text} (lead : ℕ) (rest : Text)
    → IsCipher c key
    → HasBitLengths c
    → IsPrefix prefix
    → IsCore lead rest
    → (rest' : Text) × (encrypt c (prefix ++ lead ∷ rest) key ≡ ok (prefix ++ lead ∷ rest'))
      × IsCore lead rest'
      × (decrypt c (prefix ++ lead ∷ rest') key ≡ ok (prefix ++ lead ∷ rest))
unfolding encrypt decrypt reassemble
phone_roundtrip c key {prefix} lead rest cipher lengths known h =
    let (ds, read, len, below, back) = ints-ascii rest h.ascii in
    let size : length ds ≡ 9 = len ∙ h.nine in
    let accepted : IsAccepted 10 tweak ds = record {
      radix_low = omega arith;
      radix_high = omega arith;
      long = omega (arith, size);
      short = omega (arith, size);
      tweak_short = omega arith;
      low = below;
    } in
    let (out, run, olen, olow, inv) =
      ff1_decrypt-ff1_encrypt c key tweak 10 ds cipher
        (lengths (length ds - length ds / 2) 10 (omega arith) (omega arith) (omega (arith, size)))
        accepted in
    let (oascii, jlen, oread) = join_str-ascii out olow in
    let core : IsCore lead (join_str out) = record {
      lead_low = h.lead_low;
      lead_high = h.lead_high;
      nine = jlen ∙ olen ∙ size;
      ascii = oascii;
    } in
    (
      join_str out,
      rw (split_prefix_lem lead rest known h, read, run),
      core,
      rw (split_prefix_lem lead (join_str out) known core, oread, inv)
          (ap (λ r. ok (prefix ++ lead ∷ r)) back),
    )

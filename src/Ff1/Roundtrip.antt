-- ===== src/Ff1/Roundtrip.antt =====
-- FF1 as a whole: encryption returns a digit list of the same shape, and decryption undoes it.
use local_first_llm_privacy.Common.{
  ℕ, ◌-◌, ◌/◌, ◌≤◌, ◌<◌, ◌≡◌, refl, ap, List, ◌++◌, arith, length, length-append, length-take,
  length-drop, take, drop, take-append, drop-append, take-append-drop, ok, Result,
}
use local_first_llm_privacy.Common.Bytes.{Bytes}
use local_first_llm_privacy.Crypto.{Crypto, IsCipher, IsBitLength}
use local_first_llm_privacy.Ff1.{
  validate, half_length, byte_width, round_value, ff1_encrypt, ff1_decrypt,
}
use local_first_llm_privacy.Ff1.Digits.{Below, Below-append, Below-take, Below-drop}
use local_first_llm_privacy.Ff1.Rounds.{build_p_total, round_value_total, half_fits}
use local_first_llm_privacy.Ff1.Feistel.{IsHalves, IsTotal, decrypt_rounds-encrypt_rounds}

-- The inputs that FF1 accepts.
pub record IsAccepted (radix : ℕ) (tweak : Bytes) (digits : List ℕ) : Type 0 where
  pub radix_low : 2 ≤ radix
  pub radix_high : radix ≤ 65536
  pub long : 2 ≤ length digits
  pub short : length digits < 4294967296
  pub tweak_short : length tweak < 4294967296
  pub low : Below radix digits

validate_accepts :
    (radix n : ℕ) (tweak : Bytes)
    → 2 ≤ radix
    → radix ≤ 65536
    → 2 ≤ n
    → length tweak < 4294967296
    → validate radix n tweak ≡ ok tt
unfolding validate
validate_accepts radix n tweak h₁ h₂ h₃ h₄ = ground arith

module _ (c : Crypto) (key : Bytes) (cipher : IsCipher c key) (tweak : Bytes) (radix n : ℕ)
    (bits : IsBitLength c (n - n / 2) radix) where
  rounds_total :
      (p : Bytes)
      → length p ≡ 16
      → 2 ≤ radix
      → n < 4294967296
      → (pos : 0 < radix)
      → IsTotal
          (round_value c key tweak radix (byte_width c radix (n - n / 2)) p)
          radix
          (n / 2)
          (n - n / 2)
          pos
  unfolding half_length byte_width
  rounds_total p hp hr hn pos i half hi len low =
      round_value_total c key cipher tweak radix (byte_width c radix (n - n / 2)) i p half hp
        (omega (arith, bits.bounded))
        (half_fits c radix (n - n / 2) half pos bits.enough (ground arith) low)

take-drop-IsHalves :
    (round_value' : ℕ → List ℕ → Result ℕ) (radix : ℕ) (pos : 0 < radix) (digits : List ℕ)
    → Below radix digits
    → IsHalves round_value' radix
        (length digits / 2)
        (length digits - length digits / 2)
        pos
        0
        (take (length digits / 2) digits)
        (drop (length digits / 2) digits)
unfolding half_length
take-drop-IsHalves f radix pos digits low =
    let u = length digits / 2 in
    (
      omega (arith, length-take u digits),
      omega (arith, length-drop u digits),
      Below-take radix u digits low,
      Below-drop radix u digits low,
    )

-- A list joined from two parts is cut again at the first part's length.
rejoined :
    (a b digits : List ℕ)
    → length a ≡ length digits / 2
    → length b ≡ length digits - length digits / 2
    → (length (a ++ b) ≡ length digits)
      × (take (length digits / 2) (a ++ b) ≡ a)
      × (drop (length digits / 2) (a ++ b) ≡ b)
rejoined a b digits ha hb =
    (omega (arith, length-append a b), rw (← ha) (take-append a b), rw (← ha) (drop-append a b))

-- For a cipher that works on blocks, a rounded logarithm with enough bits and accepted digits,
-- `ff1_encrypt` returns as many digits below the radix, and `ff1_decrypt` under the same key and
-- tweak returns the digits it was given.
pub ff1_decrypt-ff1_encrypt :
    (c : Crypto) (key tweak : Bytes) (radix : ℕ) (digits : List ℕ)
    → IsCipher c key
    → IsBitLength c (length digits - length digits / 2) radix
    → IsAccepted radix tweak digits
    → (out : List ℕ) × (ff1_encrypt c key tweak radix digits ≡ ok out)
      × (length out ≡ length digits)
      × Below radix out
      × (ff1_decrypt c key tweak radix out ≡ ok digits)
unfolding ff1_encrypt ff1_decrypt half_length
ff1_decrypt-ff1_encrypt c key tweak radix digits cipher bits h =
    let n = length digits in
    let u = length digits / 2 in
    let v = length digits - length digits / 2 in
    let pos : 0 < radix = omega (arith, h.radix_low) in
    let (p, pe, pl) = build_p_total radix u n (length tweak) h.radix_high h.short h.tweak_short in
    let f = round_value c key tweak radix (byte_width c radix v) p in
    let total = rounds_total c key cipher tweak radix n bits p pl h.radix_low h.short pos in
    let (a, b, enc, (la, lb, lowa, lowb), dec) =
      decrypt_rounds-encrypt_rounds f radix u v pos 10 0 10 (take u digits) (drop u digits) total
        refl (omega arith) (take-drop-IsHalves f radix pos digits h.low) in
    let (len, first, second) = rejoined a b digits la lb in
    let valid = validate_accepts radix n tweak h.radix_low h.radix_high h.long h.tweak_short in
    (
      a ++ b,
      rw (valid, pe, enc),
      len,
      Below-append radix a b lowa lowb,
      rw (len, valid, pe, first, second, dec) (ap ok (take-append-drop u digits)),
    )

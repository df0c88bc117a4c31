-- ===== src/MixedRadixFf1/Roundtrip.antt =====
-- `decrypt_combined` undoes `encrypt_combined`.
use native.Mathlib.Nat.{pow-suc, pow-zero}
use local_first_llm_privacy.Common.{
  ℕ, zero, suc, ◌-◌, ◌*◌, ◌/◌, ◌^◌, ◌≤◌, ◌<◌, ◌≡◌, refl, ap, ◌∙◌, List, [], ◌∷◌, ok, raise, arith,
  inl, inr, ◌⊎◌, surrogate_domain_error, length, replicate,
}
use local_first_llm_privacy.Common.Bytes.{Bytes}
use local_first_llm_privacy.Crypto.{Crypto, IsCipher, HasBitLengths}
use local_first_llm_privacy.MixedRadix.{encode, decode, size_loop, domain_size}
use local_first_llm_privacy.MixedRadix.Roundtrip.{
  InRange, AllPositive, decode-encode, encode-decode,
}
use local_first_llm_privacy.Ff1.{ff1_encrypt, ff1_decrypt}
use local_first_llm_privacy.Ff1.Digits.{Below}
use local_first_llm_privacy.Ff1.Roundtrip.{IsAccepted, ff1_decrypt-ff1_encrypt}
use local_first_llm_privacy.MixedRadixFf1.{
  covering_bits, walk_step, walk, encrypt_combined, decrypt_combined,
}
use local_first_llm_privacy.MixedRadixFf1.Bits.{
  covering_bits_bound, covering_bits_least, two-le-covering_bits,
}
use local_first_llm_privacy.MixedRadixFf1.Walk.{
  IsInvertible, StaysOutside, walk_loop_inverse, walk_loop_returns,
}

size_loop-replicate : (k n r : ℕ) → size_loop k (replicate n r) ≡ k * r ^ n
unfolding size_loop
size_loop-replicate k zero r = rw pow-zero (omega arith)
size_loop-replicate k (suc n) r = size_loop-replicate (k * r) n r ∙ rw pow-suc (omega arith)

domain_size-replicate : (n r : ℕ) → domain_size (replicate n r) ≡ r ^ n
unfolding domain_size
domain_size-replicate n r = size_loop-replicate 1 n r ∙ omega arith

AllPositive-replicate : (n r : ℕ) → 0 < r → AllPositive (replicate n r)
AllPositive-replicate zero r h = tt
AllPositive-replicate (suc n) r h = (h, AllPositive-replicate n r h)

InRange-replicate :
    (r n : ℕ) (ds : List ℕ) → length ds ≡ n → Below r ds → InRange ds (replicate n r)
InRange-replicate r zero [] e h = tt
InRange-replicate r (suc n) (d ∷ ds) e h = (h.0, InRange-replicate r n ds (omega arith) h.1)
InRange-replicate r zero (d ∷ ds) e h = absurd (omega arith)
InRange-replicate r (suc n) [] e h = absurd (omega arith)

Below-InRange : (r n : ℕ) (ds : List ℕ) → InRange ds (replicate n r) → (length ds ≡ n) × Below r ds
Below-InRange r zero [] h = (refl, tt)
Below-InRange r (suc n) (d ∷ ds) h =
    let (len, low) = Below-InRange r n ds h.1 in (ap suc len, (h.0, low))
Below-InRange r zero (d ∷ ds) h = absurd h
Below-InRange r (suc n) [] h = absurd h

-- A number of the covering domain as binary digits, and back.
binary_digits :
    (bits x : ℕ)
    → x < 2 ^ bits
    → (ds : List ℕ) × (decode x (replicate bits 2) ≡ ok ds)
      × (length ds ≡ bits)
      × Below 2 ds
      × (encode ds (replicate bits 2) ≡ ok x)
binary_digits bits x h =
    let fits : x < domain_size (replicate bits 2) = omega (arith, domain_size-replicate bits 2) in
    let (ds, dec, range, enc) =
      encode-decode x (replicate bits 2) (AllPositive-replicate bits 2 (omega arith)) fits in
    let (len, below) = Below-InRange 2 bits ds range in (ds, dec, len, below, enc)

binary_value :
    (bits : ℕ) (ds : List ℕ)
    → length ds ≡ bits
    → Below 2 ds
    → (y : ℕ) × (encode ds (replicate bits 2) ≡ ok y)
      × (y < 2 ^ bits)
      × (decode y (replicate bits 2) ≡ ok ds)
binary_value bits ds len below =
    let (y, enc, bound, dec) =
      decode-encode ds (replicate bits 2) (InRange-replicate 2 bits ds len below) in
    (y, enc, omega (arith, bound, domain_size-replicate bits 2), dec)

-- The number of the symbols, and 1000 values of the cycle walk from it, one after the other, that all lie at or
-- above the size of the domain.
abbrev pub GivesUp : Crypto → Bytes → Bytes → List ℕ → List ℕ → Type 0
GivesUp c key tweak symbols radixes =
    (x : ℕ) × (encode symbols radixes ≡ ok x)
    × StaysOutside (ff1_encrypt c key tweak 2) (covering_bits (domain_size radixes))
        (domain_size radixes) 1000 x

module _ (c : Crypto) (key : Bytes) (cipher : IsCipher c key) (lengths : HasBitLengths c)
    (tweak : Bytes) (short : length tweak < 4294967296) where
  -- A step of the walk is one FF1 permutation of the covering domain.
  walk_step_invertible :
      (bits true_size : ℕ)
      → 2 ≤ bits
      → bits ≤ 64
      → IsInvertible
          (ff1_encrypt c key tweak 2)
          (ff1_decrypt c key tweak 2)
          bits
          true_size
          (2 ^ bits)
  unfolding walk_step
  walk_step_invertible bits true_size low high x hx =
      let (ds, dec, len, below, enc) = binary_digits bits x hx in
      let accepted : IsAccepted 2 tweak ds = record {
        radix_low = omega arith;
        radix_high = omega arith;
        long = omega arith;
        short = omega arith;
        tweak_short = short;
        low = below;
      } in
      let (out, run, same, small, back) =
        ff1_decrypt-ff1_encrypt c key tweak 2 ds cipher
          (lengths (length ds - length ds / 2) 2 (omega arith) (omega arith) (omega arith))
          accepted in
      let (y, enc', bound, dec') = binary_value bits out (same ∙ len) small in
      (y, rw (dec, run) enc', bound, rw (dec', back) enc)

  -- For symbols in range of radixes whose domain has more than 2 and at most 2 ^ 64 elements,
  -- `encrypt_combined` either raises `SurrogateDomainError`, and then the first 1000 values of the cycle
  -- walk from the number of the symbols all lie outside the domain, or returns symbols in range that
  -- `decrypt_combined` takes back to the given ones.
  pub decrypt_combined-encrypt_combined :
      (symbols radixes : List ℕ)
      → InRange symbols radixes
      → AllPositive radixes
      → 2 < domain_size radixes
      → domain_size radixes ≤ 2 ^ 64
      → ((encrypt_combined c key tweak symbols radixes ≡ raise surrogate_domain_error)
          × GivesUp c key tweak symbols radixes)
        ⊎ ((out : List ℕ) × (encrypt_combined c key tweak symbols radixes ≡ ok out)
            × InRange out radixes
            × (decrypt_combined c key tweak out radixes ≡ ok symbols))
  unfolding encrypt_combined decrypt_combined walk
  decrypt_combined-encrypt_combined symbols radixes range pos big small =
      let size = domain_size radixes in
      let bits = covering_bits size in
      let fits = covering_bits_bound size in
      let high = covering_bits_least size 64 (omega arith) small in
      let low = two-le-covering_bits size big in
      let (x, enc, hx, dec) = decode-encode symbols radixes range in
      elim (walk_loop_inverse (ff1_encrypt c key tweak 2) (ff1_decrypt c key tweak 2) bits size
        (2 ^ bits) 1000 x (walk_step_invertible bits size low high) fits
        (omega (arith, fits, hx))) [
          | inl (out, outside) ↦ inl (rw (enc, out), (x, enc, outside))
          | inr (y, steps, run, below, bound, undo) ↦
              let (out, dec', range', enc') = encode-decode y radixes pos below in
              let back =
                walk_loop_returns (ff1_encrypt c key tweak 2) (ff1_decrypt c key tweak 2) bits size
                  (2 ^ bits) 1000 steps x y bound hx undo in
              inr (out, rw (enc, run) dec', range', rw (enc', back) dec)
        ]

-- ===== src/MixedRadixFf1/Bits.antt =====
-- The covering domain is large enough, and no larger than it has to be.
use native.Mathlib.Nat.{pow-suc, one-le-pow, pow-le-pow_right, le_trans}
use native.Mathlib.Decide.{dec_le}
use local_first_llm_privacy.Common.{
  ℕ, zero, suc, ◌-◌, ◌*◌, ◌/◌, ◌^◌, ◌≤◌, ◌<◌, ◌↔◌, arith, max, ◌==◌, Bool-cases, inl, inr,
}
use local_first_llm_privacy.MixedRadixFf1.{bit_length_fuel, covering_bits}

bit_length_fuel_bound : (f n : ℕ) → n ≤ f → n < 2 ^ bit_length_fuel f n
unfolding bit_length_fuel
bit_length_fuel_bound zero n h = omega arith
bit_length_fuel_bound (suc f) n h = elim (Bool-cases (n == 0)) [
  | inl none_left ↦ rw none_left (ground arith)
  | inr more ↦
      let ih = bit_length_fuel_bound f (n / 2) (ground arith) in
      rw (more, pow-suc) (omega (arith, ih))
]

-- A number below a power of two has no more bits than that.
bit_length_fuel-le : (f n k : ℕ) → n < 2 ^ k → bit_length_fuel f n ≤ k
unfolding bit_length_fuel
bit_length_fuel-le zero n k h = omega arith
bit_length_fuel-le (suc f) n zero h = ground arith
bit_length_fuel-le (suc f) n (suc k) h =
    let h' : n < 2 ^ k * 2 = rw pow-suc at h in
    ground (arith, bit_length_fuel-le f (n / 2) k (omega arith))

pub covering_bits_bound : (size : ℕ) → size ≤ 2 ^ covering_bits size
unfolding covering_bits
covering_bits_bound size =
    let n = size - 1 in
    let below = bit_length_fuel_bound n n (omega arith) in
    let wide : bit_length_fuel n n ≤ max (bit_length_fuel n n) 1 = omega arith in
    omega (arith, pow-le-pow_right {n = 2} (omega arith) wide, below)

pub covering_bits_least : (size k : ℕ) → 1 ≤ k → size ≤ 2 ^ k → covering_bits size ≤ k
unfolding covering_bits
covering_bits_least size k h fits = omega (
  arith,
  bit_length_fuel-le (size - 1) (size - 1) k (omega (arith, one-le-pow k 2 (omega arith))),
)

-- `covering_bits` is the least width: a width of at least one bit is no smaller exactly if its binary
-- domain holds the size.
pub covering_bits-le_iff : (size k : ℕ) → 1 ≤ k → (covering_bits size ≤ k) ↔ (size ≤ 2 ^ k)
covering_bits-le_iff size k h = (
  λ le. le_trans (covering_bits_bound size) (pow-le-pow_right {n = 2} (omega arith) le),
  λ fits. covering_bits_least size k h fits,
)

-- A size of more than 2 takes at least two bits, which FF1 needs.
pub two-le-covering_bits : (size : ℕ) → 2 < size → 2 ≤ covering_bits size
two-le-covering_bits size h = elim (dec_le 2 (covering_bits size)) [
  | yes p ↦ p
  | no p ↦
      let fits = (covering_bits-le_iff size 1 (omega arith)).0 (omega arith) in
      absurd (omega (arith, fits))
]

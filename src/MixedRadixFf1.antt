-- ===== src/MixedRadixFf1.antt =====
-- src/surrogate/mixed_radix_ff1.py: a mixed-radix number is permuted by FF1 over the smallest binary
-- domain that covers it, again and again until the result is below the true size.
pub mod Bits
pub mod Walk
pub mod Roundtrip
use local_first_llm_privacy.Common.{
  ℕ, zero, suc, ◌-◌, ◌/◌, ◌+◌, List, max, replicate, ltb, ◌==◌, if◌then◌else◌, Result, ok, raise,
  ◌>>=◌, surrogate_domain_error,
}
use local_first_llm_privacy.Common.Bytes.{Bytes}
use local_first_llm_privacy.Crypto.{Crypto}
use local_first_llm_privacy.MixedRadix.{encode, decode, domain_size}
use local_first_llm_privacy.Ff1.{ff1_encrypt, ff1_decrypt}

abbrev pub max_cycle_walk_attempts : ℕ
max_cycle_walk_attempts = 1000

-- `int.bit_length`, with the number itself as fuel.
bit_length_fuel : ℕ → ℕ → ℕ
bit_length_fuel zero n = 0
bit_length_fuel (suc f) n = let rest = bit_length_fuel f (n / 2) in if n == 0 then 0 else suc rest

unfoldable pub bit_length : ℕ → ℕ
unfolding bit_length_fuel
bit_length n = bit_length_fuel n n

unfoldable pub covering_bits : ℕ → ℕ
unfolding bit_length
covering_bits true_size = max (bit_length (true_size - 1)) 1

-- The body of the loop of `_walk`, over the permutation under its key, tweak and radix 2.
unfoldable pub walk_step : (List ℕ → Result (List ℕ)) → ℕ → ℕ → Result ℕ
walk_step permute bits current = do
  digits ← decode current (replicate bits 2)
  permuted_digits ← permute digits
  encode permuted_digits (replicate bits 2)

unfoldable pub walk_loop : ℕ → (List ℕ → Result (List ℕ)) → ℕ → ℕ → ℕ → Result ℕ
unfolding walk_step
walk_loop zero permute bits true_size current = raise surrogate_domain_error
walk_loop (suc left) permute bits true_size current = walk_step permute bits current >>= λ next.
    let rest = walk_loop left permute bits true_size next in
    if ltb next true_size then ok next else rest

unfoldable pub walk : (List ℕ → Result (List ℕ)) → ℕ → ℕ → ℕ → Result ℕ
unfolding walk_loop
walk permute bits true_size start = walk_loop max_cycle_walk_attempts permute bits true_size start

module _ (c : Crypto) where
  unfoldable pub encrypt_combined : Bytes → Bytes → List ℕ → List ℕ → Result (List ℕ)
  unfolding walk covering_bits
  encrypt_combined key tweak symbols radixes = do
    let true_size = domain_size radixes
    let bits = covering_bits true_size
    value ← encode symbols radixes
    result ← walk (ff1_encrypt c key tweak 2) bits true_size value
    decode result radixes

  unfoldable pub decrypt_combined : Bytes → Bytes → List ℕ → List ℕ → Result (List ℕ)
  unfolding walk covering_bits
  decrypt_combined key tweak symbols radixes = do
    let true_size = domain_size radixes
    let bits = covering_bits true_size
    value ← encode symbols radixes
    result ← walk (ff1_decrypt c key tweak 2) bits true_size value
    decode result radixes

-- ===== src/Examples/Toy.antt =====
-- A cipher that meets what the engine asks of the real one: it hands its blocks on as they are.
use native.Mathlib.Nat.{pow-le-pow_left}
use native.Mathlib.Numerals.{towards_suc}
use local_first_llm_privacy.Common.{ℕ, zero, suc, ◌+◌, ◌*◌, ◌^◌, ◌≤◌, ◌≡◌, refl, [], ◌∷◌, ok, arith}
use local_first_llm_privacy.Common.Bytes.{Bytes}
use local_first_llm_privacy.Crypto.{Crypto, IsCipher, IsBitLength, HasBitLengths}

abbrev pub toy : Crypto
toy = record {
  aes_cbc = λ key iv text. ok text;
  aes_ecb = λ key block. ok block;
  ceil_log2 = λ v radix. 4 * v;
}

abbrev pub toy_key : Bytes
toy_key = 1 ∷ 2 ∷ 3 ∷ []

pub toy-IsCipher : IsCipher toy toy_key
toy-IsCipher = record {
  cbc_total = λ iv text hiv h. (text, refl, refl);
  ecb_total = λ block h. (block, refl, refl);
}

pow-16 : (v : ℕ) → 2 ^ (4 * v) ≡ 16 ^ v
pow-16 zero = refl
pow-16 (suc v) =
    let e : 4 * suc v ≡ 4 * v + 4 = omega arith in rw e (simp towards_suc (omega (arith, pow-16 v)))

pub toy-IsBitLength : (v radix : ℕ) → radix ≤ 16 → IsBitLength toy v radix
toy-IsBitLength v radix h = record {
  enough = rw (pow-16 v) (pow-le-pow_left h v);
  bounded = omega arith;
}

pub toy-HasBitLengths : HasBitLengths toy
toy-HasBitLengths v radix low high short = toy-IsBitLength v radix (omega arith)

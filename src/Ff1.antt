-- ===== src/Ff1.antt =====
-- src/surrogate/ff1.py: the FF1 permutation of NIST SP 800-38G over lists of digits, most significant
-- first. Python's `%` of a negative number by a positive one is written out in `sub_mod`.
pub mod Digits
pub mod Rounds
pub mod Feistel
pub mod Roundtrip
use local_first_llm_privacy.Common.{
  ℕ, zero, suc, ◌+◌, ◌-◌, ◌*◌, ◌/◌, ◌%◌, ◌^◌, List, [], ◌∷◌, ◌++◌, Bool, true, false, ◌&&◌, not,
  length, take, drop, replicate, ltb, leb, ◌==◌, if◌then◌else◌, Result, ok, raise, ensure, ◌>>=◌,
  ◌>>◌, value_error, surrogate_domain_error, bit_xor,
}
use local_first_llm_privacy.Common.Bytes.{Bytes, to_bytes, from_bytes}
use local_first_llm_privacy.Crypto.{Crypto}

abbrev pub rounds : ℕ
rounds = 10

abbrev pub min_radix : ℕ
min_radix = 2

abbrev pub max_radix : ℕ
max_radix = 65536

abbrev pub min_length : ℕ
min_length = 2

abbrev pub max_tweak_length : ℕ
max_tweak_length = 4294967295

unfoldable pub validate : ℕ → ℕ → Bytes → Result (Unit {0})
validate radix len tweak = do
  ensure (leb min_radix radix && leb radix max_radix) surrogate_domain_error
  ensure (not (ltb len min_length)) surrogate_domain_error
  ensure (not (ltb max_tweak_length (length tweak))) surrogate_domain_error

-- `_num_radix`, with the running value.
unfoldable pub num_radix_loop : ℕ → List ℕ → ℕ → ℕ
num_radix_loop value [] radix = value
num_radix_loop value (digit ∷ digits) radix = num_radix_loop (value * radix + digit) digits radix

unfoldable pub num_radix : List ℕ → ℕ → ℕ
unfolding num_radix_loop
num_radix digits radix = num_radix_loop 0 digits radix

-- `_str_m_radix`: the list is filled from its last position, `length` times.
unfoldable pub str_m_radix_loop : ℕ → ℕ → ℕ → List ℕ → List ℕ
str_m_radix_loop value radix zero digits = digits
str_m_radix_loop value radix (suc k) digits =
    str_m_radix_loop (value / radix) radix k ((value % radix) ∷ digits)

unfoldable pub str_m_radix : ℕ → ℕ → ℕ → List ℕ
unfolding str_m_radix_loop
str_m_radix value radix len = str_m_radix_loop value radix len []

unfoldable pub build_p : ℕ → ℕ → ℕ → ℕ → Result Bytes
build_p radix u n t = do
  radix_bytes ← to_bytes radix 3
  n_bytes ← to_bytes n 4
  t_bytes ← to_bytes t 4
  ok ((1 ∷ 2 ∷ 1 ∷ []) ++ radix_bytes ++ (rounds ∷ []) ++ ((u % 256) ∷ []) ++ n_bytes ++ t_bytes)

-- `(-len(tweak) - b - 1) % 16`, which Python takes in `[0, 16)`.
unfoldable pub pad_len : ℕ → ℕ → ℕ
pad_len t b = (16 - (t + b + 1) % 16) % 16

unfoldable pub build_q : Bytes → ℕ → ℕ → List ℕ → ℕ → Result Bytes
unfolding pad_len num_radix
build_q tweak b round_index digits radix = do
  half ← to_bytes (num_radix digits radix) b
  ok (tweak ++ replicate (pad_len (length tweak) b) 0 ++ (round_index ∷ []) ++ half)

-- `zip(strict=True)` raises on lists of different lengths.
unfoldable pub xor_bytes : Bytes → Bytes → Result Bytes
xor_bytes [] [] = ok []
xor_bytes (x ∷ a) (y ∷ b) = do rest ← xor_bytes a b; ok (bit_xor x y ∷ rest)
xor_bytes _ _ = raise value_error

-- `(x - y) % m` for a positive `m`.
unfoldable pub sub_mod : ℕ → ℕ → ℕ → ℕ
sub_mod x y m = (x + (m - y % m)) % m

-- One Feistel half per round: `u` digits in the even rounds, `v` in the odd ones.
unfoldable pub half_length : ℕ → ℕ → ℕ → ℕ
half_length u v i = if i % 2 == 0 then u else v

-- The ten rounds over the numbers that the round function gives; `i` counts the rounds.
module _ (round_value : ℕ → List ℕ → Result ℕ) (radix u v : ℕ) where
  unfoldable pub encrypt_rounds : ℕ → ℕ → List ℕ → List ℕ → Result (List ℕ × List ℕ)
  encrypt_rounds zero i a b_half = ok (a, b_half)
  encrypt_rounds (suc left) i a b_half = round_value i b_half >>= λ y.
      encrypt_rounds left (suc i) b_half (
        str_m_radix ((num_radix a radix + y) % radix ^ half_length u v i) radix (half_length u v i))

  unfoldable pub decrypt_rounds : ℕ → List ℕ → List ℕ → Result (List ℕ × List ℕ)
  decrypt_rounds zero a b_half = ok (a, b_half)
  decrypt_rounds (suc i) a b_half = round_value i a >>= λ y.
      decrypt_rounds i
        (str_m_radix (sub_mod (num_radix b_half radix) y (radix ^ half_length u v i)) radix
          (half_length u v i))
        a

module _ (c : Crypto) where
  open c use {aes_cbc, aes_ecb, ceil_log2}

  -- `b` and `d` of `_feistel_params`; `u` and `v` are `n // 2` and `n - u`.
  unfoldable pub byte_width : ℕ → ℕ → ℕ
  byte_width radix v = (ceil_log2 v radix + 7) / 8

  unfoldable pub prf_length : ℕ → ℕ
  prf_length b = 4 * ((b + 3) / 4) + 4

  -- The last ciphertext block of CBC under a zero initial vector.
  unfoldable pub prf : Bytes → Bytes → Result Bytes
  prf key text = do
    ciphertext ← aes_cbc key (replicate 16 0) text
    ok (drop (length ciphertext - 16) ciphertext)

  -- The `while` loop of `_generate_s`, with fuel; a round adds a block, so `d` rounds are enough.
  unfoldable pub extend : ℕ → Bytes → Bytes → ℕ → ℕ → Bytes → Result Bytes
  extend zero key r d counter s = ok s
  extend (suc fuel) key r d counter s =
      let next = (do
        counter_bytes ← to_bytes counter 16
        block ← xor_bytes r counter_bytes
        out ← aes_ecb key block
        extend fuel key r d (counter + 1) (s ++ out)) in
      if ltb (length s) d then next else ok s

  unfoldable pub generate_s : Bytes → Bytes → ℕ → Result Bytes
  unfolding extend
  generate_s key r d = do s ← extend d key r d 1 r; ok (take d s)

  -- The number that a round adds to one half, from the other half.
  unfoldable pub round_value : Bytes → Bytes → ℕ → ℕ → Bytes → ℕ → List ℕ → Result ℕ
  unfolding prf generate_s
  round_value key tweak radix b p i half = do
    q ← build_q tweak b i half radix
    r ← prf key (p ++ q)
    s ← generate_s key r (prf_length b)
    ok (from_bytes s)

  unfoldable pub ff1_encrypt : Bytes → Bytes → ℕ → List ℕ → Result (List ℕ)
  unfolding encrypt_rounds round_value byte_width
  ff1_encrypt key tweak radix digits = do
    validate radix (length digits) tweak
    let n = length digits
    let u = n / 2
    let v = n - u
    let b = byte_width radix v
    p ← build_p radix u n (length tweak)
    (a, b_half) ←
        encrypt_rounds (round_value key tweak radix b p) radix u v rounds 0 (take u digits)
          (drop u digits)
    ok (a ++ b_half)

  unfoldable pub ff1_decrypt : Bytes → Bytes → ℕ → List ℕ → Result (List ℕ)
  unfolding decrypt_rounds round_value byte_width
  ff1_decrypt key tweak radix digits = do
    validate radix (length digits) tweak
    let n = length digits
    let u = n / 2
    let v = n - u
    let b = byte_width radix v
    p ← build_p radix u n (length tweak)
    (a, b_half) ←
        decrypt_rounds (round_value key tweak radix b p) radix u v rounds (take u digits)
          (drop u digits)
    ok (a ++ b_half)

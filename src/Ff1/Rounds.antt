-- ===== src/Ff1/Rounds.antt =====
-- The round function: with a cipher that maps blocks to blocks it gives a number for every half that
-- fits the byte width.
use native.Mathlib.Nat.{pow-le-pow_right}
use local_first_llm_privacy.Common.{
  ℕ, zero, suc, ◌+◌, ◌-◌, ◌*◌, ◌/◌, ◌%◌, ◌^◌, ◌≤◌, ◌<◌, ◌≡◌, refl, ap, List, [], ◌∷◌, ◌++◌,
  Bool-cases, inl, inr, arith, length, length-append, take, drop, replicate, length-replicate,
  length-take, length-drop, ok, ltb, pow-le-256, bit_xor,
}
use local_first_llm_privacy.Common.Bytes.{Bytes, to_bytes_total, from_bytes}
use local_first_llm_privacy.Crypto.{Crypto, IsCipher}
use local_first_llm_privacy.Ff1.{
  num_radix, pad_len, build_p, build_q, xor_bytes, byte_width, prf_length, prf, extend, generate_s,
  round_value,
}
use local_first_llm_privacy.Ff1.Digits.{Below, num_radix-lt}

-- Lists of equal length can be combined.
xor_bytes_total :
    (a b : Bytes)
    → length a ≡ length b
    → (out : Bytes) × (xor_bytes a b ≡ ok out) × (length out ≡ length a)
unfolding xor_bytes
xor_bytes_total [] [] h = ([], refl, refl)
xor_bytes_total (x ∷ a) (y ∷ b) h =
    let (out, e, len) = xor_bytes_total a b (omega arith) in (bit_xor x y ∷ out, rw e, ap suc len)
xor_bytes_total [] (y ∷ b) h = absurd (omega arith)
xor_bytes_total (x ∷ a) [] h = absurd (omega arith)

-- The prefix is one block.
pub build_p_total :
    (radix u n t : ℕ)
    → radix ≤ 65536
    → n < 4294967296
    → t < 4294967296
    → (p : Bytes) × (build_p radix u n t ≡ ok p) × (length p ≡ 16)
unfolding build_p
build_p_total radix u n t hr hn ht =
    let (rb, re, rl) = to_bytes_total radix 3 (omega arith) in
    let (nb, ne, nl) = to_bytes_total n 4 (omega arith) in
    let (tb, te, tl) = to_bytes_total t 4 (omega arith) in
    (
      (1 ∷ 2 ∷ 1 ∷ []) ++ rb ++ (10 ∷ []) ++ ((u % 256) ∷ []) ++ nb ++ tb,
      rw (re, ne, te),
      simp length-append (omega (arith, rl, nl, tl)),
    )

-- The suffix fills up to whole blocks.
pub build_q_total :
    (tweak : Bytes) (b i : ℕ) (half : List ℕ) (radix : ℕ)
    → num_radix half radix < 256 ^ b
    → (q : Bytes) × (build_q tweak b i half radix ≡ ok q) × (length q % 16 ≡ 0)
unfolding build_q pad_len
build_q_total tweak b i half radix h =
    let (hb, he, hl) = to_bytes_total (num_radix half radix) b h in
    (
      tweak ++ replicate (pad_len (length tweak) b) 0 ++ (i ∷ []) ++ hb,
      rw he,
      simp (length-append, length-replicate) (omega (arith, hl)),
    )

-- A key under which the cipher works, and the length of its blocks.
module _ (c : Crypto) (key : Bytes) (cipher : IsCipher c key) where
  prf_total :
      (text : Bytes)
      → length text % 16 ≡ 0
      → 16 ≤ length text
      → (r : Bytes) × (prf c key text ≡ ok r) × (length r ≡ 16)
  unfolding prf
  prf_total text blocks long =
      let (out, run, len) = cipher.cbc_total (replicate 16 0) text refl blocks in
      (drop (length out - 16) out, rw run, omega (arith, len, length-drop (length out - 16) out))

  -- The loop stops by its test: each round adds a block, so the fuel `d` is enough.
  extend_total :
      (fuel d counter : ℕ) (r s : Bytes)
      → length r ≡ 16
      → counter + fuel < 256 ^ 16
      → d ≤ length s + fuel
      → (out : Bytes) × (extend c fuel key r d counter s ≡ ok out) × (d ≤ length out)
  unfolding extend
  extend_total zero d counter r s hr small h = (s, refl, omega arith)
  extend_total (suc fuel) d counter r s hr small h = elim (Bool-cases (ltb (length s) d)) [
    | inr done ↦ (s, rw done, ground arith)
    | inl more ↦
        let (cb, ce, cl) = to_bytes_total counter 16 (omega arith) in
        let (block, be, bl) = xor_bytes_total r cb (omega (arith, cl, hr)) in
        let (enc, ee, el) = cipher.ecb_total block (omega (arith, bl, hr)) in
        let (out, run, len) =
          extend_total fuel d (counter + 1) r (s ++ enc) hr (omega arith)
            (omega (arith, length-append s enc, el, bl, hr)) in
        (out, rw (more, ce, be, ee) run, len)
  ]

  -- `generate_s` returns exactly `d` bytes.
  pub generate_s_total :
      (r : Bytes) (d : ℕ)
      → length r ≡ 16
      → d < 18446744073709551616
      → (s : Bytes) × (generate_s c key r d ≡ ok s) × (length s ≡ d)
  unfolding generate_s
  generate_s_total r d hr small =
      let (out, run, len) = extend_total d d 1 r r hr (omega arith) (omega arith) in
      (take d out, rw run, omega (arith, length-take d out))

  pub round_value_total :
      (tweak : Bytes) (radix b i : ℕ) (p : Bytes) (half : List ℕ)
      → length p ≡ 16
      → b < 1099511627776
      → num_radix half radix < 256 ^ b
      → (y : ℕ) × (round_value c key tweak radix b p i half ≡ ok y)
  unfolding round_value prf_length
  round_value_total tweak radix b i p half hp hb fits =
      let (q, qe, ql) = build_q_total tweak b i half radix fits in
      let (r, re, rl) =
        prf_total (p ++ q) (omega (arith, length-append p q, hp, ql))
          (omega (arith, length-append p q, hp)) in
      let (s, se, sl) = generate_s_total r (4 * ((b + 3) / 4) + 4) rl (omega arith) in
      (from_bytes s, rw (qe, re, se))

-- A half of at most `v` digits fits the byte width, if the rounded logarithm has enough bits.
pub half_fits :
    (c : Crypto) (radix v : ℕ) (half : List ℕ)
    → 0 < radix
    → radix ^ v ≤ 2 ^ c.ceil_log2 v radix
    → length half ≤ v
    → Below radix half
    → num_radix half radix < 256 ^ byte_width c radix v
unfolding byte_width
half_fits c radix v half pos bits short low =
    let bytes = pow-le-256 (c.ceil_log2 v radix) ((c.ceil_log2 v radix + 7) / 8) (omega arith) in
    omega (arith, num_radix-lt radix half low, pow-le-pow_right pos short, bits, bytes)

-- ===== src/Ff1/Feistel.antt =====
-- The ten rounds undo one another, whatever numbers the round function gives.
use native.Mathlib.Decide.{dec_lt}
use native.Mathlib.Nat.{
  one-le-pow, mod-lt, mod-eq_of_lt, mod-eq-sub-mod, add-mod-mod, add-mod_right,
}
use local_first_llm_privacy.Common.{
  ℕ, zero, suc, ◌+◌, ◌-◌, ◌%◌, ◌^◌, ◌≤◌, ◌<◌, ◌≡◌, refl, ap, ◌∙◌, sym, List, arith, length, ok,
  Result,
}
use local_first_llm_privacy.Ff1.{
  num_radix, str_m_radix, sub_mod, half_length, encrypt_rounds, decrypt_rounds,
}
use local_first_llm_privacy.Ff1.Digits.{
  Below, num_radix-lt, str_m_radix-num_radix, str_m_radix_digits,
}

sub_mod-add_small : (x r m : ℕ) → x < m → r < m → ((x + r) % m + (m - r)) % m ≡ x
sub_mod-add_small x r m hx hr = elim (dec_lt (x + r) m) [
  | yes low ↦
      let e : x + r + (m - r) ≡ x + m = omega arith in
      rw (mod-eq_of_lt low, e, add-mod_right x m) (mod-eq_of_lt hx)
  | no high ↦
      let e : x + r - m + (m - r) ≡ x = omega arith in
      let le : m ≤ x + r = omega arith in
      let fits : x + r - m < m = omega arith in
      rw (mod-eq-sub-mod le, mod-eq_of_lt fits, e) (mod-eq_of_lt hx)
]

-- Subtraction modulo `m` undoes addition modulo `m`.
sub_mod-add : (x y m : ℕ) → x < m → sub_mod ((x + y) % m) y m ≡ x
unfolding sub_mod
sub_mod-add x y m h =
    let r : y % m < m = mod-lt y (omega arith) in
    rw (← add-mod-mod x y m) (sub_mod-add_small x (y % m) m h r)

module _ (round_value : ℕ → List ℕ → Result ℕ) (radix u v : ℕ) (pos : 0 < radix) where
  -- The halves that round `i` takes: the first of its own length, the second of the other.
  abbrev pub IsHalves : ℕ → List ℕ → List ℕ → Type 0
  IsHalves i a b =
      (length a ≡ half_length u v i)
      × (length b ≡ half_length u v (suc i))
      × Below radix a
      × Below radix b

  -- The round function gives a number for every half that a round may hand to it.
  abbrev pub IsTotal : Type 0
  IsTotal =
      (i : ℕ) (half : List ℕ)
      → i < 10
      → length half ≡ half_length u v (suc i)
      → Below radix half
      → (y : ℕ) × (round_value i half ≡ ok y)

  half_length_two : (i : ℕ) → half_length u v (suc (suc i)) ≡ half_length u v i
  unfolding half_length
  half_length_two i = ground arith

  next_half : ℕ → ℕ → List ℕ → List ℕ
  next_half i y a =
      str_m_radix ((num_radix a radix + y) % radix ^ half_length u v i) radix (half_length u v i)

  next_half_digits :
      (i y : ℕ) (a : List ℕ)
      → (num_radix (next_half i y a) radix ≡ (num_radix a radix + y) % radix ^ half_length u v i)
        × (length (next_half i y a) ≡ half_length u v i)
        × Below radix (next_half i y a)
  unfolding next_half
  next_half_digits i y a =
      let m = half_length u v i in
      let p = one-le-pow m radix pos in
      str_m_radix_digits ((num_radix a radix + y) % radix ^ m) radix m pos (grind arith)

  -- What decryption computes in round `i` from what encryption left there.
  previous_half :
      (i y : ℕ) (a : List ℕ)
      → length a ≡ half_length u v i
      → Below radix a
      → str_m_radix
          (sub_mod (num_radix (next_half i y a) radix) y (radix ^ half_length u v i))
          radix
          (half_length u v i)
        ≡ a
  previous_half i y a len low =
      let fits = rw len at (num_radix-lt radix a low) in
      rw
        (
          (next_half_digits i y a).0,
          sub_mod-add (num_radix a radix) y (radix ^ half_length u v i) fits,
          ← len,
        )
        (str_m_radix-num_radix radix a low)

  -- Encryption of `left` rounds from round `i` ends, and decryption from there goes back to round `i`.
  pub decrypt_rounds-encrypt_rounds :
      (left i n : ℕ) (a b : List ℕ)
      → IsTotal
      → left + i ≡ n
      → n ≤ 10
      → IsHalves i a b
      → (a' : List ℕ) × (b' : List ℕ) × (encrypt_rounds round_value radix u v left i a b
          ≡ ok (a', b'))
        × IsHalves n a' b'
        × (decrypt_rounds round_value radix u v n a' b'
            ≡ decrypt_rounds round_value radix u v i a b)
  unfolding encrypt_rounds decrypt_rounds next_half
  decrypt_rounds-encrypt_rounds zero i n a b total e bound h =
      let same : n ≡ i = omega arith in
      (a, b, refl, rw same h, ap (λ k. decrypt_rounds round_value radix u v k a b) same)
  decrypt_rounds-encrypt_rounds (suc left) i n a b total e bound h =
      let (y, run) = total i b (omega arith) h.1 h.3 in
      let (value, len, low) = next_half_digits i y a in
      let halves : IsHalves (suc i) b (next_half i y a) =
        (h.1, len ∙ sym (half_length_two i), h.3, low) in
      let (a', b', enc, rest, dec) =
        decrypt_rounds-encrypt_rounds left (suc i) n b (next_half i y a) total (omega arith) bound
          halves in
      (a', b', rw run enc, rest, dec ∙ rw (run, previous_half i y a h.0 h.2))

-- ===== src/Checksum/Luhn.antt =====
-- The Luhn sum: what the check digit promises, and when the validator raises.
use local_first_llm_privacy.Common.{
  ℕ, suc, ◌+◌, ◌-◌, ◌%◌, ◌<◌, ◌≡◌, ◌↔◌, refl, ap, ◌∙◌, sym, [], ◌∷◌, ◌++◌, reverse, reverse-append,
  Bool, true, false, arith, ok, raise, >>=-eq-ok, all, ok-injective, ◌==◌, Bool-cases, inl, inr,
  value_error, length, length-append, ltb,
}
use local_first_llm_privacy.Common.Chars.{
  Text, is_digit, int_of_char, int_of_char-ascii, str-digit, is_digit-append, is_digit_char-ascii,
  is_decimal_char, is_decimal, all-reverse, is_digit-is_decimal, int_of_char-is_decimal_char,
  int_of_char-not-is_decimal_char,
}
use local_first_llm_privacy.Checksum.{
  luhn_weight, luhn_loop, luhn_is_valid, luhn_generate_check_digit,
}

-- The loop adds to its start.
pub luhn_loop_add :
    (parity i a t : ℕ) (s : Text) {r : ℕ}
    → luhn_loop parity i t s ≡ ok r
    → luhn_loop parity i (a + t) s ≡ ok (a + r)
unfolding luhn_loop
luhn_loop_add parity i a t [] h = ap (λ r. ok (a + r)) (ok-injective h)
luhn_loop_add parity i a t (ch ∷ s) h =
    let (d, e, h') = >>=-eq-ok (int_of_char ch) _ h in
    let k : a + t + luhn_weight parity i d ≡ a + (t + luhn_weight parity i d) = omega arith in
    rw (e, k) (luhn_loop_add parity (suc i) a (t + luhn_weight parity i d) s h')

luhn_weight_shift : (i d : ℕ) → luhn_weight 0 i d ≡ luhn_weight 1 (suc i) d
unfolding luhn_weight
luhn_weight_shift i d = ground arith

-- Parity 0 at counter `i` is parity 1 at counter `i + 1`.
luhn_loop_shift : (i t : ℕ) (s : Text) → luhn_loop 0 i t s ≡ luhn_loop 1 (suc i) t s
unfolding luhn_loop
luhn_loop_shift i t [] = refl
luhn_loop_shift i t (ch ∷ s) =
    let next : (t : ℕ) → luhn_loop 0 (suc i) t s ≡ luhn_loop 1 (suc (suc i)) t s =
      λ t. luhn_loop_shift (suc i) t s in
    simp (next, luhn_weight_shift)

pub luhn_loop_total :
    (parity i t : ℕ) (s : Text)
    → all is_decimal_char s ≡ true
    → (r : ℕ) × (luhn_loop parity i t s ≡ ok r)
unfolding luhn_loop
luhn_loop_total parity i t [] h = (t, refl)
luhn_loop_total parity i t (ch ∷ s) h =
    let (d, e) = int_of_char-is_decimal_char ch (ground arith) in
    let (r, e') = luhn_loop_total parity (suc i) (t + luhn_weight parity i d) s (ground arith) in
    (r, rw e e')

luhn_loop_raises :
    (parity i t : ℕ) (s : Text)
    → all is_decimal_char s ≡ false
    → luhn_loop parity i t s ≡ raise value_error
unfolding luhn_loop
luhn_loop_raises parity i t [] h = cc
luhn_loop_raises parity i t (ch ∷ s) h = elim (Bool-cases (is_decimal_char ch)) [
  | inl yes' ↦
      let (d, e) = int_of_char-is_decimal_char ch yes' in
      rw e (luhn_loop_raises parity (suc i) (t + luhn_weight parity i d) s (ground arith))
  | inr no' ↦ rw (int_of_char-not-is_decimal_char ch no')
]

luhn_loop_first : (k : ℕ) (s : Text) → k < 10 → luhn_loop 1 0 0 ((b'0' + k) ∷ s) ≡ luhn_loop 1 1 k s
unfolding luhn_loop luhn_weight
luhn_loop_first k s hk = rw (int_of_char-ascii k hk) (ap (λ t. luhn_loop 1 1 t s) (omega arith))

check_digit_completes :
    (payload : Text) (t : ℕ)
    → luhn_loop 0 0 0 (reverse payload) ≡ ok t
    → luhn_loop 1 0 0 (reverse (payload ++ (b'0' + (10 - t % 10) % 10) ∷ []))
      ≡ ok ((10 - t % 10) % 10 + t)
check_digit_completes payload t h =
    let k = (10 - t % 10) % 10 in
    let hk : (10 - t % 10) % 10 < 10 = omega arith in
    let start : k ≡ k + 0 = omega arith in
    rw (reverse-append payload ((b'0' + k) ∷ [])) (
      luhn_loop_first k (reverse payload) hk
      ∙ ap (λ a. luhn_loop 1 1 a (reverse payload)) start
      ∙ luhn_loop_add 1 1 k 0 (reverse payload) (sym (luhn_loop_shift 0 0 (reverse payload)) ∙ h))

-- For every payload of decimal digits (of any script) the generated Luhn digit is one ASCII digit,
-- and the payload followed by it validates.
pub luhn_is_valid-generate_check_digit :
    (payload : Text)
    → is_decimal payload ≡ true
    → (k : ℕ) × (k < 10)
      × (luhn_generate_check_digit payload ≡ ok ((b'0' + k) ∷ []))
      × (luhn_is_valid (payload ++ (b'0' + k) ∷ []) ≡ ok true)
unfolding luhn_generate_check_digit luhn_is_valid is_decimal
luhn_is_valid-generate_check_digit [] h = cc
luhn_is_valid-generate_check_digit (c ∷ p) h =
    let payload = c ∷ p in
    let digits : all is_decimal_char payload ≡ true = ground arith in
    let (t, run) =
      luhn_loop_total 0 0 0 (reverse payload) (all-reverse is_decimal_char payload ∙ digits) in
    let k = (10 - t % 10) % 10 in
    let hk : (10 - t % 10) % 10 < 10 = omega arith in
    let whole =
      is_digit-append payload ((b'0' + k) ∷ []) (is_digit-is_decimal payload h)
        (ground (arith, is_digit_char-ascii k hk)) in
    let long : ltb (length (payload ++ (b'0' + k) ∷ [])) 2 ≡ false =
      ground (arith, length-append p ((b'0' + k) ∷ [])) in
    let sums : (((10 - t % 10) % 10 + t) % 10 == 0) ≡ true = ground arith in
    (
      k,
      hk,
      rw (is_digit-is_decimal payload h, run, str-digit k hk),
      rw (whole, long, check_digit_completes payload t run, sums),
    )

luhn_is_valid_total :
    (number : Text) → is_decimal number ≡ true → (b : Bool) × (luhn_is_valid number ≡ ok b)
unfolding luhn_is_valid is_decimal
luhn_is_valid_total number h =
    let (t, run) =
      luhn_loop_total 1 0 0 (reverse number) (all-reverse is_decimal_char number ∙ ground arith) in
    elim (Bool-cases (ltb (length number) 2)) [
      | inl short ↦ (false, rw (is_digit-is_decimal number h, short))
      | inr long ↦ (t % 10 == 0, rw (is_digit-is_decimal number h, long, run))
    ]

luhn_is_valid-not-decimal :
    (number : Text)
    → is_digit number ≡ true
    → ltb (length number) 2 ≡ false
    → is_decimal number ≡ false
    → luhn_is_valid number ≡ raise value_error
unfolding luhn_is_valid is_decimal is_digit
luhn_is_valid-not-decimal number h long n =
    let undecimal : all is_decimal_char (reverse number) ≡ false =
      all-reverse is_decimal_char number ∙ ground arith in
    rw (h, long, luhn_loop_raises 1 0 0 (reverse number) undecimal)

-- `luhn_is_valid` raises `ValueError` exactly for the texts of two or more characters that
-- `str.isdigit` accepts and that hold a character which `int` does not read.
pub luhn_is_valid-eq-raise_iff :
    (number : Text)
    → (luhn_is_valid number ≡ raise value_error)
      ↔ ((is_digit number ≡ true) × (ltb (length number) 2 ≡ false) × (is_decimal number ≡ false))
unfolding luhn_is_valid
luhn_is_valid-eq-raise_iff number = (
  λ e. elim (Bool-cases (is_decimal number)) [
    | inl yes' ↦ absurd (ground (arith, (luhn_is_valid_total number yes').1, e))
    | inr no' ↦ (ground arith, ground arith, no')
  ],
  λ (h, long, n). luhn_is_valid-not-decimal number h long n,
)

-- ===== src/Checksum/Verhoeff.antt =====
-- The Verhoeff loop as a product in the group of the table, and what the check digit promises.
use local_first_llm_privacy.Common.{
  ℕ, suc, ◌+◌, ◌%◌, ◌<◌, ◌≡◌, ◌↔◌, refl, ap, ◌∙◌, sym, [], ◌∷◌, ◌++◌, reverse, reverse-append, Bool,
  true, false, arith, ok, raise, >>=-eq-ok, all, ok-injective, ◌==◌, Bool-cases, inl, inr,
  value_error,
}
use local_first_llm_privacy.Common.Chars.{
  Text, is_digit, int_of_char, int_of_char-lt, int_of_char-ascii, str-digit, is_digit-append,
  is_digit_char-ascii, is_decimal_char, is_decimal, all-reverse, is_digit-is_decimal,
  int_of_char-is_decimal_char, int_of_char-not-is_decimal_char,
}
use local_first_llm_privacy.Checksum.{
  d_at, p_at, inv_at, verhoeff_loop, verhoeff_checksum, verhoeff_is_valid,
  verhoeff_generate_check_digit,
}
use local_first_llm_privacy.Checksum.Tables.{
  d_at-lt, p_at-lt, d_at_assoc, inv_at-lt, first_position,
}

-- The register stays a table index.
pub verhoeff_loop-lt :
    (offset i c : ℕ) (s : Text) {r : ℕ} → c < 10 → verhoeff_loop offset i c s ≡ ok r → r < 10
unfolding verhoeff_loop
verhoeff_loop-lt offset i c [] hc h = ground arith
verhoeff_loop-lt offset i c (ch ∷ s) hc h =
    let (d, e, h') = >>=-eq-ok (int_of_char ch) _ h in
    let p = p_at-lt (i + offset) d (int_of_char-lt ch d e) in
    verhoeff_loop-lt offset (suc i) _ s (d_at-lt c (p_at ((i + offset) % 8) d) hc p) h'

-- Starting from `a · c` is starting from `c` and multiplying by `a` on the left.
pub verhoeff_loop_scale :
    (offset i a c : ℕ) (s : Text) {r : ℕ}
    → a < 10
    → c < 10
    → verhoeff_loop offset i c s ≡ ok r
    → verhoeff_loop offset i (d_at a c) s ≡ ok (d_at a r)
unfolding verhoeff_loop
verhoeff_loop_scale offset i a c [] ha hc h = ap (λ r. ok (d_at a r)) (ok-injective h)
verhoeff_loop_scale offset i a c (ch ∷ s) ha hc h =
    let (d, e, h') = >>=-eq-ok (int_of_char ch) _ h in
    let p = p_at-lt (i + offset) d (int_of_char-lt ch d e) in
    rw (e, d_at_assoc a c (p_at ((i + offset) % 8) d) ha hc p)
      (verhoeff_loop_scale offset (suc i) a (d_at c (p_at ((i + offset) % 8) d)) s ha
        (d_at-lt c _ hc p) h')

-- Offset 1 at counter `i` is offset 0 at counter `i + 1`.
pub verhoeff_loop_shift : (i c : ℕ) (s : Text) → verhoeff_loop 1 i c s ≡ verhoeff_loop 0 (suc i) c s
unfolding verhoeff_loop
verhoeff_loop_shift i c [] = refl
verhoeff_loop_shift i c (ch ∷ s) =
    let next : (c : ℕ) → verhoeff_loop 1 (suc i) c s ≡ verhoeff_loop 0 (suc (suc i)) c s =
      λ c. verhoeff_loop_shift (suc i) c s in
    let e : i + 1 ≡ suc i + 0 = omega arith in rw e (simp next)

pub verhoeff_loop_total :
    (offset i c : ℕ) (s : Text)
    → all is_decimal_char s ≡ true
    → (r : ℕ) × (verhoeff_loop offset i c s ≡ ok r)
unfolding verhoeff_loop
verhoeff_loop_total offset i c [] h = (c, refl)
verhoeff_loop_total offset i c (ch ∷ s) h =
    let (d, e) = int_of_char-is_decimal_char ch (ground arith) in
    let (r, e') =
      verhoeff_loop_total offset (suc i) (d_at c (p_at ((i + offset) % 8) d)) s (ground arith) in
    (r, rw e e')

pub verhoeff_loop_raises :
    (offset i c : ℕ) (s : Text)
    → all is_decimal_char s ≡ false
    → verhoeff_loop offset i c s ≡ raise value_error
unfolding verhoeff_loop
verhoeff_loop_raises offset i c [] h = cc
verhoeff_loop_raises offset i c (ch ∷ s) h = elim (Bool-cases (is_decimal_char ch)) [
  | inl yes' ↦
      let (d, e) = int_of_char-is_decimal_char ch yes' in
      rw e
        (verhoeff_loop_raises offset (suc i) (d_at c (p_at ((i + offset) % 8) d)) s (ground arith))
  | inr no' ↦ rw (int_of_char-not-is_decimal_char ch no')
]

verhoeff_loop_first :
    (k : ℕ) (s : Text) → k < 10 → verhoeff_loop 0 0 0 ((b'0' + k) ∷ s) ≡ verhoeff_loop 0 1 k s
unfolding verhoeff_loop
verhoeff_loop_first k s hk =
    let (p, d, _) = first_position k hk in
    rw (int_of_char-ascii k hk) (ap (λ c. verhoeff_loop 0 1 c s) (ap (d_at 0) p ∙ d))

-- What the loop over the payload leaves is what its check digit cancels.
check_digit_cancels :
    (payload : Text) (c : ℕ)
    → c < 10
    → verhoeff_loop 1 0 0 (reverse payload) ≡ ok c
    → verhoeff_checksum (payload ++ (b'0' + inv_at c) ∷ []) ≡ ok 0
unfolding verhoeff_checksum
check_digit_cancels payload c hc h =
    let (hk, cancel) = inv_at-lt c hc in
    let shifted = sym (verhoeff_loop_shift 0 0 (reverse payload)) ∙ h in
    let scaled = verhoeff_loop_scale 0 1 (inv_at c) 0 (reverse payload) hk (omega arith) shifted in
    rw (reverse-append payload ((b'0' + inv_at c) ∷ [])) (
      verhoeff_loop_first (inv_at c) (reverse payload) hk
      ∙ ap (λ a. verhoeff_loop 0 1 a (reverse payload)) (sym (first_position (inv_at c) hk).2)
      ∙ scaled
      ∙ ap ok cancel)

-- For every payload of decimal digits (of any script) the generated check digit is one ASCII
-- digit, and the payload followed by it validates.
pub verhoeff_is_valid-generate_check_digit :
    (payload : Text)
    → is_decimal payload ≡ true
    → (k : ℕ) × (k < 10)
      × (verhoeff_generate_check_digit payload ≡ ok ((b'0' + k) ∷ []))
      × (verhoeff_is_valid (payload ++ (b'0' + k) ∷ []) ≡ ok true)
unfolding verhoeff_generate_check_digit verhoeff_is_valid is_decimal
verhoeff_is_valid-generate_check_digit payload h =
    let digits : all is_decimal_char payload ≡ true = ground arith in
    let (c, run) =
      verhoeff_loop_total 1 0 0 (reverse payload) (all-reverse is_decimal_char payload ∙ digits) in
    let hc = verhoeff_loop-lt 1 0 0 (reverse payload) (omega arith) run in
    let hk = (inv_at-lt c hc).0 in
    let whole =
      is_digit-append payload ((b'0' + inv_at c) ∷ []) (is_digit-is_decimal payload h)
        (ground (arith, is_digit_char-ascii (inv_at c) hk)) in
    (
      inv_at c,
      hk,
      rw (is_digit-is_decimal payload h, run, str-digit (inv_at c) hk),
      rw (whole, check_digit_cancels payload c hc run),
    )

verhoeff_is_valid_total :
    (number : Text) → is_decimal number ≡ true → (b : Bool) × (verhoeff_is_valid number ≡ ok b)
unfolding verhoeff_is_valid verhoeff_checksum is_decimal
verhoeff_is_valid_total number h =
    let (r, run) =
      verhoeff_loop_total 0 0 0 (reverse number)
        (all-reverse is_decimal_char number ∙ ground arith) in
    (r == 0, rw (is_digit-is_decimal number h, run))

verhoeff_is_valid-not-decimal :
    (number : Text)
    → is_digit number ≡ true
    → is_decimal number ≡ false
    → verhoeff_is_valid number ≡ raise value_error
unfolding verhoeff_is_valid verhoeff_checksum is_decimal is_digit
verhoeff_is_valid-not-decimal number h n =
    let undecimal : all is_decimal_char (reverse number) ≡ false =
      all-reverse is_decimal_char number ∙ ground arith in
    rw (h, verhoeff_loop_raises 0 0 0 (reverse number) undecimal)

-- `verhoeff_is_valid` raises `ValueError` exactly for the texts that `str.isdigit` accepts and
-- that hold a character which `int` does not read, such as a superscript.
pub verhoeff_is_valid-eq-raise_iff :
    (number : Text)
    → (verhoeff_is_valid number ≡ raise value_error)
      ↔ ((is_digit number ≡ true) × (is_decimal number ≡ false))
unfolding verhoeff_is_valid
verhoeff_is_valid-eq-raise_iff number = (
  λ e. elim (Bool-cases (is_decimal number)) [
    | inl yes' ↦ absurd (ground (arith, (verhoeff_is_valid_total number yes').1, e))
    | inr no' ↦ (ground arith, no')
  ],
  λ (h, n). verhoeff_is_valid-not-decimal number h n,
)

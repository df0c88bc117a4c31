-- ===== src/Checksum/LuhnErrors.antt =====
-- Which transcription errors the Luhn check digit notices: every replaced digit, and every exchange
-- of neighbours but that of 0 and 9.
use local_first_llm_privacy.Common.{
  ℕ, suc, ◌+◌, ◌%◌, ◌<◌, ◌≡◌, ◌≢◌, refl, ap, ◌∙◌, sym, [], ◌∷◌, ◌++◌, reverse, reverse-middle,
  reverse-middle_two, Bool, true, false, ◌&&◌, ◌||◌, arith, ok, >>=-eq-ok, ok-injective, Bool-cases,
  inl, inr, ◌==◌, length, length-append, ltb,
}
use local_first_llm_privacy.Common.Chars.{
  Text, is_digit, int_of_char, int_of_char-lt, is_digit_char-of_int, is_digit-substitution,
  is_digit-transposition,
}
use local_first_llm_privacy.Checksum.{luhn_weight, luhn_loop, luhn_is_valid}

-- Two runs over the same text keep the difference of their totals.
luhn_loop_difference :
    (i t t' : ℕ) (s : Text) {r : ℕ}
    → luhn_loop 1 i t s ≡ ok r
    → (r' : ℕ) × (luhn_loop 1 i t' s ≡ ok r') × (r + t' ≡ r' + t)
unfolding luhn_loop
luhn_loop_difference i t t' [] {r} h = let e : t ≡ r = ok-injective h in (t', refl, omega arith)
luhn_loop_difference i t t' (ch ∷ s) h =
    let (d, e, h') = >>=-eq-ok (int_of_char ch) _ h in
    let w = luhn_weight 1 i d in
    let (r', run, diff) = luhn_loop_difference (suc i) (t + w) (t' + w) s h' in
    (r', rw e run, omega arith)

luhn_substitution_difference :
    (i t : ℕ) (s post : Text) (a b : ℕ) {x y r : ℕ}
    → int_of_char a ≡ ok x
    → int_of_char b ≡ ok y
    → luhn_loop 1 i t (s ++ a ∷ post) ≡ ok r
    → (r' j : ℕ) × (luhn_loop 1 i t (s ++ b ∷ post) ≡ ok r')
      × (r + luhn_weight 1 j y ≡ r' + luhn_weight 1 j x)
unfolding luhn_loop
luhn_substitution_difference i t [] post a b {x} {y} ha hb h =
    let (r', run, diff) =
      luhn_loop_difference (suc i) (t + luhn_weight 1 i x) (t + luhn_weight 1 i y) post
        (rw ha at h) in
    (r', i, rw hb run, omega arith)
luhn_substitution_difference i t (ch ∷ s) post a b ha hb h =
    let (d, e, h') = >>=-eq-ok (int_of_char ch) _ h in
    let (r', j, run, diff) =
      luhn_substitution_difference (suc i) (t + luhn_weight 1 i d) s post a b ha hb h' in
    (r', j, rw e run, diff)

luhn_transposition_difference :
    (i t : ℕ) (s post : Text) (a b : ℕ) {x y r : ℕ}
    → int_of_char a ≡ ok x
    → int_of_char b ≡ ok y
    → luhn_loop 1 i t (s ++ a ∷ b ∷ post) ≡ ok r
    → (r' j : ℕ) × (luhn_loop 1 i t (s ++ b ∷ a ∷ post) ≡ ok r')
      × (r + (luhn_weight 1 j y + luhn_weight 1 (suc j) x)
          ≡ r' + (luhn_weight 1 j x + luhn_weight 1 (suc j) y))
unfolding luhn_loop
luhn_transposition_difference i t [] post a b {x} {y} ha hb h =
    let (r', run, diff) =
      luhn_loop_difference (suc (suc i)) (t + luhn_weight 1 i x + luhn_weight 1 (suc i) y)
        (t + luhn_weight 1 i y + luhn_weight 1 (suc i) x) post (rw (ha, hb) at h) in
    (r', i, rw (hb, ha) run, omega arith)
luhn_transposition_difference i t (ch ∷ s) post a b ha hb h =
    let (d, e, h') = >>=-eq-ok (int_of_char ch) _ h in
    let (r', j, run, diff) =
      luhn_transposition_difference (suc i) (t + luhn_weight 1 i d) s post a b ha hb h' in
    (r', j, rw e run, diff)

-- The exchanges that leave the Luhn sum alone modulo 10.
abbrev pub is_blind_pair : ℕ → ℕ → Bool
is_blind_pair x y = x == y || (x == 0 && y == 9) || (x == 9 && y == 0)

weights_differ :
    (j x y r r' : ℕ)
    → x < 10
    → y < 10
    → r + luhn_weight 1 j y ≡ r' + luhn_weight 1 j x
    → r % 10 ≡ 0
    → r' % 10 ≡ 0
    → x ≡ y
unfolding luhn_weight
weights_differ j x y r r' hx hy e h h' = ground arith

exchange_differ :
    (j x y r r' : ℕ)
    → x < 10
    → y < 10
    → r + (luhn_weight 1 j y + luhn_weight 1 (suc j) x)
      ≡ r' + (luhn_weight 1 j x + luhn_weight 1 (suc j) y)
    → r % 10 ≡ 0
    → (r' % 10 == 0) ≡ is_blind_pair x y
unfolding luhn_weight
exchange_differ j x y r r' hx hy e h = ground arith

-- The verdict on a text of digits of the right length is read off its sum.
luhn_verdict :
    (number : Text) {t : ℕ}
    → is_digit number ≡ true
    → ltb (length number) 2 ≡ false
    → luhn_loop 1 0 0 (reverse number) ≡ ok t
    → luhn_is_valid number ≡ ok (t % 10 == 0)
unfolding luhn_is_valid
luhn_verdict number d long run = rw (d, long, run)

luhn_valid_inversion :
    (number : Text)
    → luhn_is_valid number ≡ ok true
    → (t : ℕ) × (is_digit number ≡ true)
      × (ltb (length number) 2 ≡ false)
      × (luhn_loop 1 0 0 (reverse number) ≡ ok t)
      × (t % 10 ≡ 0)
unfolding luhn_is_valid
luhn_valid_inversion number valid = elim (Bool-cases (is_digit number)) [
  | inr off ↦ absurd (ground arith)
  | inl digits ↦ elim (Bool-cases (ltb (length number) 2)) [
    | inl short ↦ absurd (ground arith)
    | inr long ↦
        let (t, run, done) =
          >>=-eq-ok (luhn_loop 1 0 0 (reverse number)) _ (rw (digits, long) at valid) in
        (t, digits, long, run, ground arith)
  ]
]

-- A valid number with one digit replaced by a digit of another value is rejected.
pub luhn_is_valid-substitution :
    (pre post : Text) (a b : ℕ) {x y : ℕ}
    → int_of_char a ≡ ok x
    → int_of_char b ≡ ok y
    → x ≢ y
    → luhn_is_valid (pre ++ a ∷ post) ≡ ok true
    → luhn_is_valid (pre ++ b ∷ post) ≡ ok false
luhn_is_valid-substitution pre post a b {x} {y} ha hb differ valid =
    let (t, digits, long, run, h) = luhn_valid_inversion (pre ++ a ∷ post) valid in
    let (t', j, run', e) =
      luhn_substitution_difference 0 0 (reverse post) (reverse pre) a b ha hb
        (rw (reverse-middle pre a post) at run) in
    let same =
      is_digit-substitution pre post a b (is_digit_char-of_int a ha) (is_digit_char-of_int b hb) in
    let long' : ltb (length (pre ++ b ∷ post)) 2 ≡ false =
      ground (arith, length-append pre (a ∷ post), length-append pre (b ∷ post)) in
    let odd : (t' % 10 == 0) ≡ false =
      ground
        (arith, weights_differ j x y t t' (int_of_char-lt a x ha) (int_of_char-lt b y hb) e h) in
    luhn_verdict (pre ++ b ∷ post) (sym same ∙ digits) long' (rw (reverse-middle pre b post) run')
    ∙ ap ok odd

-- A valid number with two neighbouring digits exchanged is accepted exactly if the digits have the
-- same value or are 0 and 9.
pub luhn_is_valid-transposition :
    (pre post : Text) (a b : ℕ) {x y : ℕ}
    → int_of_char a ≡ ok x
    → int_of_char b ≡ ok y
    → luhn_is_valid (pre ++ a ∷ b ∷ post) ≡ ok true
    → luhn_is_valid (pre ++ b ∷ a ∷ post) ≡ ok (is_blind_pair x y)
luhn_is_valid-transposition pre post a b {x} {y} ha hb valid =
    let (t, digits, long, run, h) = luhn_valid_inversion (pre ++ a ∷ b ∷ post) valid in
    let (t', j, run', e) =
      luhn_transposition_difference 0 0 (reverse post) (reverse pre) b a hb ha
        (rw (reverse-middle_two pre a b post) at run) in
    let same = is_digit-transposition pre post a b in
    let long' : ltb (length (pre ++ b ∷ a ∷ post)) 2 ≡ false =
      ground (arith, length-append pre (b ∷ a ∷ post)) in
    let verdict : (t' % 10 == 0) ≡ is_blind_pair x y =
      exchange_differ j y x t t' (int_of_char-lt b y hb) (int_of_char-lt a x ha) e h
      ∙ ground arith in
    luhn_verdict (pre ++ b ∷ a ∷ post) (sym same ∙ digits) long'
      (rw (reverse-middle_two pre b a post) run')
    ∙ ap ok verdict

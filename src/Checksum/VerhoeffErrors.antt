-- ===== src/Checksum/VerhoeffErrors.antt =====
-- The two kinds of transcription errors that the Verhoeff check digit is chosen for.
use local_first_llm_privacy.Common.{
  ℕ, suc, ◌+◌, ◌%◌, ◌<◌, ◌≡◌, ◌≢◌, refl, ap, ◌∙◌, sym, [], ◌∷◌, ◌++◌, reverse, reverse-middle,
  reverse-middle_two, true, false, arith, ok, >>=-eq-ok, ok-injective, Bool-cases, inl, inr, ◌==◌,
}
use local_first_llm_privacy.Common.Chars.{
  Text, is_digit, int_of_char, int_of_char-lt, is_digit_char-of_int, is_digit-substitution,
  is_digit-transposition,
}
use local_first_llm_privacy.Checksum.{
  d_at, p_at, verhoeff_loop, verhoeff_checksum, verhoeff_is_valid,
}
use local_first_llm_privacy.Checksum.Tables.{
  d_at-lt, p_at-lt, d_at_assoc, d_at_left_cancel, d_at_right_cancel, p_at_injective, swap_injective,
}

-- Two runs over the same text from different registers end in different registers.
verhoeff_loop_separates :
    (i c c' : ℕ) (t : Text) {r : ℕ}
    → c < 10
    → c' < 10
    → verhoeff_loop 0 i c t ≡ ok r
    → (r' : ℕ) × (verhoeff_loop 0 i c' t ≡ ok r') × (r ≡ r' → c ≡ c')
unfolding verhoeff_loop
verhoeff_loop_separates i c c' [] hc hc' h = (c', refl, λ e. ok-injective h ∙ e)
verhoeff_loop_separates i c c' (ch ∷ t) hc hc' h =
    let (d, e, h') = >>=-eq-ok (int_of_char ch) _ h in
    let p = p_at ((i + 0) % 8) d in
    let hp = p_at-lt (i + 0) d (int_of_char-lt ch d e) in
    let (r', run, sep) =
      verhoeff_loop_separates (suc i) (d_at c p) (d_at c' p) t (d_at-lt c p hc hp)
        (d_at-lt c' p hc' hp) h' in
    (r', rw e run, λ same. d_at_right_cancel c c' p hc hc' hp (sep same))

substitution_separates :
    (i c : ℕ) (s t : Text) (a b : ℕ) {x y r : ℕ}
    → c < 10
    → int_of_char a ≡ ok x
    → int_of_char b ≡ ok y
    → verhoeff_loop 0 i c (s ++ a ∷ t) ≡ ok r
    → (r' : ℕ) × (verhoeff_loop 0 i c (s ++ b ∷ t) ≡ ok r') × (r ≡ r' → x ≡ y)
unfolding verhoeff_loop
substitution_separates i c [] t a b {x} {y} hc ha hb h =
    let hx = int_of_char-lt a x ha in
    let hy = int_of_char-lt b y hb in
    let px = p_at-lt (i + 0) x hx in
    let py = p_at-lt (i + 0) y hy in
    let (r', run, sep) =
      verhoeff_loop_separates (suc i) (d_at c (p_at ((i + 0) % 8) x))
        (d_at c (p_at ((i + 0) % 8) y)) t (d_at-lt c _ hc px) (d_at-lt c _ hc py) (rw ha at h) in
    (
      r',
      rw hb run,
      λ same. p_at_injective (i + 0) x y hx hy (d_at_left_cancel c _ _ hc px py (sep same)),
    )
substitution_separates i c (ch ∷ s) t a b hc ha hb h =
    let (d, e, h') = >>=-eq-ok (int_of_char ch) _ h in
    let hp = p_at-lt (i + 0) d (int_of_char-lt ch d e) in
    let (r', run, sep) =
      substitution_separates (suc i) (d_at c (p_at ((i + 0) % 8) d)) s t a b (d_at-lt c _ hc hp) ha
        hb h' in
    (r', rw e run, sep)

transposition_separates :
    (i c : ℕ) (s t : Text) (a b : ℕ) {x y r : ℕ}
    → c < 10
    → int_of_char a ≡ ok x
    → int_of_char b ≡ ok y
    → verhoeff_loop 0 i c (s ++ a ∷ b ∷ t) ≡ ok r
    → (r' : ℕ) × (verhoeff_loop 0 i c (s ++ b ∷ a ∷ t) ≡ ok r') × (r ≡ r' → x ≡ y)
unfolding verhoeff_loop
transposition_separates i c [] t a b {x} {y} hc ha hb h =
    let hx = int_of_char-lt a x ha in
    let hy = int_of_char-lt b y hb in
    let px = p_at-lt (i + 0) x hx in
    let py = p_at-lt (i + 0) y hy in
    let qx = p_at-lt (suc i + 0) x hx in
    let qy = p_at-lt (suc i + 0) y hy in
    let (r', run, sep) =
      verhoeff_loop_separates (suc (suc i)) _ _ t
        (d_at-lt (d_at c (p_at ((i + 0) % 8) x)) (p_at ((suc i + 0) % 8) y) (d_at-lt c _ hc px) qy)
        (d_at-lt (d_at c (p_at ((i + 0) % 8) y)) (p_at ((suc i + 0) % 8) x) (d_at-lt c _ hc py) qx)
        (rw (ha, hb) at h) in
    (r', rw (hb, ha) run, λ same. swapped hx hy px py qx qy (sep same))
  where
    swapped :
        x < 10
        → y < 10
        → p_at ((i + 0) % 8) x < 10
        → p_at ((i + 0) % 8) y < 10
        → p_at ((suc i + 0) % 8) x < 10
        → p_at ((suc i + 0) % 8) y < 10
        → d_at (d_at c (p_at ((i + 0) % 8) x)) (p_at ((suc i + 0) % 8) y)
          ≡ d_at (d_at c (p_at ((i + 0) % 8) y)) (p_at ((suc i + 0) % 8) x)
        → x ≡ y
    swapped hx hy px py qx qy e =
        let k : suc i + 0 ≡ i + 0 + 1 = omega arith in
        swap_injective (i + 0) x y hx hy (
          rw (← k) (
            d_at_left_cancel c _ _ hc (d_at-lt _ _ px qy) (d_at-lt _ _ py qx)
              (sym (d_at_assoc c _ _ hc px qy) ∙ e ∙ d_at_assoc c _ _ hc py qx)))
transposition_separates i c (ch ∷ s) t a b hc ha hb h =
    let (d, e, h') = >>=-eq-ok (int_of_char ch) _ h in
    let hp = p_at-lt (i + 0) d (int_of_char-lt ch d e) in
    let (r', run, sep) =
      transposition_separates (suc i) (d_at c (p_at ((i + 0) % 8) d)) s t a b (d_at-lt c _ hc hp) ha
        hb h' in
    (r', rw e run, sep)

-- From runs that end in different registers to the verdicts.
verdicts_differ :
    (good bad : Text)
    → is_digit good ≡ is_digit bad
    → ((r : ℕ)
        → verhoeff_checksum good ≡ ok r
        → (r' : ℕ) × (verhoeff_checksum bad ≡ ok r') × (r ≢ r'))
    → verhoeff_is_valid good ≡ ok true
    → verhoeff_is_valid bad ≡ ok false
unfolding verhoeff_is_valid
verdicts_differ good bad same runs valid = elim (Bool-cases (is_digit good)) [
  | inr off ↦ absurd (ground arith)
  | inl digits ↦
      let (r, run, zero') = >>=-eq-ok (verhoeff_checksum good) _ (rw digits at valid) in
      let (r', run', differ) = runs r run in
      let nonzero : (r' == 0) ≡ false = ground arith in rw (sym same ∙ digits, run') (ap ok nonzero)
]

-- A valid number with one digit replaced by a digit of another value is rejected, at every position
-- and for digits of every script.
pub verhoeff_is_valid-substitution :
    (pre post : Text) (a b : ℕ) {x y : ℕ}
    → int_of_char a ≡ ok x
    → int_of_char b ≡ ok y
    → x ≢ y
    → verhoeff_is_valid (pre ++ a ∷ post) ≡ ok true
    → verhoeff_is_valid (pre ++ b ∷ post) ≡ ok false
unfolding verhoeff_checksum
verhoeff_is_valid-substitution pre post a b ha hb differ =
    verdicts_differ (pre ++ a ∷ post) (pre ++ b ∷ post)
      (is_digit-substitution pre post a b (is_digit_char-of_int a ha) (is_digit_char-of_int b hb))
      (λ r run.
        let (r', run', sep) =
          substitution_separates 0 0 (reverse post) (reverse pre) a b (omega arith) ha hb
            (rw (reverse-middle pre a post) at run) in
        (r', rw (reverse-middle pre b post) run', λ e. differ (sep e)))

-- A valid number with two neighbouring digits of different value exchanged is rejected.
pub verhoeff_is_valid-transposition :
    (pre post : Text) (a b : ℕ) {x y : ℕ}
    → int_of_char a ≡ ok x
    → int_of_char b ≡ ok y
    → x ≢ y
    → verhoeff_is_valid (pre ++ a ∷ b ∷ post) ≡ ok true
    → verhoeff_is_valid (pre ++ b ∷ a ∷ post) ≡ ok false
unfolding verhoeff_checksum
verhoeff_is_valid-transposition pre post a b ha hb differ =
    verdicts_differ (pre ++ a ∷ b ∷ post) (pre ++ b ∷ a ∷ post)
      (is_digit-transposition pre post a b)
      (λ r run.
        let (r', run', sep) =
          transposition_separates 0 0 (reverse post) (reverse pre) b a (omega arith) hb ha
            (rw (reverse-middle_two pre a b post) at run) in
        (r', rw (reverse-middle_two pre b a post) run', λ e. differ (sym (sep e))))

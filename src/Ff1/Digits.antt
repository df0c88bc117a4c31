-- ===== src/Ff1/Digits.antt =====
-- `num_radix` and `str_m_radix` are inverse between digit lists of one length and the numbers below
-- the power of the radix.
use native.Mathlib.Nat.{pow-zero, pow-suc, mul-le-mul_right, le_trans}
use local_first_llm_privacy.Common.{
  ℕ, zero, suc, ◌+◌, ◌*◌, ◌/◌, ◌%◌, ◌^◌, ◌≤◌, ◌<◌, ◌≡◌, refl, ap, ◌∙◌, sym, List, [], ◌∷◌, ◌++◌,
  arith, append_assoc, append-nil, take, drop, length, length-append, div-digit, mod-digit,
}
use local_first_llm_privacy.Ff1.{num_radix_loop, num_radix, str_m_radix_loop, str_m_radix}

-- Every digit is below the radix.
abbrev pub Below : ℕ → List ℕ → Type 0
Below radix [] = Unit
Below radix (d ∷ ds) = (d < radix) × Below radix ds

pub Below-append : (r : ℕ) (xs ys : List ℕ) → Below r xs → Below r ys → Below r (xs ++ ys)
Below-append r [] ys hx hy = hy
Below-append r (x ∷ xs) ys hx hy = (hx.0, Below-append r xs ys hx.1 hy)

-- What the digit `d` adds, with `p` the weight of the positions after it.
digit_bounds :
    (v r d p : ℕ)
    → d < r
    → (v * (p * r) ≤ (v * r + d) * p) × ((v * r + d + 1) * p ≤ (v + 1) * (p * r))
digit_bounds v r d p h =
    let k : (d + 1) * p ≤ r * p = mul-le-mul_right p h' in (omega arith, omega arith)
  where
    h' : d + 1 ≤ r
    h' = omega arith

pub Below-take : (r n : ℕ) (xs : List ℕ) → Below r xs → Below r (take n xs)
Below-take r zero xs h = tt
Below-take r (suc n) [] h = tt
Below-take r (suc n) (x ∷ xs) h = (h.0, Below-take r n xs h.1)

pub Below-drop : (r n : ℕ) (xs : List ℕ) → Below r xs → Below r (drop n xs)
Below-drop r zero xs h = h
Below-drop r (suc n) [] h = tt
Below-drop r (suc n) (x ∷ xs) h = Below-drop r n xs h.1

num_radix_loop_bounds :
    (v r : ℕ) (ds : List ℕ)
    → Below r ds
    → (v * r ^ length ds ≤ num_radix_loop v ds r)
      × (num_radix_loop v ds r < (v + 1) * r ^ length ds)
unfolding num_radix_loop
num_radix_loop_bounds v r [] h = rw pow-zero (omega arith, omega arith)
num_radix_loop_bounds v r (d ∷ ds) h =
    let (low, high) = num_radix_loop_bounds (v * r + d) r ds h.1 in
    let (lower, upper) = digit_bounds v r d (r ^ length ds) h.0 in
    rw pow-suc (le_trans lower low, le_trans high upper)

pub num_radix-lt : (r : ℕ) (ds : List ℕ) → Below r ds → num_radix ds r < r ^ length ds
unfolding num_radix
num_radix-lt r ds h = omega (arith, (num_radix_loop_bounds 0 r ds h).1)

str_m_radix_loop-num_radix_loop :
    (v r m : ℕ) (ds acc : List ℕ)
    → Below r ds
    → str_m_radix_loop (num_radix_loop v ds r) r (length ds + m) acc
      ≡ str_m_radix_loop v r m (ds ++ acc)
unfolding num_radix_loop str_m_radix_loop
str_m_radix_loop-num_radix_loop v r m [] acc h =
    let e : 0 + m ≡ m = omega arith in ap (λ k. str_m_radix_loop v r k acc) e
str_m_radix_loop-num_radix_loop v r m (d ∷ ds) acc h =
    let w = num_radix_loop (v * r + d) ds r in
    let shift : suc (length ds) + m ≡ length ds + suc m = omega arith in
    ap (λ k. str_m_radix_loop w r k acc) shift
    ∙ str_m_radix_loop-num_radix_loop (v * r + d) r (suc m) ds acc h.1
    ∙ rw (div-digit v d r h.0, mod-digit v d r h.0)

-- Writing a digit list's number in as many digits gives the list back.
pub str_m_radix-num_radix :
    (r : ℕ) (ds : List ℕ) → Below r ds → str_m_radix (num_radix ds r) r (length ds) ≡ ds
unfolding str_m_radix num_radix str_m_radix_loop
str_m_radix-num_radix r ds h =
    let e : length ds ≡ length ds + 0 = omega arith in
    ap (λ k. str_m_radix_loop (num_radix_loop 0 ds r) r k []) e
    ∙ str_m_radix_loop-num_radix_loop 0 r 0 ds [] h
    ∙ append-nil ds

num_radix_loop-append :
    (v r x : ℕ) (ds : List ℕ) → num_radix_loop v (ds ++ x ∷ []) r ≡ num_radix_loop v ds r * r + x
unfolding num_radix_loop
num_radix_loop-append v r x [] = refl
num_radix_loop-append v r x (d ∷ ds) = num_radix_loop-append (v * r + d) r x ds

-- The loop writes digits in front of what is there; the digits, after what is left, stand for the number.
str_m_radix_loop_digits :
    (w r k : ℕ) (acc : List ℕ)
    → 0 < r
    → (top : ℕ) × (ds : List ℕ) × (str_m_radix_loop w r k acc ≡ ds ++ acc)
      × (num_radix_loop top ds r ≡ w)
      × (length ds ≡ k)
      × Below r ds
unfolding str_m_radix_loop num_radix_loop
str_m_radix_loop_digits w r zero acc h = (w, [], refl, refl, refl, tt)
str_m_radix_loop_digits w r (suc k) acc h =
    let (top, ds, written, value, len, low) =
      str_m_radix_loop_digits (w / r) r k ((w % r) ∷ acc) h in
    let digit : w % r < r = grind arith in
    let whole : w / r * r + w % r ≡ w = grind arith in
    (
      top,
      ds ++ (w % r) ∷ [],
      written ∙ sym (append_assoc ds ((w % r) ∷ []) acc),
      rw (num_radix_loop-append top r (w % r) ds, value) whole,
      omega (arith, length-append ds ((w % r) ∷ []), len),
      Below-append r ds ((w % r) ∷ []) low (digit, tt),
    )

no_rest : (top w p : ℕ) → top * p ≤ w → w < p → top ≡ 0
no_rest zero w p low high = refl
no_rest (suc top) w p low high = absurd (grind arith)

-- `str_m_radix` writes exactly `m` digits, each below the radix, and for a number that fits they
-- stand for it.
pub str_m_radix_digits :
    (w r m : ℕ)
    → 0 < r
    → w < r ^ m
    → (num_radix (str_m_radix w r m) r ≡ w)
      × (length (str_m_radix w r m) ≡ m)
      × Below r (str_m_radix w r m)
unfolding num_radix str_m_radix
str_m_radix_digits w r m h fits =
    let (top, ds, written, value, len, low) = str_m_radix_loop_digits w r m [] h in
    let exact : str_m_radix_loop w r m [] ≡ ds = written ∙ append-nil ds in
    let none_left : top ≡ 0 =
      no_rest top w (r ^ m) (rw (len, value) at ((num_radix_loop_bounds top r ds low).0)) fits in
    rw exact (rw none_left at value, len, low)

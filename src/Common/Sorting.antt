-- ===== src/Common/Sorting.antt =====
-- `sorted(list, key=…)`: a stable sort by a Boolean order on the keys, as an insertion sort that keeps
-- an element before its equals.
use mathlib.Core.Path.{◌≡◌, refl, ap, ◌∙◌}
use mathlib.Core.Logic.{inl, inr}
use mathlib.Core.Bool.{Bool, true, false, ◌&&◌, ◌||◌}
use mathlib.Core.List.{List, [], ◌∷◌}
use native.Mathlib.Omega.{arith}
use local_first_llm_privacy.Common.Tests.{if◌then◌else◌, Bool-cases}
use local_first_llm_privacy.Common.Lists.{any, all}

module _ {ℓ} {A : Type ℓ} (le : A → A → Bool) where
  unfoldable pub insert : A → List A → List A
  insert x [] = x ∷ []
  insert x (y ∷ ys) = let rest = insert x ys in if le x y then x ∷ y ∷ ys else y ∷ rest

  unfoldable pub sort : List A → List A
  sort [] = []
  sort (x ∷ xs) = insert x (sort xs)

  -- Every element stands before those that it comes before in the order.
  unfoldable pub is_sorted : List A → Bool
  is_sorted [] = true
  is_sorted (x ∷ xs) = all (le x) xs && is_sorted xs

  pub any-insert : (p : A → Bool) (x : A) (xs : List A) → any p (insert x xs) ≡ (p x || any p xs)
  unfolding insert
  any-insert p x [] = refl
  any-insert p x (y ∷ ys) = elim (Bool-cases (le x y)) [
    | inl e ↦ rw e refl
    | inr e ↦ let rest = any-insert p x ys in rw e (ground (arith, rest))
  ]

  pub all-insert : (p : A → Bool) (x : A) (xs : List A) → all p (insert x xs) ≡ (p x && all p xs)
  unfolding insert
  all-insert p x [] = refl
  all-insert p x (y ∷ ys) = elim (Bool-cases (le x y)) [
    | inl e ↦ rw e refl
    | inr e ↦ let rest = all-insert p x ys in rw e (ground (arith, rest))
  ]

  pub any-sort : (p : A → Bool) (xs : List A) → any p (sort xs) ≡ any p xs
  unfolding sort
  any-sort p [] = refl
  any-sort p (x ∷ xs) = any-insert p x (sort xs) ∙ ap (λ b. p x || b) (any-sort p xs)

  pub all-sort : (p : A → Bool) (xs : List A) → all p (sort xs) ≡ all p xs
  unfolding sort
  all-sort p [] = refl
  all-sort p (x ∷ xs) = all-insert p x (sort xs) ∙ ap (λ b. p x && b) (all-sort p xs)

  pub all-implies :
      (p q : A → Bool) (xs : List A)
      → ((x : A) → p x ≡ true → q x ≡ true)
      → all p xs ≡ true
      → all q xs ≡ true
  all-implies p q [] step h = refl
  all-implies p q (x ∷ xs) step h = ground (arith, step x, all-implies p q xs step)

  module _ (total : (x y : A) → le x y ≡ false → le y x ≡ true)
      (trans : (x y z : A) → le x y ≡ true → le y z ≡ true → le x z ≡ true) where
    insert-is_sorted : (x : A) (xs : List A) → is_sorted xs ≡ true → is_sorted (insert x xs) ≡ true
    unfolding insert is_sorted
    insert-is_sorted x [] h = refl
    insert-is_sorted x (y ∷ ys) h =
        let front : all (le y) ys ≡ true = ground arith in
        let back : is_sorted ys ≡ true = ground arith in
        elim (Bool-cases (le x y)) [
          | inl e ↦
              let above = all-implies (le y) (le x) ys (λ z. trans x y z e) front in
              rw e (ground (arith, above))
          | inr e ↦
              let rest = insert-is_sorted x ys back in
              let flipped = total x y e in rw (e, all-insert (le y) x ys) (ground (arith, rest))
        ]

    pub sort-is_sorted : (xs : List A) → is_sorted (sort xs) ≡ true
    unfolding sort is_sorted
    sort-is_sorted [] = refl
    sort-is_sorted (x ∷ xs) = insert-is_sorted x (sort xs) (sort-is_sorted xs)

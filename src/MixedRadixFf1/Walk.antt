-- ===== src/MixedRadixFf1/Walk.antt =====
-- Cycle walking: the walk of a permutation that ends below the true size is undone by the walk of
-- the inverse permutation, in as many steps.
use local_first_llm_privacy.Common.{
  ℕ, zero, suc, ◌+◌, ◌-◌, ◌≤◌, ◌<◌, ◌≡◌, refl, ◌∙◌, List, Result, ok, raise, arith, ltb, lt→ltb,
  ltb→lt, Bool-cases, inl, inr, if◌then◌else◌, ◌⊎◌, surrogate_domain_error,
}
use local_first_llm_privacy.MixedRadixFf1.{walk_step, walk_loop}

one_more : (m : ℕ) → 1 + m ≡ suc m
one_more m = omega arith

later : (steps m : ℕ) → suc steps + m ≡ steps + suc m
later steps m = omega arith

-- The first steps of the walk from there, as many as the number says, all end at or above the true size.
unfoldable pub StaysOutside : (List ℕ → Result (List ℕ)) → ℕ → ℕ → ℕ → ℕ → Type 0
StaysOutside permute bits true_size zero x = Unit
StaysOutside permute bits true_size (suc left) x =
    (y : ℕ) × (walk_step permute bits x ≡ ok y)
    × (true_size ≤ y)
    × StaysOutside permute bits true_size left y

module _ (permute inverse : List ℕ → Result (List ℕ)) (bits true_size domain : ℕ) where
  -- On the covering domain every step ends, stays in the domain, and is undone by the inverse's step.
  abbrev pub IsInvertible : Type 0
  IsInvertible =
      (x : ℕ)
      → x < domain
      → (y : ℕ) × (walk_step permute bits x ≡ ok y)
        × (y < domain)
        × (walk_step inverse bits y ≡ ok x)

  -- The walk either uses up its attempts, all of which end outside, or ends at a value below the true size from which `steps`
  -- steps of the inverse lead back, and the walk of the inverse stops there if the start was below it.
  abbrev pub WalkResult : ℕ → ℕ → Type 0
  WalkResult left x =
      ((walk_loop left permute bits true_size x ≡ raise surrogate_domain_error)
        × StaysOutside permute bits true_size left x)
      ⊎ ((y : ℕ) × (steps : ℕ) × (walk_loop left permute bits true_size x ≡ ok y)
          × (y < true_size)
          × (steps ≤ left)
          × ((m : ℕ)
              → walk_loop (steps + m) inverse bits true_size y
                ≡ (if ltb x true_size then ok x else walk_loop m inverse bits true_size x)))

  walk_loop_back :
      (m x y : ℕ)
      → walk_step inverse bits y ≡ ok x
      → walk_loop (suc m) inverse bits true_size y
        ≡ (if ltb x true_size then ok x else walk_loop m inverse bits true_size x)
  unfolding walk_loop
  walk_loop_back m x y back = rw back

  pub walk_loop_inverse :
      (left x : ℕ) → IsInvertible → true_size ≤ domain → x < domain → WalkResult left x
  unfolding walk_loop StaysOutside
  walk_loop_inverse zero x inv fits h = inl (refl, tt)
  walk_loop_inverse (suc left) x inv fits h =
      let (y, step, inside, back) = inv x h in
      elim (Bool-cases (ltb y true_size)) [
        | inl low ↦ inr (
          y,
          1,
          rw (step, low),
          ltb→lt y true_size low,
          omega arith,
          λ m. rw (one_more m) (walk_loop_back m x y back),
        )
        | inr high ↦ elim (walk_loop_inverse left y inv fits inside) [
          | inl (out, outside) ↦ inl (rw (step, high) out, (y, step, ground (arith, high), outside))
          | inr (z, steps, run, below, bound, undo) ↦ inr (
            z,
            suc steps,
            rw (step, high) run,
            below,
            omega arith,
            λ m. rw (later steps m) (undo (suc m) ∙ rw high (walk_loop_back m x y back)),
          )
        ]
      ]

  -- The walk back from the end stops at the start, if that was below the true size.
  pub walk_loop_returns :
      (left steps x y : ℕ)
      → steps ≤ left
      → x < true_size
      → ((m : ℕ)
          → walk_loop (steps + m) inverse bits true_size y
            ≡ (if ltb x true_size then ok x else walk_loop m inverse bits true_size x))
      → walk_loop left inverse bits true_size y ≡ ok x
  walk_loop_returns left steps x y bound low undo =
      let e : left ≡ steps + (left - steps) = omega arith in
      rw e (undo (left - steps) ∙ rw (lt→ltb x true_size low))

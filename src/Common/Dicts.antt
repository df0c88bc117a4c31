-- ===== src/Common/Dicts.antt =====
-- Texts as keys, and Python's dict as an association list in insertion order: `get`, `d[k] = v`,
-- `pop` of a key and `k in d`.
use Prim.Native.Nat.{ℕ}
use mathlib.Core.Path.{◌≡◌, refl, ap, ap₂, subst}
use mathlib.Core.Logic.{◌⊎◌, inl, inr}
use mathlib.Core.Bool.{Bool, true, false, ◌&&◌}
use mathlib.Core.List.{List, [], ◌∷◌}
use mathlib.Core.Option.{Option, none, some}
use native.Mathlib.Omega.{arith}
use local_first_llm_privacy.Common.Tests.{◌==◌, if◌then◌else◌, Bool-cases}

-- A string is the list of its code points.
abbrev pub Key : Type 0
Key = List ℕ

unfoldable pub text_eq : Key → Key → Bool
text_eq [] [] = true
text_eq [] (c ∷ t) = false
text_eq (c ∷ s) [] = false
text_eq (c ∷ s) (c' ∷ t) = (c == c') && text_eq s t

pub text_eq_refl : (s : Key) → text_eq s s ≡ true
unfolding text_eq
text_eq_refl [] = refl
text_eq_refl (c ∷ s) = ground (arith, text_eq_refl s)

pub text_eq_sound : (s t : Key) → text_eq s t ≡ true → s ≡ t
unfolding text_eq
text_eq_sound [] [] h = refl
text_eq_sound [] (c ∷ t) h = cc
text_eq_sound (c ∷ s) [] h = cc
text_eq_sound (c ∷ s) (c' ∷ t) h =
    let e : c ≡ c' = ground arith in
    let r : text_eq s t ≡ true = ground arith in ap₂ (◌∷◌) e (text_eq_sound s t r)

-- Two keys are equal or the test tells them apart.
pub text_eq-cases : (s t : Key) → (s ≡ t) ⊎ (text_eq s t ≡ false)
text_eq-cases s t = elim (Bool-cases (text_eq s t)) [
  | inl h ↦ inl (text_eq_sound s t h)
  | inr h ↦ inr h
]

module _ {ℓ} {V : Type ℓ} where
  unfoldable pub get : Key → List (Key × V) → Option V
  get k [] = none
  get k ((k', v) ∷ d) = if text_eq k k' then some v else get k d

  unfoldable pub put : Key → V → List (Key × V) → List (Key × V)
  put k v [] = (k, v) ∷ []
  put k v ((k', v') ∷ d) =
      let rest = put k v d in if text_eq k k' then (k', v) ∷ d else (k', v') ∷ rest

  unfoldable pub remove : Key → List (Key × V) → List (Key × V)
  remove k [] = []
  remove k ((k', v') ∷ d) = let rest = remove k d in if text_eq k k' then d else (k', v') ∷ rest

  abbrev pub is_some : Option V → Bool
  is_some none = false
  is_some (some v) = true

  unfoldable pub has : Key → List (Key × V) → Bool
  has k d = is_some (get k d)

  pub get-put : (k : Key) (v : V) (d : List (Key × V)) → get k (put k v d) ≡ some v
  unfolding get put
  get-put k v [] = rw (text_eq_refl k) refl
  get-put k v ((k', v') ∷ d) = elim (Bool-cases (text_eq k k')) [
    | inl e ↦ rw (e, get, e) refl
    | inr e ↦ rw (e, get, e) (get-put k v d)
  ]

  pub get-put_other :
      (k k₂ : Key) (v : V) (d : List (Key × V))
      → text_eq k k₂ ≡ false
      → get k (put k₂ v d) ≡ get k d
  unfolding get put
  get-put_other k k₂ v [] ne = rw ne refl
  get-put_other k k₂ v ((k', v') ∷ d) ne = elim (Bool-cases (text_eq k₂ k')) [
    | inl e ↦
        let same : k₂ ≡ k' = text_eq_sound k₂ k' e in
        let ne' : text_eq k k' ≡ false = subst (λ x. text_eq k x ≡ false) same ne in
        rw (e, get, ne') refl
    | inr e ↦
        rw (e, get) (ap (λ r. if text_eq k k' then some v' else r) (get-put_other k k₂ v d ne))
  ]

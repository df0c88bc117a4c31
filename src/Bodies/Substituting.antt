-- ===== src/Bodies/Substituting.antt =====
-- The dict of substitutions that the loops over a body's regions fill (src/pipeline/sanitize.py,
-- src/pipeline/rehydrate.py).
use local_first_llm_privacy.Common.{
  Bool, true, false, ◌&&◌, not, List, [], ◌∷◌, all, Option, none, some, is_some, Bool-cases, inl,
  inr, ◌≡◌, refl, sym, ap, ◌∙◌, arith,
}
use local_first_llm_privacy.Common.Chars.{Text}
use local_first_llm_privacy.FieldWalker.{
  FieldPath, path_eq, TextRegion, Substitutions, substitution, ends_in_arguments,
}
use local_first_llm_privacy.FieldWalker.Paths.{segment_eq_refl, path_eq_sound, replace}
use local_first_llm_privacy.Bodies.{put_substitution}

path_eq_refl : (p : FieldPath) → path_eq p p ≡ true
unfolding path_eq
path_eq_refl [] = refl
path_eq_refl (s ∷ p) = ground (arith, segment_eq_refl s, path_eq_refl p)

path_eq_sym : (p q : FieldPath) → path_eq p q ≡ false → path_eq q p ≡ false
path_eq_sym p q h = elim (Bool-cases (path_eq q p)) [
  | inr e ↦ e
  | inl e ↦
      let bad : path_eq p q ≡ true =
        ap (λ x. path_eq x q) (sym (path_eq_sound q p e)) ∙ path_eq_refl q in
      absurd (ground (arith, bad, h))
]

-- No region lies at the path.
abbrev pub misses : FieldPath → List TextRegion → Bool
misses p regions = all (λ r. not (path_eq p r.path)) regions

-- Every position of a tree has one path.
unfoldable pub is_distinct : List TextRegion → Bool
is_distinct [] = true
is_distinct (r ∷ regions) = misses r.path regions && is_distinct regions

abbrev pub untouched_by : Substitutions → List TextRegion → Bool
untouched_by subs regions = all (λ r. not (is_some (substitution r.path subs))) regions

abbrev pub spares_arguments : List TextRegion → Bool
spares_arguments regions = all (λ r. not (ends_in_arguments r.path)) regions

pub substitution-put :
    (p : FieldPath) (t : Text) (subs : Substitutions)
    → substitution p (put_substitution p t subs) ≡ some t
unfolding substitution put_substitution
substitution-put p t [] = rw (substitution, path_eq_refl p) refl
substitution-put p t (entry ∷ subs) = elim (Bool-cases (path_eq p entry.0)) [
  | inl e ↦ rw (put_substitution, e, substitution, e) refl
  | inr e ↦ rw (put_substitution, e, substitution, e) (substitution-put p t subs)
]

pub substitution-put_other :
    (q p : FieldPath) (t : Text) (subs : Substitutions)
    → path_eq q p ≡ false
    → substitution q (put_substitution p t subs) ≡ substitution q subs
unfolding substitution put_substitution
substitution-put_other q p t [] h = rw (substitution, h) refl
substitution-put_other q p t (entry ∷ subs) h = elim (Bool-cases (path_eq p entry.0)) [
  | inl e ↦
      let other : path_eq q entry.0 ≡ false =
        ap (path_eq q) (sym (path_eq_sound p entry.0 e)) ∙ h in
      rw (put_substitution, e, substitution, other) refl
  | inr e ↦ elim (Bool-cases (path_eq q entry.0)) [
    | inl e' ↦ rw (put_substitution, e, substitution, e') refl
    | inr e' ↦ rw (put_substitution, e, substitution, e') (substitution-put_other q p t subs h)
  ]
]

pub put-untouched :
    (p : FieldPath) (t : Text) (subs : Substitutions) (regions : List TextRegion)
    → misses p regions ≡ true
    → untouched_by subs regions ≡ true
    → untouched_by (put_substitution p t subs) regions ≡ true
put-untouched p t subs [] m h = refl
put-untouched p t subs (r ∷ regions) m h =
    let other = substitution-put_other r.path p t subs (path_eq_sym p r.path (ground (arith, m))) in
    let here : is_some (substitution r.path subs) ≡ false = ground (arith, h) in
    let kept : is_some (substitution r.path (put_substitution p t subs)) ≡ false =
      ap is_some other ∙ here in
    ground (arith, kept, put-untouched p t subs regions (ground (arith, m)) (ground (arith, h)))

-- What a loop over regions keeps of the dict.
abbrev pub KeepsOthers : List TextRegion → Substitutions → Substitutions → Type 0
KeepsOthers regions subs subs' =
    (q : FieldPath) → misses q regions ≡ true → substitution q subs' ≡ substitution q subs

pub replace-none :
    (subs : Substitutions) (r : TextRegion) → substitution r.path subs ≡ none → replace subs r ≡ r
unfolding replace
replace-none subs r h = rw (replace, h) refl

pub replace-some :
    (subs : Substitutions) (r : TextRegion) (t : Text)
    → substitution r.path subs ≡ some t
    → replace subs r ≡ record { path = r.path; text = t }
unfolding replace
replace-some subs r t h = rw (replace, h) refl

pub not_some {ℓ} : {A : Type ℓ} (o : Option A) → is_some o ≡ false → o ≡ none
not_some none h = refl
not_some (some a) h = absurd (ground (arith, h))

found_spares :
    (q : FieldPath) (regions : List TextRegion)
    → misses q regions ≡ false
    → spares_arguments regions ≡ true
    → ends_in_arguments q ≡ false
found_spares q [] found spares = absurd (ground (arith, found))
found_spares q (r ∷ regions) found spares = elim (Bool-cases (path_eq q r.path)) [
  | inl e ↦ ap ends_in_arguments (path_eq_sound q r.path e) ∙ ground (arith, spares)
  | inr e ↦ found_spares q regions (ground (arith, found, e)) (ground (arith, spares))
]

-- A dict that a loop filled from nothing has the paths of regions alone.
pub kept-spares :
    (regions : List TextRegion) (subs : Substitutions) (q : FieldPath) (t : Text)
    → KeepsOthers regions [] subs
    → spares_arguments regions ≡ true
    → substitution q subs ≡ some t
    → ends_in_arguments q ≡ false
unfolding substitution
kept-spares regions subs q t keeps spares h = elim (Bool-cases (misses q regions)) [
  | inr e ↦ found_spares q regions e spares
  | inl e ↦ let bad : none ≡ some t = sym (keeps q e) ∙ h in cc
]

pub nothing_yet : (regions : List TextRegion) → untouched_by [] regions ≡ true
unfolding substitution
nothing_yet [] = refl
nothing_yet (r ∷ regions) = nothing_yet regions

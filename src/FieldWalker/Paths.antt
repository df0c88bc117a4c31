-- ===== src/FieldWalker/Paths.antt =====
-- Where the regions of a walk lie (src/pipeline/field_walker.py).
use local_first_llm_privacy.Common.{
  ℕ, zero, suc, true, false, List, [], ◌∷◌, ◌++◌, map, none, some, is_some, Result, ok, >>=-eq-ok,
  ok-injective, raise, caught-cases, decoded-cases, Bool-cases, inl, inr, ◌≡◌, refl, sym, ap, ap₂,
  ◌∙◌, subst, arith, if◌then◌else◌, text_eq_refl, text_eq_sound, append_assoc, append-nil,
}
use local_first_llm_privacy.Common.Chars.{Text}
use local_first_llm_privacy.Json.{
  Json, null_value, bool_value, number_value, string_value, array_value, object_value, JsonList,
  no_item, item, JsonObject, no_field, field,
}
use local_first_llm_privacy.FieldWalker.{
  Segment, key, index, segment_eq, path_eq, FieldPath, TextRegion, Substitutions, substitution,
  is_beneath, has_substitution_beneath, as_container, ends_in_arguments, try_parse_json_container,
  unwrapped, walk_text, walk_value, walk_object, walk_list, walk_nested,
}

pub segment_eq_refl : (s : Segment) → segment_eq s s ≡ true
unfolding segment_eq
segment_eq_refl (key k) = text_eq_refl k
segment_eq_refl (index i) = ground arith

segment_eq_sound : (s t : Segment) → segment_eq s t ≡ true → s ≡ t
unfolding segment_eq
segment_eq_sound (key k) (key k') h = ap key (text_eq_sound k k' h)
segment_eq_sound (index i) (index j) h = let e : i ≡ j = ground arith in ap index e
segment_eq_sound (key k) (index j) h = cc
segment_eq_sound (index i) (key k) h = cc

pub path_eq_sound : (p q : FieldPath) → path_eq p q ≡ true → p ≡ q
unfolding path_eq
path_eq_sound [] [] h = refl
path_eq_sound [] (s ∷ q) h = cc
path_eq_sound (s ∷ p) [] h = cc
path_eq_sound (s ∷ p) (t ∷ q) h =
    let e : segment_eq s t ≡ true = ground arith in
    let r : path_eq p q ≡ true = ground arith in
    ap₂ (◌∷◌) (segment_eq_sound s t e) (path_eq_sound p q r)

is_beneath-append :
    (p : FieldPath) (s : Segment) (q : FieldPath) → is_beneath p (p ++ (s ∷ q)) ≡ true
unfolding is_beneath path_eq
is_beneath-append [] s q = ground arith
is_beneath-append (x ∷ p) s q = ground (arith, segment_eq_refl x, is_beneath-append p s q)

no_substitution :
    (p q : FieldPath) (subs : Substitutions)
    → is_beneath p q ≡ true
    → has_substitution_beneath p subs ≡ false
    → substitution q subs ≡ none
unfolding substitution has_substitution_beneath
no_substitution p q [] below h = refl
no_substitution p q (entry ∷ subs) below h = elim (Bool-cases (path_eq q entry.0)) [
  | inl e ↦
      let b : is_beneath p entry.0 ≡ true =
        ap (is_beneath p) (sym (path_eq_sound q entry.0 e)) ∙ below in
      absurd (ground (arith, b, h))
  | inr e ↦ rw (substitution, e) (no_substitution p q subs below (ground (arith, h)))
]

-- The region lies at the path or below it; and strictly below it.
unfoldable pub AllFrom : FieldPath → List TextRegion → Type 0
AllFrom p [] = Unit {0}
AllFrom p (r ∷ regions) = ((q : FieldPath) × (r.path ≡ p ++ q)) × AllFrom p regions

unfoldable pub AllBelow : FieldPath → List TextRegion → Type 0
AllBelow p [] = Unit {0}
AllBelow p (r ∷ regions) =
    ((s : Segment) × (q : FieldPath) × (r.path ≡ p ++ (s ∷ q))) × AllBelow p regions

AllBelow-From : (p : FieldPath) (regions : List TextRegion) → AllBelow p regions → AllFrom p regions
unfolding AllBelow AllFrom
AllBelow-From p [] h = tt
AllBelow-From p (r ∷ regions) ((s, q, e), h) = ((s ∷ q, e), AllBelow-From p regions h)

AllFrom-Below :
    (p : FieldPath) (s : Segment) (regions : List TextRegion)
    → AllFrom (p ++ (s ∷ [])) regions
    → AllBelow p regions
unfolding AllBelow AllFrom
AllFrom-Below p s [] h = tt
AllFrom-Below p s (r ∷ regions) ((q, e), h) =
    ((s, q, e ∙ append_assoc p (s ∷ []) q), AllFrom-Below p s regions h)

AllBelow-append :
    (p : FieldPath) (a b : List TextRegion) → AllBelow p a → AllBelow p b → AllBelow p (a ++ b)
unfolding AllBelow
AllBelow-append p [] b h h' = h'
AllBelow-append p (r ∷ a) b (h, hs) h' = (h, AllBelow-append p a b hs h')

abbrev pub IsContainer : Json → Type 0
IsContainer value = as_container value ≡ some value

pub as_container-IsContainer :
    (value parsed : Json) → as_container value ≡ some parsed → (value ≡ parsed) × IsContainer parsed
unfolding as_container
as_container-IsContainer (array_value items) parsed h =
    let e : array_value items ≡ parsed = cc in (e, subst (λ v. IsContainer v) e refl)
as_container-IsContainer (object_value fields) parsed h =
    let e : object_value fields ≡ parsed = cc in (e, subst (λ v. IsContainer v) e refl)
as_container-IsContainer (string_value t) parsed h = cc
as_container-IsContainer null_value parsed h = cc
as_container-IsContainer (bool_value b) parsed h = cc
as_container-IsContainer (number_value t) parsed h = cc

module _ (loads : Text → Result Json) where
  -- A text is decoded under "arguments" alone, and to a container.
  pub unwrapped-some :
      (path : FieldPath) (text : Text) (parsed : Json)
      → unwrapped loads path text ≡ ok (some parsed)
      → (ends_in_arguments path ≡ true) × (loads text ≡ ok parsed) × IsContainer parsed
  unfolding unwrapped try_parse_json_container
  unwrapped-some path text parsed h = elim (Bool-cases (ends_in_arguments path)) [
    | inr e ↦ let bad : ok none ≡ ok (some parsed) = rw (unwrapped, e) at h in cc
    | inl e ↦ elim (caught-cases (loads text)) [
      | inl (value, l, d) ↦
          let c : ok (as_container value) ≡ ok (some parsed) =
            rw (unwrapped, try_parse_json_container, e, d) at h in
          let (same, holds) = as_container-IsContainer value parsed (ok-injective c) in
          (e, l ∙ ap ok same, holds)
      | inr (inl d) ↦
          let bad : ok none ≡ ok (some parsed) =
            rw (unwrapped, try_parse_json_container, e, d) at h in
          cc
      | inr (inr (x, l, o, d)) ↦
          let bad : raise x ≡ ok (some parsed) =
            rw (unwrapped, try_parse_json_container, e, d) at h in
          cc
    ]
  ]

  abbrev pub StaysInside : (Json → FieldPath → Result (List TextRegion)) → Type 0
  StaysInside nested =
      (value : Json) (p : FieldPath) (regions : List TextRegion)
      → nested value p ≡ ok regions
      → AllFrom p regions × (IsContainer value → AllBelow p regions)

  module _ (nested : Json → FieldPath → Result (List TextRegion))
      (inside : StaysInside nested) where
    walk_text-inside :
        (text : Text) (p : FieldPath) (regions : List TextRegion)
        → walk_text loads nested text p ≡ ok regions
        → AllFrom p regions
    unfolding walk_text AllFrom
    walk_text-inside text p regions h = elim (decoded-cases (unwrapped loads p text)) [
      | inl e ↦
          let out : ok (record { path = p; text = text } ∷ []) ≡ ok regions =
            rw (walk_text, e) at h in
          subst (AllFrom p) (ok-injective out) (([], sym (append-nil p)), tt)
      | inr (inr (x, e)) ↦ let bad : raise x ≡ ok regions = rw (walk_text, e) at h in cc
      | inr (inl (parsed, e)) ↦
          let out : nested parsed p ≡ ok regions = rw (walk_text, e) at h in
          (inside parsed p regions out).0
    ]

    mutual
      unfolding walk_value AllFrom AllBelow as_container

      walk_value-inside : StaysInside (walk_value loads nested)
      walk_value-inside (object_value fields) p regions h =
          let below = walk_object-inside fields p regions h in
          (AllBelow-From p regions below, λ c. below)
      walk_value-inside (array_value items) p regions h =
          let below = walk_list-inside items 0 p regions h in
          (AllBelow-From p regions below, λ c. below)
      walk_value-inside (string_value text) p regions h =
          (walk_text-inside text p regions h, λ c. cc)
      walk_value-inside null_value p regions h = (subst (AllFrom p) (ok-injective h) tt, λ c. cc)
      walk_value-inside (bool_value b) p regions h =
          (subst (AllFrom p) (ok-injective h) tt, λ c. cc)
      walk_value-inside (number_value t) p regions h =
          (subst (AllFrom p) (ok-injective h) tt, λ c. cc)

      walk_object-inside :
          (fields : JsonObject) (p : FieldPath) (regions : List TextRegion)
          → walk_object loads nested fields p ≡ ok regions
          → AllBelow p regions
      walk_object-inside no_field p regions h = subst (AllBelow p) (ok-injective h) tt
      walk_object-inside (field k child fields) p regions h =
          let (a, run, h') = >>=-eq-ok (walk_value loads nested child (p ++ (key k ∷ []))) _ h in
          let (b, run', out) = >>=-eq-ok (walk_object loads nested fields p) _ h' in
          subst (AllBelow p) (ok-injective out) (
            AllBelow-append p a b
              (AllFrom-Below p (key k) a (walk_value-inside child (p ++ (key k ∷ [])) a run).0)
              (walk_object-inside fields p b run'))

      walk_list-inside :
          (items : JsonList) (i : ℕ) (p : FieldPath) (regions : List TextRegion)
          → walk_list loads nested items i p ≡ ok regions
          → AllBelow p regions
      walk_list-inside no_item i p regions h = subst (AllBelow p) (ok-injective h) tt
      walk_list-inside (item child items) i p regions h =
          let (a, run, h') = >>=-eq-ok (walk_value loads nested child (p ++ (index i ∷ []))) _ h in
          let (b, run', out) = >>=-eq-ok (walk_list loads nested items (suc i) p) _ h' in
          subst (AllBelow p) (ok-injective out) (
            AllBelow-append p a b
              (AllFrom-Below p (index i) a (walk_value-inside child (p ++ (index i ∷ [])) a run).0)
              (walk_list-inside items (suc i) p b run'))

  pub walk_nested-inside : (limit : ℕ) → StaysInside (walk_nested loads limit)
  unfolding walk_nested
  walk_nested-inside zero value p regions h = cc
  walk_nested-inside (suc limit) value p regions h =
      walk_value-inside (walk_nested loads limit) (walk_nested-inside limit) value p regions h

-- The region with its new text, if it has one; and the paths that have one.
unfoldable pub replace : Substitutions → TextRegion → TextRegion
replace subs region = elim (substitution region.path subs) [
  | none ↦ region
  | some text ↦ record { path = region.path; text = text }
]

unfoldable pub hits : Substitutions → List TextRegion → List FieldPath
hits subs [] = []
hits subs (region ∷ regions) =
    let rest = hits subs regions in
    if is_some (substitution region.path subs) then region.path ∷ rest else rest

pub hits-append :
    (subs : Substitutions) (a b : List TextRegion) → hits subs (a ++ b) ≡ hits subs a ++ hits subs b
unfolding hits
hits-append subs [] b = refl
hits-append subs (r ∷ a) b = elim (Bool-cases (is_some (substitution r.path subs))) [
  | inl e ↦ rw (hits, e) (ap (◌∷◌ r.path) (hits-append subs a b))
  | inr e ↦ rw (hits, e) (hits-append subs a b)
]

-- Without a substitution below the path nothing below it changes.
pub untouched :
    (subs : Substitutions) (p : FieldPath) (regions : List TextRegion)
    → has_substitution_beneath p subs ≡ false
    → AllBelow p regions
    → (map (replace subs) regions ≡ regions) × (hits subs regions ≡ [])
unfolding AllBelow replace hits
untouched subs p [] h below = (refl, refl)
untouched subs p (r ∷ regions) h ((s, q, e), below) =
    let gone : substitution r.path subs ≡ none =
      no_substitution p r.path subs (ap (is_beneath p) e ∙ is_beneath-append p s q) h in
    let (same, none_hit) = untouched subs p regions h below in
    (ap₂ (◌∷◌) (rw (replace, gone) refl) same, rw (hits, gone) none_hit)

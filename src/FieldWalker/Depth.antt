-- ===== src/FieldWalker/Depth.antt =====
-- How deep encoded arguments can lie in one another (src/pipeline/field_walker.py): each decoding reaches
-- shorter strings, so that the length of the longest one bounds the depth.
use local_first_llm_privacy.Common.{
  ℕ, suc, ◌≤◌, max, List, [], ◌∷◌, ◌++◌, length, Option, none, some, Result, ok, Bool-cases,
  Option-cases, inl, inr, ◌⊎◌, ◌≡◌, refl, sym, ap, ◌∙◌, subst, arith, false, raise, Error, ◌>>=◌,
  is_decode_error, caught-cases, decoded-cases,
}
use local_first_llm_privacy.Common.Chars.{Text}
use local_first_llm_privacy.Json.{
  Json, null_value, bool_value, number_value, string_value, array_value, object_value, JsonList,
  no_item, item, JsonObject, no_field, field,
}
use local_first_llm_privacy.FieldWalker.Paths.{unwrapped-some}
use local_first_llm_privacy.FieldWalker.{
  key, index, FieldPath, TextRegion, Substitutions, substitution, has_substitution_beneath,
  as_container, ends_in_arguments, try_parse_json_container, unwrapped, walk_text, walk_value,
  walk_object, walk_list, rebuild_text, rebuild_value, rebuild_object, rebuild_list,
}

-- The length of the longest string that is a value.
unfoldable mutual
  pub longest : Json → ℕ
  longest (string_value value) = length value
  longest (array_value items) = longest_item items
  longest (object_value fields) = longest_field fields
  longest null_value = 0
  longest (bool_value b) = 0
  longest (number_value n) = 0

  pub longest_item : JsonList → ℕ
  longest_item no_item = 0
  longest_item (item value items) = max (longest value) (longest_item items)

  pub longest_field : JsonObject → ℕ
  longest_field no_field = 0
  longest_field (field k value fields) = max (longest value) (longest_field fields)

-- A text spends two quotation marks on every string in it, and a character or more on each character.
abbrev pub IsShrinking : (Text → Result Json) → Type 0
IsShrinking loads =
    (text : Text) (value : Json) → loads text ≡ ok value → suc (longest value) ≤ length text

-- The error was raised by `json.loads` on some text, and it is no `JSONDecodeError`.
abbrev pub Escapes : (Text → Result Json) → Error → Type 0
Escapes loads e = (text : Text) × (loads text ≡ raise e) × (is_decode_error e ≡ false)

-- A call that returns, or passes on such an error.
abbrev pub Completes {ℓ} : {A : Type ℓ} → (Text → Result Json) → Result A → Type ℓ
Completes {A = A} loads r = ((a : A) × (r ≡ ok a)) ⊎ ((e : Error) × (r ≡ raise e) × Escapes loads e)

Completes-bind :
    {A : Type 0} {B : Type 0} (loads : Text → Result Json) (r : Result A) (k : A → Result B)
    → Completes loads r
    → ((a : A) → Completes loads (k a))
    → Completes loads (r >>= k)
Completes-bind loads r k (inl (a, e)) next = subst (λ x. Completes loads (x >>= k)) (sym e) (next a)
Completes-bind loads r k (inr (x, e, why)) next = inr (x, rw e refl, why)

as_container-longest :
    (value parsed : Json) → as_container value ≡ some parsed → longest parsed ≡ longest value
unfolding as_container longest
as_container-longest (array_value items) parsed h = cc
as_container-longest (object_value fields) parsed h = cc
as_container-longest (string_value t) parsed h = cc
as_container-longest null_value parsed h = cc
as_container-longest (bool_value b) parsed h = cc
as_container-longest (number_value t) parsed h = cc

module _ (loads : Text → Result Json) (shrinking : IsShrinking loads) where
  unwrapped-shorter :
      (path : FieldPath) (text : Text) (parsed : Json)
      → unwrapped loads path text ≡ ok (some parsed)
      → suc (longest parsed) ≤ length text
  unwrapped-shorter path text parsed h =
      let (last, loaded, container) = unwrapped-some loads path text parsed h in
      shrinking text parsed loaded

  unwrapped-Escapes :
      (path : FieldPath) (text : Text) (x : Error)
      → unwrapped loads path text ≡ raise x
      → Escapes loads x
  unfolding unwrapped try_parse_json_container
  unwrapped-Escapes path text x h = elim (Bool-cases (ends_in_arguments path)) [
    | inr e ↦ let bad : ok none ≡ raise x = rw (unwrapped, e) at h in cc
    | inl e ↦ elim (caught-cases (loads text)) [
      | inl (value, l, d) ↦
          let bad : ok (as_container value) ≡ raise x =
            rw (unwrapped, try_parse_json_container, e, d) at h in
          cc
      | inr (inl d) ↦
          let bad : ok none ≡ raise x = rw (unwrapped, try_parse_json_container, e, d) at h in cc
      | inr (inr (y, l, other, d)) ↦
          let same : ◌≡◌ {A = Result (Option Json)} (raise y) (raise x) =
            rw (unwrapped, try_parse_json_container, e, d) at h in
          let eq : y ≡ x = cc in
          (text, l ∙ ap (λ z. raise z) eq, ap is_decode_error (sym eq) ∙ other)
    ]
  ]

  -- What a walk of anything decoded from a string of at most `n` characters needs.
  abbrev Finishes {ℓ} : {A : Type ℓ} → ℕ → (Json → FieldPath → Result A) → Type ℓ
  Finishes n nested =
      (value : Json) (path : FieldPath)
      → suc (longest value) ≤ n
      → Completes loads (nested value path)

  module _ (n : ℕ) (nested : Json → FieldPath → Result (List TextRegion))
      (finishes : Finishes n nested) where
    walk_text-Completes :
        (text : Text) (path : FieldPath)
        → length text ≤ n
        → Completes loads (walk_text loads nested text path)
    unfolding walk_text
    walk_text-Completes text path h = elim (decoded-cases (unwrapped loads path text)) [
      | inl e ↦ inl (record { path = path; text = text } ∷ [], rw (walk_text, e) refl)
      | inr (inl (parsed, e)) ↦
          let again : walk_text loads nested text path ≡ nested parsed path =
            rw (walk_text, e) refl in
          subst (λ x. Completes loads x) (sym again)
            (finishes parsed path (omega (arith, unwrapped-shorter path text parsed e)))
      | inr (inr (x, e)) ↦ inr (x, rw (walk_text, e) refl, unwrapped-Escapes path text x e)
    ]

    mutual
      unfolding walk_value longest

      walk_value-Completes :
          (value : Json) (path : FieldPath)
          → longest value ≤ n
          → Completes loads (walk_value loads nested value path)
      walk_value-Completes (object_value fields) path h = walk_object-Completes fields path h
      walk_value-Completes (array_value items) path h = walk_list-Completes items 0 path h
      walk_value-Completes (string_value text) path h = walk_text-Completes text path h
      walk_value-Completes null_value path h = inl ([], refl)
      walk_value-Completes (bool_value b) path h = inl ([], refl)
      walk_value-Completes (number_value t) path h = inl ([], refl)

      walk_object-Completes :
          (fields : JsonObject) (path : FieldPath)
          → longest_field fields ≤ n
          → Completes loads (walk_object loads nested fields path)
      walk_object-Completes no_field path h = inl ([], refl)
      walk_object-Completes (field k child fields) path h =
          Completes-bind loads _ _ (walk_value-Completes child (path ++ (key k ∷ [])) (omega arith))
            (λ regions.
              Completes-bind loads _ _ (walk_object-Completes fields path (omega arith))
                (λ rest. inl (regions ++ rest, refl)))

      walk_list-Completes :
          (items : JsonList) (i : ℕ) (path : FieldPath)
          → longest_item items ≤ n
          → Completes loads (walk_list loads nested items i path)
      walk_list-Completes no_item i path h = inl ([], refl)
      walk_list-Completes (item child items) i path h =
          Completes-bind loads _ _
            (walk_value-Completes child (path ++ (index i ∷ [])) (omega arith))
            (λ regions.
              Completes-bind loads _ _ (walk_list-Completes items (suc i) path (omega arith))
                (λ rest. inl (regions ++ rest, refl)))

  module _ (dumps : Json → Text) (substitutions : Substitutions) where
    module _ (n : ℕ) (nested : Json → FieldPath → Result (Json × List FieldPath))
        (finishes : Finishes n nested) where
      rebuild_text-Completes :
          (text : Text) (path : FieldPath)
          → length text ≤ n
          → Completes loads (rebuild_text loads dumps substitutions nested text path)
      unfolding rebuild_text
      rebuild_text-Completes text path h = elim (Option-cases (substitution path substitutions)) [
        | inr (new, e) ↦ inl ((string_value new, path ∷ []), rw (rebuild_text, e) refl)
        | inl e ↦ elim (decoded-cases (unwrapped loads path text)) [
          | inl u ↦ inl ((string_value text, []), rw (rebuild_text, e, u) refl)
          | inr (inr (x, u)) ↦
              inr (x, rw (rebuild_text, e, u) refl, unwrapped-Escapes path text x u)
          | inr (inl (parsed, u)) ↦
              elim (Bool-cases (has_substitution_beneath path substitutions)) [
                | inr b ↦ inl ((string_value text, []), rw (rebuild_text, e, u, b) refl)
                | inl b ↦
                    let again : rebuild_text loads dumps substitutions nested text path ≡ (
                        nested parsed path >>= λ rebuilt.
                        ok (string_value (dumps rebuilt.0), rebuilt.1)) =
                      rw (rebuild_text, e, u, b) refl in
                    subst (λ x. Completes loads x) (sym again)
                      (Completes-bind loads _ _
                        (finishes parsed path (omega (arith, unwrapped-shorter path text parsed u)))
                        (λ rebuilt. inl ((string_value (dumps rebuilt.0), rebuilt.1), refl)))
              ]
        ]
      ]

      mutual
        unfolding rebuild_value longest

        rebuild_value-Completes :
            (value : Json) (path : FieldPath)
            → longest value ≤ n
            → Completes loads (rebuild_value loads dumps substitutions nested value path)
        rebuild_value-Completes (object_value fields) path h =
            Completes-bind loads _ _ (rebuild_object-Completes fields path h)
              (λ r. inl ((object_value r.0, r.1), refl))
        rebuild_value-Completes (array_value items) path h =
            Completes-bind loads _ _ (rebuild_list-Completes items 0 path h)
              (λ r. inl ((array_value r.0, r.1), refl))
        rebuild_value-Completes (string_value text) path h = rebuild_text-Completes text path h
        rebuild_value-Completes null_value path h = inl ((null_value, []), refl)
        rebuild_value-Completes (bool_value b) path h = inl ((bool_value b, []), refl)
        rebuild_value-Completes (number_value t) path h = inl ((number_value t, []), refl)

        rebuild_object-Completes :
            (fields : JsonObject) (path : FieldPath)
            → longest_field fields ≤ n
            → Completes loads (rebuild_object loads dumps substitutions nested fields path)
        rebuild_object-Completes no_field path h = inl ((no_field, []), refl)
        rebuild_object-Completes (field k child fields) path h =
            Completes-bind loads _ _
              (rebuild_value-Completes child (path ++ (key k ∷ [])) (omega arith))
              (λ r.
                Completes-bind loads _ _ (rebuild_object-Completes fields path (omega arith))
                  (λ rest. inl ((field k r.0 rest.0, r.1 ++ rest.1), refl)))

        rebuild_list-Completes :
            (items : JsonList) (i : ℕ) (path : FieldPath)
            → longest_item items ≤ n
            → Completes loads (rebuild_list loads dumps substitutions nested items i path)
        rebuild_list-Completes no_item i path h = inl ((no_item, []), refl)
        rebuild_list-Completes (item child items) i path h =
            Completes-bind loads _ _
              (rebuild_value-Completes child (path ++ (index i ∷ [])) (omega arith))
              (λ r.
                Completes-bind loads _ _ (rebuild_list-Completes items (suc i) path (omega arith))
                  (λ rest. inl ((item r.0 rest.0, r.1 ++ rest.1), refl)))

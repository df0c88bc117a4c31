-- ===== src/FieldWalker/Leaves.antt =====
-- What the rebuilding makes of a string (src/pipeline/field_walker.py).
use local_first_llm_privacy.Common.{
  true, false, List, [], ◌∷◌, map, none, some, Result, ok, ◌>>=◌, >>=-eq-ok, ok-injective, raise,
  caught, decoded-cases, Bool-cases, Option-cases, inl, inr, ◌≡◌, refl, sym, ap, ◌∙◌, subst, arith,
}
use local_first_llm_privacy.Common.Chars.{Text}
use local_first_llm_privacy.Json.{Json, string_value}
use local_first_llm_privacy.FieldWalker.{
  FieldPath, TextRegion, Substitutions, substitution, has_substitution_beneath, as_container,
  ends_in_arguments, try_parse_json_container, unwrapped, walk_text, walk_value, rebuild_text,
}
use local_first_llm_privacy.FieldWalker.Shape.{Shape, blank, encoded, shape_text, shape_value}
use local_first_llm_privacy.FieldWalker.Paths.{
  IsContainer, StaysInside, unwrapped-some, replace, hits, untouched,
}

-- No text of its own is put in place of encoded arguments.
abbrev pub SparesArguments : Substitutions → Type 0
SparesArguments subs =
    (path : FieldPath) (text : Text)
    → substitution path subs ≡ some text
    → ends_in_arguments path ≡ false

module _ (loads : Text → Result Json) (dumps : Json → Text) (subs : Substitutions) where
  -- What was decoded and rebuilt is read back from its text.
  abbrev pub ReadsBack : (Json → FieldPath → Result (Json × List FieldPath)) → Type 0
  ReadsBack nested =
      (text : Text) (parsed : Json) (path : FieldPath) (rebuilt : Json × List FieldPath)
      → loads text ≡ ok parsed
      → nested parsed path ≡ ok rebuilt
      → loads (dumps rebuilt.0) ≡ ok rebuilt.0

  -- The walk of the rebuilt value finds the regions with their new texts, and the rest of the value is the same.
  abbrev pub Agrees :
      (Json → FieldPath → Result (List TextRegion))
      → (Json → FieldPath → Result (Json × List FieldPath))
      → (Json → FieldPath → Shape)
      → Type 0
  Agrees walker rebuilder shaper =
      (value : Json) (p : FieldPath) (regions : List TextRegion) (r : Json × List FieldPath)
      → walker value p ≡ ok regions
      → rebuilder value p ≡ ok r
      → (walker r.0 p ≡ ok (map (replace subs) regions))
        × (r.1 ≡ hits subs regions)
        × (IsContainer value → IsContainer r.0)
        × (shaper r.0 p ≡ shaper value p)

  module _ (walker : Json → FieldPath → Result (List TextRegion))
      (rebuilder : Json → FieldPath → Result (Json × List FieldPath))
      (shaper : Json → FieldPath → Shape) (spares : SparesArguments subs)
      (reads : ReadsBack rebuilder) (inside : StaysInside loads walker)
      (agrees : Agrees walker rebuilder shaper) where
    abbrev pub TextAgrees : Text → FieldPath → List TextRegion → Json × List FieldPath → Type 0
    TextAgrees text p regions r =
        (walk_value loads walker r.0 p ≡ ok (map (replace subs) regions))
        × (r.1 ≡ hits subs regions)
        × (shape_value loads shaper r.0 p ≡ shape_text loads shaper text p)

    blank_leaf :
        (text : Text) (p : FieldPath)
        → unwrapped loads p text ≡ ok none
        → shape_text loads shaper text p ≡ blank
    unfolding shape_text
    blank_leaf text p u = rw (shape_text, u) refl

    -- A leaf with a new text.
    leaf_replaced :
        (text new : Text) (p : FieldPath)
        → substitution p subs ≡ some new
        → unwrapped loads p text ≡ ok none
        → TextAgrees text p (record { path = p; text = text } ∷ []) (string_value new, p ∷ [])
    unfolding walk_value walk_text unwrapped replace hits shape_value shape_text
    leaf_replaced text new p e u = (
      rw (walk_text, unwrapped, spares p new e, replace, e) refl,
      rw (hits, e) refl,
      blank_leaf new p (rw (unwrapped, spares p new e) refl) ∙ sym (blank_leaf text p u),
    )

    leaf_kept :
        (text : Text) (p : FieldPath)
        → substitution p subs ≡ none
        → unwrapped loads p text ≡ ok none
        → TextAgrees text p (record { path = p; text = text } ∷ []) (string_value text, [])
    unfolding walk_value walk_text replace hits shape_value
    leaf_kept text p e u = (rw (walk_text, u, replace, e) refl, rw (hits, e) refl, refl)

    -- Encoded arguments without a substitution below.
    arguments_kept :
        (text : Text) (p : FieldPath) (parsed : Json) (regions : List TextRegion)
        → unwrapped loads p text ≡ ok (some parsed)
        → walker parsed p ≡ ok regions
        → has_substitution_beneath p subs ≡ false
        → TextAgrees text p regions (string_value text, [])
    unfolding walk_value walk_text shape_value
    arguments_kept text p parsed regions u run b =
        let (last, l, holds) = unwrapped-some loads p text parsed u in
        let (same, none_hit) = untouched subs p regions b ((inside parsed p regions run).1 holds) in
        (rw (walk_text, u) (run ∙ ap ok (sym same)), sym none_hit, refl)

    arguments_rebuilt :
        (text : Text) (p : FieldPath) (parsed : Json) (regions : List TextRegion)
        (r : Json × List FieldPath)
        → unwrapped loads p text ≡ ok (some parsed)
        → walker parsed p ≡ ok regions
        → rebuilder parsed p ≡ ok r
        → TextAgrees text p regions (string_value (dumps r.0), r.1)
    unfolding walk_value walk_text unwrapped try_parse_json_container caught shape_value shape_text
    arguments_rebuilt text p parsed regions r u run built =
        let (last, l, holds) = unwrapped-some loads p text parsed u in
        let (again, applied, kept, alike) = agrees parsed p regions r run built in
        let back : loads (dumps r.0) ≡ ok r.0 = reads text parsed p r l built in
        let container : as_container r.0 ≡ some r.0 = kept holds in
        let decoded : unwrapped loads p (dumps r.0) ≡ ok (some r.0) =
          rw (unwrapped, try_parse_json_container, last, back, container) refl in
        (rw (walk_text, decoded) again, applied, rw (shape_text, decoded, u) (ap encoded alike))

    pub text-agrees :
        (text : Text) (p : FieldPath) (regions : List TextRegion) (r : Json × List FieldPath)
        → walk_text loads walker text p ≡ ok regions
        → rebuild_text loads dumps subs rebuilder text p ≡ ok r
        → TextAgrees text p regions r
    unfolding walk_text rebuild_text
    text-agrees text p regions r walked built = elim (decoded-cases (unwrapped loads p text)) [
      | inr (inr (x, u)) ↦ let bad : raise x ≡ ok regions = rw (walk_text, u) at walked in cc
      | inl u ↦
          let out : ok (record { path = p; text = text } ∷ []) ≡ ok regions =
            rw (walk_text, u) at walked in
          subst (λ x. TextAgrees text p x r) (ok-injective out)
            (elim (Option-cases (substitution p subs)) [
              | inl e ↦
                  let same : ok (string_value text, []) ≡ ok r = rw (rebuild_text, e, u) at built in
                  subst (λ y. TextAgrees text p (record { path = p; text = text } ∷ []) y)
                    (ok-injective same) (leaf_kept text p e u)
              | inr (new, e) ↦
                  let same : ok (string_value new, p ∷ []) ≡ ok r = rw (rebuild_text, e) at built in
                  subst (λ y. TextAgrees text p (record { path = p; text = text } ∷ []) y)
                    (ok-injective same) (leaf_replaced text new p e u)
            ])
      | inr (inl (parsed, u)) ↦
          let run : walker parsed p ≡ ok regions = rw (walk_text, u) at walked in
          let e : substitution p subs ≡ none = spared text p parsed u in
          elim (Bool-cases (has_substitution_beneath p subs)) [
            | inr b ↦
                let same : ok (string_value text, []) ≡ ok r =
                  rw (rebuild_text, e, u, b) at built in
                subst (λ y. TextAgrees text p regions y) (ok-injective same)
                  (arguments_kept text p parsed regions u run b)
            | inl b ↦
                let again : (rebuilder parsed p >>= λ t. ok (string_value (dumps t.0), t.1))
                    ≡ ok r =
                  rw (rebuild_text, e, u, b) at built in
                let (t, step, same) = >>=-eq-ok (rebuilder parsed p) _ again in
                subst (λ y. TextAgrees text p regions y) (ok-injective same)
                  (arguments_rebuilt text p parsed regions t u run step)
          ]
    ]
      where
        spared :
            (text : Text) (p : FieldPath) (parsed : Json)
            → unwrapped loads p text ≡ ok (some parsed)
            → substitution p subs ≡ none
        spared text p parsed u = elim (Option-cases (substitution p subs)) [
          | inl e ↦ e
          | inr (new, e) ↦
              let bad : false ≡ true =
                sym (spares p new e) ∙ (unwrapped-some loads p text parsed u).0 in
              absurd (ground (arith, bad))
        ]

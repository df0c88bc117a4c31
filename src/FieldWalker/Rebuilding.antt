-- ===== src/FieldWalker/Rebuilding.antt =====
-- What the rebuilding changes (src/pipeline/field_walker.py).
use local_first_llm_privacy.Common.{
  ℕ, zero, suc, List, [], ◌∷◌, ◌++◌, map, Result, ok, >>=-eq-ok, ok-injective, ◌≡◌, refl, sym, ap,
  ap₂, ◌∙◌, subst,
}
use mathlib.Core.List.{map-append}
use local_first_llm_privacy.Common.Chars.{Text}
use local_first_llm_privacy.Json.{
  Json, null_value, bool_value, number_value, string_value, array_value, object_value, JsonList,
  no_item, item, JsonObject, no_field, field,
}
use local_first_llm_privacy.FieldWalker.{
  key, index, FieldPath, TextRegion, Substitutions, as_container, walk_value, walk_object,
  walk_list, walk_nested, walk, rebuild_value, rebuild_object, rebuild_list, rebuild_nested,
  rebuild,
}
use local_first_llm_privacy.FieldWalker.Shape.{
  Shape, entry, element, shape_value, shape_object, shape_list, shape_nested, shape,
}
use local_first_llm_privacy.FieldWalker.Paths.{
  IsContainer, StaysInside, walk_nested-inside, replace, hits, hits-append,
}
use local_first_llm_privacy.FieldWalker.Leaves.{SparesArguments, ReadsBack, Agrees, text-agrees}

module _ (loads : Text → Result Json) (dumps : Json → Text) (subs : Substitutions) where
  module _ (walker : Json → FieldPath → Result (List TextRegion))
      (rebuilder : Json → FieldPath → Result (Json × List FieldPath))
      (shaper : Json → FieldPath → Shape) (spares : SparesArguments subs)
      (reads : ReadsBack loads dumps subs rebuilder) (inside : StaysInside loads walker)
      (agrees : Agrees loads dumps subs walker rebuilder shaper) where
    -- A value that is no string and has no parts.
    scalar :
        (value : Json) (p : FieldPath) (regions : List TextRegion) (r : Json × List FieldPath)
        → walk_value loads walker value p ≡ ok []
        → walk_value loads walker value p ≡ ok regions
        → rebuild_value loads dumps subs rebuilder value p ≡ ok r
        → rebuild_value loads dumps subs rebuilder value p ≡ ok (value, [])
        → (walk_value loads walker r.0 p ≡ ok (map (replace subs) regions))
          × (r.1 ≡ hits subs regions)
          × (IsContainer value → IsContainer r.0)
          × (shape_value loads shaper r.0 p ≡ shape_value loads shaper value p)
    unfolding hits
    scalar value p regions r walks walked built rebuilds =
        let none_found : [] ≡ regions = ok-injective (sym walks ∙ walked) in
        let same : ◌≡◌ {A = Json × List FieldPath} (value, []) r =
          ok-injective (sym rebuilds ∙ built) in
        subst
          (λ rs.
            (walk_value loads walker r.0 p ≡ ok (map (replace subs) rs))
            × (r.1 ≡ hits subs rs)
            × (IsContainer value → IsContainer r.0)
            × (shape_value loads shaper r.0 p ≡ shape_value loads shaper value p))
          none_found
          (subst
            (λ y.
              (walk_value loads walker y.0 p ≡ ok [])
              × (y.1 ≡ [])
              × (IsContainer value → IsContainer y.0)
              × (shape_value loads shaper y.0 p ≡ shape_value loads shaper value p))
            same (walks, refl, (λ c. c), refl))

    -- The parts of a dict or list, one after the other.
    pair_agrees :
        (a b : List TextRegion) (x y : List FieldPath)
        → x ≡ hits subs a
        → y ≡ hits subs b
        → (map (replace subs) a ++ map (replace subs) b ≡ map (replace subs) (a ++ b))
          × (x ++ y ≡ hits subs (a ++ b))
    pair_agrees a b x y h h' =
        (sym (map-append (replace subs) a b), ap₂ (◌++◌) h h' ∙ sym (hits-append subs a b))

    abbrev ObjectAgrees :
        JsonObject → FieldPath → List TextRegion → JsonObject × List FieldPath → Type 0
    ObjectAgrees fields p regions r =
        (walk_object loads walker r.0 p ≡ ok (map (replace subs) regions))
        × (r.1 ≡ hits subs regions)
        × (shape_object loads shaper r.0 p ≡ shape_object loads shaper fields p)

    abbrev ListAgrees :
        JsonList → ℕ → FieldPath → List TextRegion → JsonList × List FieldPath → Type 0
    ListAgrees items i p regions r =
        (walk_list loads walker r.0 i p ≡ ok (map (replace subs) regions))
        × (r.1 ≡ hits subs regions)
        × (shape_list loads shaper r.0 i p ≡ shape_list loads shaper items i p)

    mutual
      unfolding walk_value rebuild_value hits as_container shape_value

      value-Agrees :
          Agrees loads dumps subs
            (walk_value loads walker)
            (rebuild_value loads dumps subs rebuilder)
            (shape_value loads shaper)
      value-Agrees (object_value fields) p regions r walked built =
          let (s, step, same) =
            >>=-eq-ok (rebuild_object loads dumps subs rebuilder fields p) _ built in
          let (again, applied, alike) = object-agrees fields p regions s walked step in
          subst
            (λ y.
              (walk_value loads walker y.0 p ≡ ok (map (replace subs) regions))
              × (y.1 ≡ hits subs regions)
              × (IsContainer (object_value fields) → IsContainer y.0)
              × (shape_value loads shaper y.0 p ≡ shape_object loads shaper fields p))
            (ok-injective same) (again, applied, (λ c. refl), alike)
      value-Agrees (array_value items) p regions r walked built =
          let (s, step, same) =
            >>=-eq-ok (rebuild_list loads dumps subs rebuilder items 0 p) _ built in
          let (again, applied, alike) = list-agrees items 0 p regions s walked step in
          subst
            (λ y.
              (walk_value loads walker y.0 p ≡ ok (map (replace subs) regions))
              × (y.1 ≡ hits subs regions)
              × (IsContainer (array_value items) → IsContainer y.0)
              × (shape_value loads shaper y.0 p ≡ shape_list loads shaper items 0 p))
            (ok-injective same) (again, applied, (λ c. refl), alike)
      value-Agrees (string_value text) p regions r walked built =
          let (again, applied, alike) =
            text-agrees loads dumps subs walker rebuilder shaper spares reads inside agrees text p
              regions r walked built in
          (again, applied, (λ c. cc), alike)
      value-Agrees null_value p regions r walked built =
          scalar null_value p regions r refl walked built refl
      value-Agrees (bool_value b) p regions r walked built =
          scalar (bool_value b) p regions r refl walked built refl
      value-Agrees (number_value t) p regions r walked built =
          scalar (number_value t) p regions r refl walked built refl

      object-agrees :
          (fields : JsonObject) (p : FieldPath) (regions : List TextRegion)
          (r : JsonObject × List FieldPath)
          → walk_object loads walker fields p ≡ ok regions
          → rebuild_object loads dumps subs rebuilder fields p ≡ ok r
          → ObjectAgrees fields p regions r
      object-agrees no_field p regions r walked built =
          subst (λ rs. ObjectAgrees no_field p rs r) (ok-injective walked)
            (subst (λ y. ObjectAgrees no_field p [] y) (ok-injective built) (refl, refl, refl))
      object-agrees (field k child fields) p regions r walked built =
          let (a, run, walked') =
            >>=-eq-ok (walk_value loads walker child (p ++ (key k ∷ []))) _ walked in
          let (b, run', same) = >>=-eq-ok (walk_object loads walker fields p) _ walked' in
          let (x, step, built') =
            >>=-eq-ok (rebuild_value loads dumps subs rebuilder child (p ++ (key k ∷ []))) _
              built in
          let (y, step', same') =
            >>=-eq-ok (rebuild_object loads dumps subs rebuilder fields p) _ built' in
          let (again, applied, kept, alike) = value-Agrees child (p ++ (key k ∷ [])) a x run step in
          let (again', applied', alike') = object-agrees fields p b y run' step' in
          let (joined, all_applied) = pair_agrees a b x.1 y.1 applied applied' in
          subst (λ rs. ObjectAgrees (field k child fields) p rs r) (ok-injective same)
            (subst (λ z. ObjectAgrees (field k child fields) p (a ++ b) z) (ok-injective same')
              (rw (again, again') (ap ok joined), all_applied, ap₂ (entry k) alike alike'))

      list-agrees :
          (items : JsonList) (i : ℕ) (p : FieldPath) (regions : List TextRegion)
          (r : JsonList × List FieldPath)
          → walk_list loads walker items i p ≡ ok regions
          → rebuild_list loads dumps subs rebuilder items i p ≡ ok r
          → ListAgrees items i p regions r
      list-agrees no_item i p regions r walked built =
          subst (λ rs. ListAgrees no_item i p rs r) (ok-injective walked)
            (subst (λ y. ListAgrees no_item i p [] y) (ok-injective built) (refl, refl, refl))
      list-agrees (item child items) i p regions r walked built =
          let (a, run, walked') =
            >>=-eq-ok (walk_value loads walker child (p ++ (index i ∷ []))) _ walked in
          let (b, run', same) = >>=-eq-ok (walk_list loads walker items (suc i) p) _ walked' in
          let (x, step, built') =
            >>=-eq-ok (rebuild_value loads dumps subs rebuilder child (p ++ (index i ∷ []))) _
              built in
          let (y, step', same') =
            >>=-eq-ok (rebuild_list loads dumps subs rebuilder items (suc i) p) _ built' in
          let (again, applied, kept, alike) =
            value-Agrees child (p ++ (index i ∷ [])) a x run step in
          let (again', applied', alike') = list-agrees items (suc i) p b y run' step' in
          let (joined, all_applied) = pair_agrees a b x.1 y.1 applied applied' in
          subst (λ rs. ListAgrees (item child items) i p rs r) (ok-injective same)
            (subst (λ z. ListAgrees (item child items) i p (a ++ b) z) (ok-injective same')
              (rw (again, again') (ap ok joined), all_applied, ap₂ element alike alike'))

  nested-Agrees :
      (limit : ℕ)
      → SparesArguments subs
      → ((depth : ℕ) → ReadsBack loads dumps subs (rebuild_nested loads dumps subs depth))
      → Agrees loads dumps subs
          (walk_nested loads limit)
          (rebuild_nested loads dumps subs limit)
          (shape_nested loads limit)
  unfolding walk_nested rebuild_nested shape_nested
  nested-Agrees zero spares reads value p regions r walked built = cc
  nested-Agrees (suc limit) spares reads value p regions r walked built =
      value-Agrees (walk_nested loads limit) (rebuild_nested loads dumps subs limit)
        (shape_nested loads limit) spares (reads limit) (walk_nested-inside loads limit)
        (nested-Agrees limit spares reads) value p regions r walked built

-- When no substitution stands at a path that ends in "arguments" and the text of rebuilt arguments
-- is read back as it was written, a walk of the rebuilt body finds the regions of the walk of the
-- body, in order and at their paths, each with the text that is substituted at its path if there is
-- one, and the applied paths are those of the regions that have one: no substitution at a region is
-- lost. Nothing else changes: blanked of those texts, with encoded arguments decoded, the two
-- bodies are the same, with the same keys, constants, lists and order.
pub walk-rebuild :
    (loads : Text → Result Json) (dumps : Json → Text) (substitutions : Substitutions) (limit : ℕ)
    (body new_body : Json) (regions : List TextRegion) (applied : List FieldPath)
    → SparesArguments substitutions
    → ((depth : ℕ)
        → ReadsBack loads dumps substitutions (rebuild_nested loads dumps substitutions depth))
    → walk loads limit body ≡ ok regions
    → rebuild loads dumps substitutions limit body ≡ ok (new_body, applied)
    → (walk loads limit new_body ≡ ok (map (replace substitutions) regions))
      × (applied ≡ hits substitutions regions)
      × (shape loads limit new_body ≡ shape loads limit body)
unfolding walk rebuild shape
walk-rebuild loads dumps substitutions limit body new_body regions applied spares reads walked
      built =
    let (again, same, kept, alike) =
      nested-Agrees loads dumps substitutions limit spares reads body [] regions (new_body, applied)
        walked built in
    (again, same, alike)

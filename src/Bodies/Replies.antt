-- ===== src/Bodies/Replies.antt =====
-- The fields of a rehydrated body (src/pipeline/rehydrate.py).
use local_first_llm_privacy.Common.{
  ℕ, true, false, List, [], ◌∷◌, map, is_some, ok, >>=-eq-ok, ok-injective, Bool-cases, inl, inr,
  ◌≡◌, refl, sym, ap, ◌∙◌, subst, arith, text_eq, text_eq_sound, Result,
}
use local_first_llm_privacy.Common.Chars.{Text}
use local_first_llm_privacy.Common.Bytes.{Bytes}
use local_first_llm_privacy.Json.{Json}
use local_first_llm_privacy.Sessions.{Session}
use local_first_llm_privacy.Sanitize.{Registry}
use local_first_llm_privacy.Rehydrate.{rehydrate}
use local_first_llm_privacy.FieldWalker.{
  FieldPath, TextRegion, Substitutions, substitution, walk, rebuild, rebuild_nested,
}
use local_first_llm_privacy.FieldWalker.Paths.{replace}
use local_first_llm_privacy.FieldWalker.Leaves.{ReadsBack}
use local_first_llm_privacy.FieldWalker.Rebuilding.{walk-rebuild}
use local_first_llm_privacy.Bodies.{put_substitution, rehydrate_regions, rehydrate_body}
use local_first_llm_privacy.Bodies.Substituting.{
  misses, is_distinct, untouched_by, spares_arguments, substitution-put, substitution-put_other,
  put-untouched, KeepsOthers, replace-none, replace-some, not_some, kept-spares, nothing_yet,
}

module _ (domains : Registry) (key : Bytes) (session : Session) where
  -- The regions before and after, one by one.
  unfoldable pub AreRehydrated : List TextRegion → List TextRegion → Type 0
  AreRehydrated [] [] = Unit {0}
  AreRehydrated [] (o ∷ out) = ⊥
  AreRehydrated (r ∷ regions) [] = ⊥
  AreRehydrated (r ∷ regions) (o ∷ out) =
      (o.path ≡ r.path)
      × (rehydrate domains key r.text session ≡ ok o.text)
      × AreRehydrated regions out

  abbrev Ran : List TextRegion → Substitutions → Substitutions → Type 0
  Ran regions subs subs' =
      AreRehydrated regions (map (replace subs') regions) × KeepsOthers regions subs subs'

  abbrev HeadRan : TextRegion → List TextRegion → Substitutions → Substitutions → Type 0
  HeadRan r regions subs subs' =
      (o : TextRegion) × (o ≡ replace subs' r)
      × (o.path ≡ r.path)
      × (rehydrate domains key r.text session ≡ ok o.text)
      × Ran regions subs subs'

  with_head :
      (r : TextRegion) (regions : List TextRegion) (subs subs₁ subs' : Substitutions)
      → HeadRan r regions subs₁ subs'
      → ((q : FieldPath)
          → misses q (r ∷ regions) ≡ true
          → substitution q subs₁ ≡ substitution q subs)
      → Ran (r ∷ regions) subs subs'
  unfolding AreRehydrated
  with_head r regions subs subs₁ subs' (o, e, at, out, ran) before =
      let (done, keeps) = ran in
      (
        subst (λ x. AreRehydrated (r ∷ regions) (x ∷ map (replace subs') regions)) e
            (at, out, done),
        λ q m. keeps q (ground (arith, m)) ∙ before q m,
      )

  rehydrate_regions-Ran :
      (regions : List TextRegion) (subs subs' : Substitutions)
      → is_distinct regions ≡ true
      → untouched_by subs regions ≡ true
      → rehydrate_regions domains key regions session subs ≡ ok subs'
      → Ran regions subs subs'
  unfolding rehydrate_regions is_distinct AreRehydrated
  rehydrate_regions-Ran [] subs subs' distinct free run =
      (tt, λ q m. ap (substitution q) (sym (ok-injective run)))
  rehydrate_regions-Ran (r ∷ regions) subs subs' distinct free run =
      let (t, called, run') = >>=-eq-ok (rehydrate domains key r.text session) _ run in
      let m : misses r.path regions ≡ true = ground (arith, distinct) in
      let distinct' : is_distinct regions ≡ true = ground (arith, distinct) in
      let free' : untouched_by subs regions ≡ true = ground (arith, free) in
      let mine : is_some (substitution r.path subs) ≡ false = ground (arith, free) in
      elim (Bool-cases (text_eq t r.text)) [
        | inl e ↦
            let rest : rehydrate_regions domains key regions session subs ≡ ok subs' =
              rw e at run' in
            let (done, keeps) = rehydrate_regions-Ran regions subs subs' distinct' free' rest in
            let absent = keeps r.path m ∙ not_some (substitution r.path subs) mine in
            with_head r regions subs subs subs'
              (
                r,
                sym (replace-none subs' r absent),
                refl,
                called ∙ ap ok (text_eq_sound t r.text e),
                (done, keeps),
              )
              (λ q h. refl)
        | inr e ↦
            let subs₁ = put_substitution r.path t subs in
            let rest : rehydrate_regions domains key regions session subs₁ ≡ ok subs' =
              rw e at run' in
            let (done, keeps) =
              rehydrate_regions-Ran regions subs₁ subs' distinct'
                (put-untouched r.path t subs regions m free') rest in
            let there = keeps r.path m ∙ substitution-put r.path t subs in
            with_head r regions subs subs₁ subs'
              (
                record { path = r.path; text = t },
                sym (replace-some subs' r t there),
                refl,
                called,
                (done, keeps),
              )
              (λ q h. substitution-put_other q r.path t subs (ground (arith, h)))
      ]

-- Of a body that is rehydrated and returned, a walk finds the regions of the walk of the body, in order and
-- at their paths, each one with its text rehydrated. The regions' paths are distinct, no region is
-- text under "arguments" that does not decode, and the text of rebuilt arguments is read back as it
-- was written.
pub rehydrate_body-AreRehydrated :
    (loads : Text → Result Json) (dumps : Json → Text) (limit : ℕ) (domains : Registry)
    (key : Bytes) (session : Session) (body new_body : Json) (regions : List TextRegion)
    → ((subs : Substitutions) (depth : ℕ)
        → ReadsBack loads dumps subs (rebuild_nested loads dumps subs depth))
    → walk loads limit body ≡ ok regions
    → is_distinct regions ≡ true
    → spares_arguments regions ≡ true
    → rehydrate_body loads dumps limit domains key body session ≡ ok new_body
    → (out : List TextRegion) × (walk loads limit new_body ≡ ok out)
      × AreRehydrated domains key session regions out
unfolding rehydrate_body
rehydrate_body-AreRehydrated loads dumps limit domains key session body new_body regions reads
      walked distinct spares returned =
    let (rs, walked', run) = >>=-eq-ok (walk loads limit body) _ returned in
    let same : rs ≡ regions = ok-injective (sym walked' ∙ walked) in
    let (subs, looped, run') = >>=-eq-ok (rehydrate_regions domains key rs session []) _ run in
    let (result, built, out) = >>=-eq-ok (rebuild loads dumps subs limit body) _ run' in
    let (done, keeps) =
      rehydrate_regions-Ran domains key session regions [] subs distinct (nothing_yet regions)
        (ap (λ x. rehydrate_regions domains key x session []) (sym same) ∙ looped) in
    let (again, hit, alike) =
      walk-rebuild loads dumps subs limit body new_body regions result.1
        (λ q t h. kept-spares regions subs q t keeps spares h) (reads subs) walked
        (built ∙ ap (λ b. ok (b, result.1)) (ok-injective out)) in
    (map (replace subs) regions, again, done)

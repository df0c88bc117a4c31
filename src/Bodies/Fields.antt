-- ===== src/Bodies/Fields.antt =====
-- The fields of a sanitized body (src/pipeline/sanitize.py).
use local_first_llm_privacy.Common.{
  ℕ, true, false, List, [], ◌∷◌, map, Option, none, some, is_some, Result, ok, raise, ◌>>=◌,
  >>=-eq-ok, ok-injective, Bool-cases, inl, inr, ◌≡◌, refl, sym, ap, ap₂, ◌∙◌, subst, arith,
}
use local_first_llm_privacy.Common.Chars.{Text}
use local_first_llm_privacy.Common.Bytes.{Bytes}
use local_first_llm_privacy.Json.{Json}
use local_first_llm_privacy.Sessions.{Session, Shuffler}
use local_first_llm_privacy.Precedence.{Span}
use local_first_llm_privacy.Cascade.{FailMode}
use local_first_llm_privacy.Sanitize.{Registry, Pools}
use local_first_llm_privacy.FieldWalker.{
  FieldPath, TextRegion, Substitutions, substitution, walk, rebuild, rebuild_nested,
}
use local_first_llm_privacy.FieldWalker.Paths.{replace}
use local_first_llm_privacy.FieldWalker.Leaves.{ReadsBack}
use local_first_llm_privacy.FieldWalker.Rebuilding.{walk-rebuild}
use local_first_llm_privacy.ProtocolFields.{is_protocol_enum_value}
use local_first_llm_privacy.Bodies.{
  put_substitution, RegionStep, sanitize_regions, region_step, sanitize,
}
use local_first_llm_privacy.Bodies.Substituting.{
  misses, is_distinct, untouched_by, spares_arguments, substitution-put, substitution-put_other,
  put-untouched, KeepsOthers, replace-none, replace-some, not_some, kept-spares, nothing_yet,
}

module _ {Rng : Type 0} (step : RegionStep Rng) where
  -- The regions before and after, one by one: a protocol word is kept without a look at it; any other
  -- region goes through the step, in the session that the step before it left.
  pub data IsSanitized
      : Session → Rng → List TextRegion → List TextRegion → Session → Rng → Type 0 where
    no_region : {s : Session} {g : Rng} → IsSanitized s g [] [] s g
    protocol_word :
        {s s' : Session} {g g' : Rng} {r : TextRegion} {regions out : List TextRegion}
        → is_protocol_enum_value r.path r.text ≡ true
        → IsSanitized s g regions out s' g'
        → IsSanitized s g (r ∷ regions) (r ∷ out) s' g'
    kept :
        {s s₁ s' : Session} {g g₁ g' : Rng} {r : TextRegion} {regions out : List TextRegion}
        → is_protocol_enum_value r.path r.text ≡ false
        → step r.text s g ≡ (ok none, s₁, g₁)
        → IsSanitized s₁ g₁ regions out s' g'
        → IsSanitized s g (r ∷ regions) (r ∷ out) s' g'
    changed :
        {s s₁ s' : Session} {g g₁ g' : Rng} {r : TextRegion} {t : Text}
        {regions out : List TextRegion}
        → is_protocol_enum_value r.path r.text ≡ false
        → step r.text s g ≡ (ok (some t), s₁, g₁)
        → IsSanitized s₁ g₁ regions out s' g'
        → IsSanitized s g (r ∷ regions) (record { path = r.path; text = t } ∷ out) s' g'

  abbrev Ran :
      List TextRegion → Substitutions → Substitutions → Session → Rng → Session → Rng → Type 0
  Ran regions subs subs' s g s' g' =
      IsSanitized s g regions (map (replace subs') regions) s' g' × KeepsOthers regions subs subs'

  -- The region at the head keeps what the rest of the loop does not touch.
  keeps_on :
      (r : TextRegion) (regions : List TextRegion) (subs subs' : Substitutions)
      → KeepsOthers regions subs subs'
      → KeepsOthers (r ∷ regions) subs subs'
  keeps_on r regions subs subs' keeps q m = keeps q (ground (arith, m))

  keeps_on_put :
      (r : TextRegion) (t : Text) (regions : List TextRegion) (subs subs' : Substitutions)
      → KeepsOthers regions (put_substitution r.path t subs) subs'
      → KeepsOthers (r ∷ regions) subs subs'
  keeps_on_put r t regions subs subs' keeps q m =
      keeps q (ground (arith, m)) ∙ substitution-put_other q r.path t subs (ground (arith, m))

  head_kept :
      (r : TextRegion) (regions : List TextRegion) (subs subs' : Substitutions)
      → KeepsOthers regions subs subs'
      → misses r.path regions ≡ true
      → is_some (substitution r.path subs) ≡ false
      → r ≡ replace subs' r
  head_kept r regions subs subs' keeps m free =
      sym (replace-none subs' r (keeps r.path m ∙ not_some (substitution r.path subs) free))

  head_changed :
      (r : TextRegion) (t : Text) (regions : List TextRegion) (subs subs' : Substitutions)
      → KeepsOthers regions (put_substitution r.path t subs) subs'
      → misses r.path regions ≡ true
      → ◌≡◌ {A = TextRegion} (record { path = r.path; text = t }) (replace subs' r)
  head_changed r t regions subs subs' keeps m =
      sym (replace-some subs' r t (keeps r.path m ∙ substitution-put r.path t subs))

  sanitize_regions-Ran :
      (regions : List TextRegion) (subs subs' : Substitutions) (s s' : Session) (g g' : Rng)
      → is_distinct regions ≡ true
      → untouched_by subs regions ≡ true
      → sanitize_regions step regions subs s g ≡ (ok subs', s', g')
      → Ran regions subs subs' s g s' g'
  unfolding sanitize_regions is_distinct
  sanitize_regions-Ran [] subs subs' s s' g g' distinct free run =
      let same : ok subs ≡ ok subs' = ap (λ x. x.0) run in
      (
        subst (λ (x : Session × Rng). IsSanitized s g [] [] x.0 x.1) (ap (λ x. (x.1, x.2)) run)
            no_region,
        λ q m. ap (substitution q) (sym (ok-injective same)),
      )
  sanitize_regions-Ran (r ∷ regions) subs subs' s s' g g' distinct free run =
      let m : misses r.path regions ≡ true = ground (arith, distinct) in
      let distinct' : is_distinct regions ≡ true = ground (arith, distinct) in
      let free' : untouched_by subs regions ≡ true = ground (arith, free) in
      let mine : is_some (substitution r.path subs) ≡ false = ground (arith, free) in
      elim (Bool-cases (is_protocol_enum_value r.path r.text)) [
        | inl e ↦
            let rest : sanitize_regions step regions subs s g ≡ (ok subs', s', g') =
              rw (sanitize_regions, e) at run in
            let (done, keeps) =
              sanitize_regions-Ran regions subs subs' s s' g g' distinct' free' rest in
            (
              subst (λ x. IsSanitized s g (r ∷ regions) (x ∷ map (replace subs') regions) s' g')
                  (head_kept r regions subs subs' keeps m mine) (protocol_word e done),
              keeps_on r regions subs subs' keeps,
            )
        | inr e ↦
            after r regions subs subs' s s' g g' m mine e (step r.text s g).0 refl
              (rw (sanitize_regions, e) at run)
              (λ x s₁ g₁ run' free''.
                sanitize_regions-Ran regions x subs' s₁ s' g₁ g' distinct' free'' run')
              free'
      ]
    where
      after :
          (r : TextRegion) (regions : List TextRegion) (subs subs' : Substitutions) (s s' : Session)
          (g g' : Rng)
          → misses r.path regions ≡ true
          → is_some (substitution r.path subs) ≡ false
          → is_protocol_enum_value r.path r.text ≡ false
          → (result : Result (Option Text)) → (step r.text s g).0 ≡ result
          → (let (out, s₁, g₁) : Result (Option Text) × Session × Rng = step r.text s g in
              elim out [
                | raise e ↦ (raise e, s₁, g₁)
                | ok none ↦ sanitize_regions step regions subs s₁ g₁
                | ok (some text) ↦
                    sanitize_regions step regions (put_substitution r.path text subs) s₁ g₁
              ])
            ≡ (ok subs', s', g')
          → ((x : Substitutions) (s₁ : Session) (g₁ : Rng)
              → sanitize_regions step regions x s₁ g₁ ≡ (ok subs', s', g')
              → untouched_by x regions ≡ true
              → Ran regions x subs' s₁ g₁ s' g')
          → untouched_by subs regions ≡ true
          → Ran (r ∷ regions) subs subs' s g s' g'
      after r regions subs subs' s s' g g' m mine e (raise x) call run rest free =
          let bad : ◌≡◌ {A = Result Substitutions × Session × Rng}
              (raise x, (step r.text s g).1, (step r.text s g).2) (ok subs', s', g') =
            rw call at run in
          let bad' : raise x ≡ ok subs' = ap (λ y. y.0) bad in cc
      after r regions subs subs' s s' g g' m mine e (ok none) call run rest free =
          let called = step r.text s g in
          let (done, keeps) = rest subs called.1 called.2 (rw call at run) free in
          (
            subst (λ x. IsSanitized s g (r ∷ regions) (x ∷ map (replace subs') regions) s' g')
                (head_kept r regions subs subs' keeps m mine)
                (kept e (ap (λ x. (x, called.1, called.2)) call) done),
            keeps_on r regions subs subs' keeps,
          )
      after r regions subs subs' s s' g g' m mine e (ok (some t)) call run rest free =
          let called = step r.text s g in
          let (done, keeps) =
            rest (put_substitution r.path t subs) called.1 called.2 (rw call at run)
              (put-untouched r.path t subs regions m free) in
          (
            subst (λ x. IsSanitized s g (r ∷ regions) (x ∷ map (replace subs') regions) s' g')
                (head_changed r t regions subs subs' keeps m)
                (changed e (ap (λ x. (x, called.1, called.2)) call) done),
            keeps_on_put r t regions subs subs' keeps,
          )

module _ {Rng : Type 0} (loads : Text → Result Json) (dumps : Json → Text) (limit : ℕ)
    (random : Shuffler Rng) (pools : Pools) (domains : Registry) (key : Bytes)
    (tier1 : List (Text → List Span)) (tier2 : List (Text → Result (List Span)))
    (mode : FailMode) where
  -- A call that returned a body had its walk, its loop and its rebuilding return.
  sanitize-returned :
      (body new_body : Json) (now : ℕ) (s s' : Session) (g g' : Rng) (regions : List TextRegion)
      → walk loads limit body ≡ ok regions
      → sanitize loads dumps limit random pools domains key tier1 tier2 mode body now s g
        ≡ (ok new_body, s', g')
      → (subs : Substitutions) × (applied : List FieldPath) × (sanitize_regions
            (region_step random pools domains key tier1 tier2 mode now)
            regions
            []
            s
            g
          ≡ (ok subs, s', g'))
        × (rebuild loads dumps subs limit body ≡ ok (new_body, applied))
  unfolding sanitize
  sanitize-returned body new_body now s s' g g' regions walked returned =
      let looped =
        sanitize_regions (region_step random pools domains key tier1 tier2 mode now) regions [] s
          g in
      let end : (looped.0 >>= λ subs. rebuild loads dumps subs limit body >>= λ result. ok result.0)
          ≡ ok new_body =
        ap (λ x. x.0) (rw (sanitize, walked) at returned) in
      let states : (looped.1, looped.2) ≡ (s', g') =
        ap (λ x. (x.1, x.2)) (rw (sanitize, walked) at returned) in
      let (subs, ran, end') = >>=-eq-ok looped.0 _ end in
      let (result, built, same) = >>=-eq-ok (rebuild loads dumps subs limit body) _ end' in
      (
        subs,
        result.1,
        ap₂ (λ x (y : Session × Rng). (x, y.0, y.1)) ran states,
        built ∙ ap (λ b. ok (b, result.1)) (ok-injective same),
      )

  -- Of a body that is sanitized and returned, a walk finds the regions of the walk of the request, in order
  -- and at their paths, each one with its own text if it is a word of the protocol or nothing in it
  -- was replaced, and else with the text that the sanitizing of the region gave in the session that
  -- the region before it left. The regions' paths are distinct, no region is text under "arguments"
  -- that does not decode, and the text of rebuilt arguments is read back as it was written.
  pub sanitize-IsSanitized :
      (body new_body : Json) (now : ℕ) (s s' : Session) (g g' : Rng) (regions : List TextRegion)
      → ((subs : Substitutions) (depth : ℕ)
          → ReadsBack loads dumps subs (rebuild_nested loads dumps subs depth))
      → walk loads limit body ≡ ok regions
      → is_distinct regions ≡ true
      → spares_arguments regions ≡ true
      → sanitize loads dumps limit random pools domains key tier1 tier2 mode body now s g
        ≡ (ok new_body, s', g')
      → (out : List TextRegion) × (walk loads limit new_body ≡ ok out)
        × IsSanitized
            (region_step random pools domains key tier1 tier2 mode now)
            s
            g
            regions
            out
            s'
            g'
  sanitize-IsSanitized body new_body now s s' g g' regions reads walked distinct spares returned =
      let (subs, applied, looped, built) =
        sanitize-returned body new_body now s s' g g' regions walked returned in
      let (done, keeps) =
        sanitize_regions-Ran (region_step random pools domains key tier1 tier2 mode now) regions []
          subs s s' g g' distinct (nothing_yet regions) looped in
      let (again, hit, alike) =
        walk-rebuild loads dumps subs limit body new_body regions applied
          (λ q t h. kept-spares regions subs q t keeps spares h) (reads subs) walked built in
      (map (replace subs) regions, again, done)

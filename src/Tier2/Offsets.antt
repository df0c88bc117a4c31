-- ===== src/Tier2/Offsets.antt =====
-- Where the spans of tier 2 lie (src/detect/tier2/detector.py).
use local_first_llm_privacy.Common.{
  ℕ, leb, true, all, List, [], ◌∷◌, map, length, Result, ok, raise, ◌>>=◌, >>=-eq-ok, ok-injective,
  detection_error, ℤ, pos, negsuc, Bool-cases, inl, inr, ◌≡◌, refl, sym, ap, ◌∙◌, subst, arith,
}
use local_first_llm_privacy.Common.Chars.{Text}
use local_first_llm_privacy.Sessions.{EntityType, Session}
use local_first_llm_privacy.Precedence.{Span, new_span}
use local_first_llm_privacy.Cascade.{
  FailMode, open_mode, closed_mode, resolve_failure, ResolvedSpan, detect_all, guarded, detect,
}
use local_first_llm_privacy.Sanitize.{last_first}
use local_first_llm_privacy.Sanitize.Replacement.{IsDescending, fresh_spans}
use local_first_llm_privacy.Sanitize.Placement.{lies_in, marked-IsDescending}
use local_first_llm_privacy.Tier2.{
  ModelEntityMatch, same_type, is_within, kept_spans, tier2_detect, get_tier2_detectors,
}

new_span-lies_in :
    (s e : ℤ) (kind : EntityType) (size : ℕ) (span : Span)
    → is_within s e size ≡ true
    → new_span s e kind 2 ≡ ok span
    → lies_in size span ≡ true
unfolding is_within new_span
new_span-lies_in (pos s) (pos e) kind size span inside made = elim (Bool-cases (leb e s)) [
  | inl b ↦ absurd (ground (arith, inside, b))
  | inr b ↦
      let same : ok (record { start = s; end = e; entity_type = kind; tier = 2 }) ≡ ok span =
        rw (new_span, b) at made in
      ap (lies_in size) (sym (ok-injective same)) ∙ inside
]
new_span-lies_in (pos s) (negsuc e) kind size span inside made = cc
new_span-lies_in (negsuc s) e kind size span inside made = cc

kept_spans-lies_in :
    (kind : EntityType) (size : ℕ) (found : List ModelEntityMatch) (spans : List Span)
    → kept_spans kind size found ≡ ok spans
    → all (lies_in size) spans ≡ true
unfolding kept_spans
kept_spans-lies_in kind size [] spans h = ap (all (lies_in size)) (sym (ok-injective h))
kept_spans-lies_in kind size (m ∷ found) spans h =
    elim (Bool-cases (same_type m.entity_type kind)) [
      | inr t ↦ kept_spans-lies_in kind size found spans (rw (kept_spans, t) at h)
      | inl t ↦ elim (Bool-cases (is_within m.start m.end size)) [
        | inr w ↦ let bad : raise detection_error ≡ ok spans = rw (kept_spans, t, w) at h in cc
        | inl w ↦
            let h' : (new_span m.start m.end kind 2 >>= λ span.
            kept_spans kind size found >>= λ rest. ok (span ∷ rest))
                ≡ ok spans =
              rw (kept_spans, t, w) at h in
            let (span, made, h'') = >>=-eq-ok (new_span m.start m.end kind 2) _ h' in
            let (rest, ran, out) = >>=-eq-ok (kept_spans kind size found) _ h'' in
            let first = new_span-lies_in m.start m.end kind size span w made in
            let others = kept_spans-lies_in kind size found rest ran in
            ap (all (lies_in size)) (sym (ok-injective out)) ∙ ground (arith, first, others)
      ]
    ]

module _ (find_entities : Text → Result (List ModelEntityMatch)) (text : Text) where
  tier2_detect-lies_in :
      (kind : EntityType) (spans : List Span)
      → tier2_detect find_entities kind text ≡ ok spans
      → all (lies_in (length text)) spans ≡ true
  unfolding tier2_detect
  tier2_detect-lies_in kind spans h =
      let (found, e, k) = >>=-eq-ok (find_entities text) _ h in
      kept_spans-lies_in kind (length text) found spans k

  abbrev AllWithin : List (Text → Result (List Span)) → Type 0
  AllWithin detectors =
      (lists : List (List Span))
      → detect_all detectors text ≡ ok lists
      → all (all (lies_in (length text))) lists ≡ true

  no_detector : AllWithin []
  unfolding detect_all
  no_detector lists h = ap (all (all (lies_in (length text)))) (sym (ok-injective h))

  next_detector :
      (kind : EntityType) (detectors : List (Text → Result (List Span)))
      → AllWithin detectors
      → AllWithin (tier2_detect find_entities kind ∷ detectors)
  unfolding detect_all
  next_detector kind detectors rest lists h =
      let (spans, e, k) = >>=-eq-ok (tier2_detect find_entities kind text) _ h in
      let (others, e', out) = >>=-eq-ok (detect_all detectors text) _ k in
      let first = tier2_detect-lies_in kind spans e in
      let more = rest others e' in
      ap (all (all (lies_in (length text)))) (sym (ok-injective out)) ∙ ground (arith, first, more)

  guarded-within :
      (mode : FailMode) (detectors : List (Text → Result (List Span))) (lists : List (List Span))
      → AllWithin detectors
      → guarded mode (detect_all detectors text) ≡ ok lists
      → all (all (lies_in (length text))) lists ≡ true
  unfolding guarded resolve_failure
  guarded-within mode detectors lists within h = by_outcome (detect_all detectors text) refl mode h
    where
      by_outcome :
          (out : Result (List (List Span)))
          → detect_all detectors text ≡ out
          → (m : FailMode) → guarded m out ≡ ok lists
          → all (all (lies_in (length text))) lists ≡ true
      by_outcome (ok found) e m k = within lists (e ∙ k)
      by_outcome (raise x) e open_mode k =
          ap (all (all (lies_in (length text)))) (sym (ok-injective k))
      by_outcome (raise x) e closed_mode k = cc

  -- What the cascade returns over tier 1 detectors that stay in the text, and over whatever a model finds: the
  -- spans that the session has not minted, from the last to the first, lie in the text, hold a
  -- character each, and do not overlap, which is the condition of the splicing. The model's offsets may
  -- be wrong in any way, and its call may raise, in either mode.
  pub detect-IsDescending :
      (tier1 : List (Text → List Span)) (session : Session) (mode : FailMode)
      (spans : List ResolvedSpan)
      → all (λ (detector : Text → List Span). all (lies_in (length text)) (detector text)) tier1
        ≡ true
      → detect tier1 (get_tier2_detectors find_entities) text session mode ≡ ok spans
      → IsDescending (length text) (fresh_spans (last_first spans))
        × (all (lies_in (length text)) (fresh_spans (last_first spans)) ≡ true)
  unfolding detect get_tier2_detectors
  detect-IsDescending tier1 session mode spans own found =
      let detectors = get_tier2_detectors find_entities in
      let (lists, e, out) = >>=-eq-ok (guarded mode (detect_all detectors text)) _ found in
      let within : AllWithin detectors =
        next_detector _ _ (next_detector _ _ (next_detector _ _ no_detector)) in
      subst
        (λ (x : List ResolvedSpan).
          IsDescending (length text) (fresh_spans (last_first x))
          × (all (lies_in (length text)) (fresh_spans (last_first x)) ≡ true))
        (ok-injective out)
        (marked-IsDescending text session
          (map (λ (detector : Text → List Span). detector text) tier1) lists (mapped tier1 own)
          (guarded-within mode detectors lists within e))
    where
      mapped :
          (detectors : List (Text → List Span))
          → all
              (λ (detector : Text → List Span). all (lies_in (length text)) (detector text))
              detectors
            ≡ true
          → all
              (all (lies_in (length text)))
              (map (λ (detector : Text → List Span). detector text) detectors)
            ≡ true
      mapped [] h = refl
      mapped (d ∷ detectors) h = ground (arith, h, mapped detectors (ground (arith, h)))

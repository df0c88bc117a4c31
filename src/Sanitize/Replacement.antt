-- ===== src/Sanitize/Replacement.antt =====
-- The text that the sanitizing of a region returns (src/pipeline/sanitize.py): the splices from the
-- right leave the offsets of the spans to the left, and the text between the spans, as they were.
use local_first_llm_privacy.Common.{
  ℕ, zero, suc, ◌≤◌, Bool, true, false, List, [], ◌∷◌, ◌++◌, length, take, drop, is_nil, none, some,
  Bool-cases, Result-cases, inl, inr, Result, ok, raise, ok-injective, ◌>>=◌, >>=-eq-ok,
  if◌then◌else◌, ◌≡◌, refl, sym, ap, ap₂, ◌∙◌, arith, length-take,
}
use local_first_llm_privacy.Common.Chars.{Text}
use local_first_llm_privacy.Common.Bytes.{Bytes}
use local_first_llm_privacy.Sessions.{Session, Shuffler}
use local_first_llm_privacy.Precedence.{Span}
use local_first_llm_privacy.Cascade.{ResolvedSpan, span_text}
use local_first_llm_privacy.Sanitize.{
  Registry, Pools, splice, last_first, surrogate_for, sanitize_loop, sanitize_region,
}

-- The text up to `bound`, with each span, given from the right, exchanged for its text; `tail` follows.
-- Every other part is cut from `text` itself.
unfoldable pub replaced : Text → ℕ → List Span → List Text → Text → Text
replaced text bound [] surrogates tail = take bound text ++ tail
replaced text bound (span ∷ spans) [] tail = take bound text ++ tail
replaced text bound (span ∷ spans) (s ∷ surrogates) tail =
    replaced text span.start spans surrogates (s ++ (drop span.end (take bound text) ++ tail))

-- The spans lie before the bound, each before the one that is given before it.
unfoldable pub IsDescending : ℕ → List Span → Type 0
IsDescending bound [] = Unit {0}
IsDescending bound (span ∷ spans) =
    (span.start ≤ span.end) × (span.end ≤ bound) × IsDescending span.start spans

-- The spans that the session has not minted.
unfoldable pub fresh_spans : List ResolvedSpan → List Span
fresh_spans [] = []
fresh_spans (r ∷ spans) =
    let rest = fresh_spans spans in if r.is_ingress_surrogate then rest else r.span ∷ rest

take_prefix :
    (i b : ℕ) (text tail : Text)
    → i ≤ b
    → b ≤ length text
    → take i (take b text ++ tail) ≡ take i text
take_prefix zero b text tail low high = refl
take_prefix (suc i) zero text tail low high = absurd (omega arith)
take_prefix (suc i) (suc b) [] tail low high = absurd (omega arith)
take_prefix (suc i) (suc b) (c ∷ text) tail low high =
    ap (◌∷◌ c) (take_prefix i b text tail (omega arith) (omega arith))

drop_prefix : (e : ℕ) (xs tail : Text) → e ≤ length xs → drop e (xs ++ tail) ≡ drop e xs ++ tail
drop_prefix zero xs tail h = refl
drop_prefix (suc e) [] tail h = absurd (omega arith)
drop_prefix (suc e) (c ∷ xs) tail h = drop_prefix e xs tail (omega arith)

splice-take :
    (text : Text) (b : ℕ) (span : Span) (tail s : Text)
    → span.start ≤ span.end
    → span.end ≤ b
    → b ≤ length text
    → splice (take b text ++ tail) span s
      ≡ take span.start text ++ (s ++ (drop span.end (take b text) ++ tail))
unfolding splice
splice-take text b span tail s whole below high =
    let inside : span.end ≤ length (take b text) = omega (arith, length-take b text) in
    ap₂ (λ l r. l ++ (s ++ r)) (take_prefix span.start b text tail (omega arith) high)
      (drop_prefix span.end (take b text) tail inside)

whole_text : (text : Text) → text ≡ take (length text) text ++ []
whole_text [] = refl
whole_text (c ∷ text) = ap (◌∷◌ c) (whole_text text)

kept :
    (t : Text) (changed : Bool) (out : Text)
    → ok (if changed then some t else none) ≡ ok (some out)
    → t ≡ out
kept t true out h = cc
kept t false out h = cc

module _ {Rng : Type 0} (random : Shuffler Rng) (pools : Pools) (domains : Registry)
    (key : Bytes) where
  abbrev minted_for : Text → ℕ → Session → Rng → Span → Result Text × Session × Rng
  minted_for text now session rng span =
      surrogate_for random pools domains key session rng now span.entity_type (span_text text span)

  -- The surrogates that the calls give for the spans, one call after the other, each in the session
  -- and with the generator that the call before it left.
  pub data IsMinted (text : Text) (now : ℕ) : Session → Rng → List Span → List Text → Type 0 where
    all_minted : {session : Session} {rng : Rng} → IsMinted text now session rng [] []
    next_minted :
        {session session' : Session} {rng rng' : Rng} {span : Span} {s : Text} {spans : List Span}
        {surrogates : List Text}
        → minted_for text now session rng span ≡ (ok s, session', rng')
        → IsMinted text now session' rng' spans surrogates
        → IsMinted text now session rng (span ∷ spans) (s ∷ surrogates)

  loop-returns :
      (text : Text) (now : ℕ) (spans : List ResolvedSpan) (b : ℕ) (tail : Text) (new_text : Text)
      (changed : Bool) (session : Session) (rng : Rng) (out : Text × Bool)
      → new_text ≡ take b text ++ tail
      → IsDescending b (fresh_spans spans)
      → b ≤ length text
      → (sanitize_loop random pools domains key text now spans new_text changed session rng).0
        ≡ ok out
      → (surrogates : List Text) × IsMinted text now session rng (fresh_spans spans) surrogates
        × (out.0 ≡ replaced text b (fresh_spans spans) surrogates tail)
  unfolding sanitize_loop fresh_spans replaced IsDescending
  loop-returns text now [] b tail new_text changed session rng out same down high returned =
      ([], all_minted, ap (λ r. r.0) (sym (ok-injective returned)) ∙ same)
  loop-returns text now (r ∷ spans) b tail new_text changed session rng out same down high
        returned =
      elim (Bool-cases r.is_ingress_surrogate) [
        | inl e ↦
            let down' : IsDescending b (fresh_spans spans) = rw e at down in
            let returned' = rw e at returned in
            rw e (
              loop-returns text now spans b tail new_text changed session rng out same down' high
                returned')
        | inr e ↦
            let down' : (r.span.start ≤ r.span.end)
                × (r.span.end ≤ b)
                × IsDescending r.span.start (fresh_spans spans) =
              rw e at down in
            let (whole, below, rest) = down' in
            let mint = minted_for text now session rng r.span in
            elim (Result-cases mint.0) [
              | inl (s, m) ↦
                  let returned' : (sanitize_loop random pools domains key text now spans
                        (splice new_text r.span s) true mint.1 mint.2).0
                      ≡ ok out =
                    rw (e, sanitize_loop, m) at returned in
                  let spliced =
                    ap (λ t. splice t r.span s) same
                    ∙ splice-take text b r.span tail s whole below high in
                  let (surrogates, minted, e') =
                    loop-returns text now spans r.span.start
                      (s ++ (drop r.span.end (take b text) ++ tail)) (splice new_text r.span s) true
                      mint.1 mint.2 out spliced rest (omega arith) returned' in
                  rw e (s ∷ surrogates, next_minted (ap (λ x. (x, mint.1, mint.2)) m) minted, e')
              | inr (x, m) ↦
                  let bad : raise x ≡ ok out = rw (e, sanitize_loop, m) at returned in
                  absurd (ground (arith, bad))
            ]
      ]

  -- A region that is returned changed is its own text, with each span that the session had not minted
  -- exchanged for the surrogate minted for the span's value, from the last span to the first, and
  -- nothing else changed, when these spans, from the last to the first, lie in the text and do not
  -- overlap.
  pub sanitize_region-replaced :
      (detect_spans : Text → Session → Result (List ResolvedSpan)) (text : Text) (now : ℕ)
      (spans : List ResolvedSpan) (session : Session) (rng : Rng) (out : Text)
      → detect_spans text session ≡ ok spans
      → IsDescending (length text) (fresh_spans (last_first spans))
      → (sanitize_region random pools domains key detect_spans text now session rng).0
        ≡ ok (some out)
      → (surrogates : List Text) × IsMinted text now session rng
          (fresh_spans (last_first spans))
          surrogates
        × (out ≡ replaced text (length text) (fresh_spans (last_first spans)) surrogates [])
  unfolding sanitize_region
  sanitize_region-replaced detect_spans text now spans session rng out found down returned =
      elim (Bool-cases (is_nil spans)) [
        | inl e ↦
            let bad : ok none ≡ ok (some out) = rw (sanitize_region, found, e) at returned in
            absurd (ground (arith, bad))
        | inr e ↦
            let loop =
              sanitize_loop random pools domains key text now (last_first spans) text false session
                rng in
            let ran : (loop.0 >>= λ r. ok (if r.1 then some r.0 else none)) ≡ ok (some out) =
              rw (sanitize_region, found, e) at returned in
            let ((t, changed), run, whole) =
              >>=-eq-ok loop.0 (λ r. ok (if r.1 then some r.0 else none)) ran in
            let (surrogates, minted, e') =
              loop-returns text now (last_first spans) (length text) [] text false session rng
                (t, changed) (whole_text text) down (omega arith) run in
            (surrogates, minted, sym (kept t changed out whole) ∙ e')
      ]

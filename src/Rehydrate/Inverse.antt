-- ===== src/Rehydrate/Inverse.antt =====
-- Rehydration after sanitization (src/pipeline/rehydrate.py and src/pipeline/sanitize.py).
use local_first_llm_privacy.Common.{
  ℕ, zero, suc, ◌+◌, ◌-◌, ◌≤◌, true, not, List, [], ◌∷◌, ◌++◌, length, take, drop, all, is_nil,
  some, Result, ok, ◌≡◌, refl, sym, ap, ◌∙◌, arith, append_assoc, append-nil,
}
use local_first_llm_privacy.Common.Chars.{Text}
use local_first_llm_privacy.Common.Bytes.{Bytes}
use local_first_llm_privacy.Sessions.{Session, Shuffler, known_surrogate_snapshot}
use local_first_llm_privacy.Precedence.{Span}
use local_first_llm_privacy.Cascade.{ResolvedSpan, span_text}
use local_first_llm_privacy.Sanitize.{Registry, Pools, last_first, sanitize_region}
use local_first_llm_privacy.Sanitize.Replacement.{
  replaced, IsDescending, fresh_spans, IsMinted, sanitize_region-replaced,
}
use local_first_llm_privacy.Rehydrate.{real_value, rehydrate}
use local_first_llm_privacy.Rehydrate.Pieces.{
  Piece, literal, stand_in, with_surrogates, with_values, is_readable, known_names, Resolve,
  rehydrate-pieces,
}

-- The sanitized text in parts: each surrogate stands for the text of its span.
unfoldable pub pieces_of : Text → ℕ → List Span → List Text → List Piece → List Piece
pieces_of text bound [] surrogates tail = literal (take bound text) ∷ tail
pieces_of text bound (span ∷ spans) [] tail = literal (take bound text) ∷ tail
pieces_of text bound (span ∷ spans) (s ∷ surrogates) tail =
    pieces_of text span.start spans surrogates
      (stand_in s (span_text text span) ∷ literal (drop span.end (take bound text)) ∷ tail)

pieces_of-surrogates :
    (text : Text) (bound : ℕ) (spans : List Span) (surrogates : List Text) (tail : List Piece)
    → with_surrogates (pieces_of text bound spans surrogates tail)
      ≡ replaced text bound spans surrogates (with_surrogates tail)
unfolding pieces_of replaced with_surrogates
pieces_of-surrogates text bound [] surrogates tail = refl
pieces_of-surrogates text bound (span ∷ spans) [] tail = refl
pieces_of-surrogates text bound (span ∷ spans) (s ∷ surrogates) tail =
    pieces_of-surrogates text span.start spans surrogates
      (stand_in s (span_text text span) ∷ literal (drop span.end (take bound text)) ∷ tail)

drop-take_split :
    (e b : ℕ) (text : Text) → e ≤ b → take e text ++ drop e (take b text) ≡ take b text
drop-take_split zero b text h = refl
drop-take_split (suc e) zero text h = absurd (omega arith)
drop-take_split (suc e) (suc b) [] h = refl
drop-take_split (suc e) (suc b) (c ∷ text) h = ap (◌∷◌ c) (drop-take_split e b text (omega arith))

take-span : (i k : ℕ) (text : Text) → take i text ++ take k (drop i text) ≡ take (i + k) text
take-span zero k text = let e : k ≡ 0 + k = omega arith in ap (λ n. take n text) e
take-span (suc i) zero [] = let e : suc i ≡ suc i + 0 = omega arith in ap (λ n. take n []) e
take-span (suc i) (suc k) [] =
    let e : suc (i + suc k) ≡ suc i + suc k = omega arith in ap (λ n. take n []) e
take-span (suc i) k (c ∷ text) =
    let e : suc (i + k) ≡ suc i + k = omega arith in
    ap (◌∷◌ c) (take-span i k text) ∙ ap (λ n. take n (c ∷ text)) e

span_restored :
    (text tail : Text) (bound : ℕ) (span : Span)
    → span.start ≤ span.end
    → span.end ≤ bound
    → take span.start text ++ (span_text text span ++ (drop span.end (take bound text) ++ tail))
      ≡ take bound text ++ tail
unfolding span_text
span_restored text tail bound span whole below =
    let there : span.start + (span.end - span.start) ≡ span.end = omega arith in
    let middle = take (span.end - span.start) (drop span.start text) in
    let rest = drop span.end (take bound text) in
    sym (append_assoc (take span.start text) middle (rest ++ tail))
    ∙ ap (λ x. x ++ (rest ++ tail))
        (take-span span.start (span.end - span.start) text ∙ ap (λ k. take k text) there)
    ∙ sym (append_assoc (take span.end text) rest tail)
    ∙ ap (λ x. x ++ tail) (drop-take_split span.end bound text below)

pieces_of-values :
    (text : Text) (bound : ℕ) (spans : List Span) (surrogates : List Text) (tail : List Piece)
    → IsDescending bound spans
    → with_values (pieces_of text bound spans surrogates tail) ≡ take bound text ++ with_values tail
unfolding pieces_of with_values IsDescending
pieces_of-values text bound [] surrogates tail down = refl
pieces_of-values text bound (span ∷ spans) [] tail down = refl
pieces_of-values text bound (span ∷ spans) (s ∷ surrogates) tail (whole, below, down) =
    pieces_of-values text span.start spans surrogates
      (stand_in s (span_text text span) ∷ literal (drop span.end (take bound text)) ∷ tail) down
    ∙ span_restored text (with_values tail) bound span whole below

take_all : (text : Text) → take (length text) text ≡ text
take_all [] = refl
take_all (c ∷ text) = ap (◌∷◌ c) (take_all text)

module _ {Rng : Type 0} (random : Shuffler Rng) (pools : Pools) (domains : Registry)
    (key : Bytes) where
  -- What a reply needs to be read in a session: the surrogates give the values of their spans, and no
  -- known surrogate begins elsewhere in the text.
  pub record IsReversible (text : Text) (spans : List Span) (surrogates : List Text)
      (later : Session) : Type 0 where
    pub full : all (λ t. not (is_nil t)) (known_names later) ≡ true
    pub readable :
        is_readable (known_names later) (pieces_of text (length text) spans surrogates []) ≡ true
    pub resolved :
        Resolve
          (real_value domains key (known_surrogate_snapshot later) later)
          (pieces_of text (length text) spans surrogates [])

  -- A region that was sanitized, read back in a later session, is the text that it was before, when its
  -- fresh spans, from the last to the first, lie in the text and do not overlap, and whatever
  -- surrogates were minted for them can be read in the later session: each gives the value of its span
  -- there, none is empty or overtaken by a longer one, and none begins elsewhere in the text.
  pub rehydrate-sanitize_region :
      (detect_spans : Text → Session → Result (List ResolvedSpan)) (text : Text) (now : ℕ)
      (spans : List ResolvedSpan) (session later : Session) (rng : Rng) (out : Text)
      → detect_spans text session ≡ ok spans
      → IsDescending (length text) (fresh_spans (last_first spans))
      → (sanitize_region random pools domains key detect_spans text now session rng).0
        ≡ ok (some out)
      → ((surrogates : List Text)
          → IsMinted random pools domains key text now session rng
              (fresh_spans (last_first spans))
              surrogates
          → IsReversible text (fresh_spans (last_first spans)) surrogates later)
      → rehydrate domains key out later ≡ ok text
  unfolding with_surrogates with_values
  rehydrate-sanitize_region detect_spans text now spans session later rng out found down returned
        reversible =
      let fresh = fresh_spans (last_first spans) in
      let (surrogates, minted, e) =
        sanitize_region-replaced random pools domains key detect_spans text now spans session rng
          out found down returned in
      let pieces = pieces_of text (length text) fresh surrogates [] in
      let reads = reversible surrogates minted in
      ap (λ t. rehydrate domains key t later)
        (e ∙ sym (pieces_of-surrogates text (length text) fresh surrogates []))
      ∙ rehydrate-pieces domains key later pieces reads.full reads.readable reads.resolved
      ∙ ap ok (
          pieces_of-values text (length text) fresh surrogates [] down
          ∙ append-nil (take (length text) text)
          ∙ take_all text)

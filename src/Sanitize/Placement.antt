-- ===== src/Sanitize/Placement.antt =====
-- Where the resolved spans lie in their text (src/detect/cascade.py), which is what the splicing of a region
-- relies on (src/pipeline/sanitize.py).
use local_first_llm_privacy.Common.{
  ℕ, ◌+◌, ltb, leb, Bool, true, false, ◌&&◌, not, any, all, List, [], ◌∷◌, ◌++◌, map, length, ◌≡◌,
  refl, ◌∙◌, arith, Bool-cases, inl, inr, all-append,
}
use local_first_llm_privacy.Common.Chars.{Text}
use local_first_llm_privacy.Common.Sorting.{
  insert, sort, is_sorted, sort-is_sorted, all-sort, any-sort, any-insert,
}
use local_first_llm_privacy.Sessions.{Session}
use local_first_llm_privacy.Precedence.{
  Span, Item, spans_overlap, indexed, priority_le, accept, start_le, resolve,
}
use local_first_llm_privacy.Precedence.Resolution.{is_disjoint, overlap_symm, resolve-is_disjoint}
use local_first_llm_privacy.Cascade.{ResolvedSpan, mark}
use local_first_llm_privacy.Sanitize.{last_first}
use local_first_llm_privacy.Sanitize.Replacement.{IsDescending, fresh_spans}

-- The span holds a character, and ends in a text of that length.
abbrev pub lies_in : ℕ → Span → Bool
lies_in size s = ltb s.start s.end && leb s.end size

accept-all :
    (p : Span → Bool) (accepted : List Span) (ranked : List Item)
    → all p accepted ≡ true
    → all (λ it. p it.0) ranked ≡ true
    → all p (accept accepted ranked) ≡ true
unfolding accept
accept-all p accepted [] h k = h
accept-all p accepted ((s, i) ∷ ranked) h k = elim (Bool-cases (any (spans_overlap s) accepted)) [
  | inl e ↦ rw e (accept-all p accepted ranked h (ground (arith, k)))
  | inr e ↦
      let more : all p (accepted ++ (s ∷ [])) ≡ true =
        all-append p accepted (s ∷ []) ∙ ground (arith, h, k) in
      rw e (accept-all p (accepted ++ (s ∷ [])) ranked more (ground (arith, k)))
]

paired-all :
    (p : Span → Bool) (i : ℕ) (spans : List Span)
    → all p spans ≡ true
    → all (λ (it : Item). p it.0) (map (λ span. (span, i)) spans) ≡ true
paired-all p i [] h = refl
paired-all p i (s ∷ spans) h = ground (arith, h, paired-all p i spans)

indexed-all :
    (p : Span → Bool) (i : ℕ) (lists : List (List Span))
    → all (all p) lists ≡ true
    → all (λ it. p it.0) (indexed i lists) ≡ true
unfolding indexed
indexed-all p i [] h = refl
indexed-all p i (spans ∷ lists) h =
    all-append (λ it. p it.0) (map (λ span. (span, i)) spans) (indexed (i + 1) lists)
    ∙ ground (
      arith,
      paired-all p i spans (ground (arith, h)),
      indexed-all p (i + 1) lists (ground (arith, h)),
    )

resolve-all :
    (p : Span → Bool) (lists : List (List Span))
    → all (all p) lists ≡ true
    → all p (resolve lists) ≡ true
unfolding resolve
resolve-all p lists h =
    all-sort start_le p (accept [] (sort priority_le (indexed 0 lists)))
    ∙ accept-all p [] (sort priority_le (indexed 0 lists)) refl
        (all-sort priority_le (λ it. p it.0) (indexed 0 lists) ∙ indexed-all p 0 lists h)

abbrev later_first : ResolvedSpan → ResolvedSpan → Bool
later_first a b = leb b.span.start a.span.start

abbrev meets : ResolvedSpan → ResolvedSpan → Bool
meets a b = spans_overlap a.span b.span

-- No two spans of a list overlap.
are_apart : List ResolvedSpan → Bool
are_apart [] = true
are_apart (r ∷ spans) = not (any (meets r) spans) && are_apart spans

insert-are_apart :
    (r : ResolvedSpan) (spans : List ResolvedSpan)
    → are_apart (insert later_first r spans) ≡ are_apart (r ∷ spans)
unfolding insert are_apart
insert-are_apart r [] = refl
insert-are_apart r (t ∷ spans) = elim (Bool-cases (later_first r t)) [
  | inl e ↦ rw e refl
  | inr e ↦
      let here = any-insert later_first (meets t) r spans in
      let rest = insert-are_apart r spans in
      let flip = overlap_symm r.span t.span in rw e (ground (arith, here, rest, flip))
]

sort-are_apart : (spans : List ResolvedSpan) → are_apart (sort later_first spans) ≡ are_apart spans
unfolding sort are_apart
sort-are_apart [] = refl
sort-are_apart (r ∷ spans) =
    let rest = sort-are_apart spans in
    let same = any-sort later_first (meets r) spans in
    insert-are_apart r (sort later_first spans) ∙ rw (are_apart, rest, same) refl

any-mark :
    (session : Session) (text : Text) (s : Span) (spans : List Span)
    → any (meets (mark session text s)) (map (mark session text) spans)
      ≡ any (spans_overlap s) spans
unfolding mark
any-mark session text s [] = refl
any-mark session text s (t ∷ spans) = ground (arith, any-mark session text s spans)

mark-are_apart :
    (session : Session) (text : Text) (spans : List Span)
    → are_apart (map (mark session text) spans) ≡ is_disjoint spans
unfolding are_apart is_disjoint
mark-are_apart session text [] = refl
mark-are_apart session text (s ∷ spans) =
    ground (arith, any-mark session text s spans, mark-are_apart session text spans)

all-mark :
    (p : Span → Bool) (session : Session) (text : Text) (spans : List Span)
    → all (λ r. p r.span) (map (mark session text) spans) ≡ all p spans
unfolding mark
all-mark p session text [] = refl
all-mark p session text (s ∷ spans) = ground (arith, all-mark p session text spans)

-- What lies before a span of a later start, apart from it, ends where that begins.
all_before :
    (r : ResolvedSpan) (size : ℕ) (spans : List ResolvedSpan)
    → lies_in size r.span ≡ true
    → all (later_first r) spans ≡ true
    → any (meets r) spans ≡ false
    → all (λ x. lies_in size x.span) spans ≡ true
    → all (λ x. lies_in r.span.start x.span) spans ≡ true
unfolding spans_overlap
all_before r size [] here later apart inside = refl
all_before r size (x ∷ spans) here later apart inside =
    let rest =
      all_before r size spans here (ground (arith, later)) (ground (arith, apart))
        (ground (arith, inside)) in
    ground (arith, rest, here, later, apart, inside)

fresh-IsDescending :
    (size : ℕ) (spans : List ResolvedSpan)
    → is_sorted later_first spans ≡ true
    → are_apart spans ≡ true
    → all (λ x. lies_in size x.span) spans ≡ true
    → IsDescending size (fresh_spans spans)
unfolding is_sorted are_apart IsDescending fresh_spans
fresh-IsDescending size [] sorted apart inside = tt
fresh-IsDescending size (r ∷ spans) sorted apart inside =
    let sorted' : is_sorted later_first spans ≡ true = ground (arith, sorted) in
    let apart' : are_apart spans ≡ true = ground (arith, apart) in
    let inside' : all (λ x. lies_in size x.span) spans ≡ true = ground (arith, inside) in
    let mine : lies_in size r.span ≡ true = ground (arith, inside) in
    elim (Bool-cases r.is_ingress_surrogate) [
      | inl e ↦ rw e (fresh-IsDescending size spans sorted' apart' inside')
      | inr e ↦
          let before =
            all_before r size spans mine (ground (arith, sorted)) (ground (arith, apart)) inside' in
          rw e (
            ground (arith, mine),
            ground (arith, mine),
            fresh-IsDescending r.span.start spans sorted' apart' before,
          )
    ]

all-fresh_spans :
    (p : Span → Bool) (spans : List ResolvedSpan)
    → all (λ r. p r.span) spans ≡ true
    → all p (fresh_spans spans) ≡ true
unfolding fresh_spans
all-fresh_spans p [] h = refl
all-fresh_spans p (r ∷ spans) h = elim (Bool-cases r.is_ingress_surrogate) [
  | inl e ↦ rw e (all-fresh_spans p spans (ground (arith, h)))
  | inr e ↦ rw e (ground (arith, h, all-fresh_spans p spans (ground (arith, h))))
]

-- The spans that `resolve` makes of spans in the text are placed as the splicing needs them, and each of them
-- holds a character.
pub marked-IsDescending :
    (text : Text) (session : Session) (own others : List (List Span))
    → all (all (lies_in (length text))) own ≡ true
    → all (all (lies_in (length text))) others ≡ true
    → IsDescending
        (length text)
        (fresh_spans (last_first (map (mark session text) (resolve (own ++ others)))))
      × (all
            (lies_in (length text))
            (fresh_spans (last_first (map (mark session text) (resolve (own ++ others)))))
          ≡ true)
unfolding last_first
marked-IsDescending text session own others h k =
    let spans = resolve (own ++ others) in
    let marked = map (mark session text) spans in
    let size = length text in
    let inside : all (lies_in size) spans ≡ true =
      resolve-all (lies_in size) (own ++ others)
        (all-append (all (lies_in size)) own others ∙ ground (arith, h, k)) in
    let placed : all (λ (r : ResolvedSpan). lies_in size r.span) (sort later_first marked) ≡ true =
      all-sort later_first (λ x. lies_in size x.span) marked
      ∙ all-mark (lies_in size) session text spans
      ∙ inside in
    (
      fresh-IsDescending size (sort later_first marked)
          (sort-is_sorted later_first (λ x y e. ground (arith, e))
            (λ x y z e e'. ground (arith, e, e')) marked)
          (sort-are_apart marked
            ∙ mark-are_apart session text spans
            ∙ (resolve-is_disjoint (own ++ others)).0)
          placed,
      all-fresh_spans (lies_in size) (sort later_first marked) placed,
    )

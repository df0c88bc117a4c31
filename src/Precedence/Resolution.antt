-- ===== src/Precedence/Resolution.antt =====
-- What the overlap rule promises of its result (src/detect/precedence.py).
use local_first_llm_privacy.Common.{
  ℕ, ◌+◌, ltb, leb, ◌==◌, Bool, true, false, ◌&&◌, ◌||◌, not, any, all, List, [], ◌∷◌, ◌++◌, map,
  ◌≡◌, refl, sym, ap, subst, ◌∙◌, arith, Bool-cases, inl, inr, all-append, any-append,
}
use local_first_llm_privacy.Common.Sorting.{
  insert, sort, is_sorted, any-sort, all-sort, any-insert, all-implies, sort-is_sorted,
}
use local_first_llm_privacy.Precedence.{
  Span, Item, extent, spans_overlap, indexed, priority_le, accept, start_le, resolve,
}

-- No span overlaps a later one.
unfoldable pub is_disjoint : List Span → Bool
is_disjoint [] = true
is_disjoint (s ∷ spans) = not (any (spans_overlap s) spans) && is_disjoint spans

pub overlap_symm : (a b : Span) → spans_overlap a b ≡ spans_overlap b a
unfolding spans_overlap
overlap_symm a b = ground arith

insert-is_disjoint :
    (s : Span) (spans : List Span) → is_disjoint (insert start_le s spans) ≡ is_disjoint (s ∷ spans)
unfolding insert is_disjoint
insert-is_disjoint s [] = refl
insert-is_disjoint s (t ∷ spans) = elim (Bool-cases (start_le s t)) [
  | inl e ↦ rw e refl
  | inr e ↦
      let here = any-insert start_le (spans_overlap t) s spans in
      let rest = insert-is_disjoint s spans in
      let flip = overlap_symm s t in rw e (ground (arith, here, rest, flip))
]

sort-is_disjoint : (spans : List Span) → is_disjoint (sort start_le spans) ≡ is_disjoint spans
unfolding sort is_disjoint
sort-is_disjoint [] = refl
sort-is_disjoint (s ∷ spans) =
    let rest = sort-is_disjoint spans in
    let same = any-sort start_le (spans_overlap s) spans in
    insert-is_disjoint s (sort start_le spans) ∙ rw (is_disjoint, rest, same) refl

append-is_disjoint :
    (spans : List Span) (s : Span)
    → is_disjoint spans ≡ true
    → any (spans_overlap s) spans ≡ false
    → is_disjoint (spans ++ (s ∷ [])) ≡ true
unfolding is_disjoint
append-is_disjoint [] s h apart = refl
append-is_disjoint (t ∷ spans) s h apart =
    let flip = overlap_symm s t in
    let rest = append-is_disjoint spans s in
    let end = any-append (spans_overlap t) spans (s ∷ []) in ground (arith, flip, rest, end)

accept-is_disjoint :
    (accepted : List Span) (ranked : List Item)
    → is_disjoint accepted ≡ true
    → is_disjoint (accept accepted ranked) ≡ true
unfolding accept
accept-is_disjoint accepted [] h = h
accept-is_disjoint accepted ((s, i) ∷ ranked) h =
    elim (Bool-cases (any (spans_overlap s) accepted)) [
      | inl e ↦ rw e (accept-is_disjoint accepted ranked h)
      | inr e ↦
          rw e
            (accept-is_disjoint (accepted ++ (s ∷ [])) ranked (append-is_disjoint accepted s h e))
    ]

start_le-total : (x y : Span) → start_le x y ≡ false → start_le y x ≡ true
start_le-total x y h = ground arith

start_le_trans : (x y z : Span) → start_le x y ≡ true → start_le y z ≡ true → start_le x z ≡ true
start_le_trans x y z h k = ground arith

-- The resolved spans come in the order of their starts, and no two of them overlap.
pub resolve-is_disjoint :
    (spans_per_detector : List (List Span))
    → (is_disjoint (resolve spans_per_detector) ≡ true)
      × (is_sorted start_le (resolve spans_per_detector) ≡ true)
unfolding resolve is_disjoint
resolve-is_disjoint spans_per_detector = (
  sort-is_disjoint _ ∙ accept-is_disjoint [] _ refl,
  sort-is_sorted start_le start_le-total start_le_trans _,
)

-- The span that wins a conflict has a lower tier, or the same tier and no smaller length.
unfoldable pub outranks : Span → Span → Bool
outranks a b = ltb a.tier b.tier || ((a.tier == b.tier) && leb (extent b) (extent a))

priority_le-total : (x y : Item) → priority_le x y ≡ false → priority_le y x ≡ true
unfolding priority_le
priority_le-total (a, i) (b, j) h = ground arith

priority_le_trans :
    (x y z : Item) → priority_le x y ≡ true → priority_le y z ≡ true → priority_le x z ≡ true
unfolding priority_le
priority_le_trans (a, i) (b, j) (c, k) h h' = ground arith

priority_le-outranks :
    (a b : Span) (i j : ℕ) → priority_le (a, i) (b, j) ≡ true → outranks a b ≡ true
unfolding priority_le outranks
priority_le-outranks a b i j h = ground arith

unfoldable pub covers : Span → Span → Bool
covers s k = spans_overlap s k && outranks k s

accept-any :
    (p : Span → Bool) (accepted : List Span) (ranked : List Item)
    → any p accepted ≡ true
    → any p (accept accepted ranked) ≡ true
unfolding accept
accept-any p accepted [] h = h
accept-any p accepted ((s, i) ∷ ranked) h = elim (Bool-cases (any (spans_overlap s) accepted)) [
  | inl e ↦ rw e (accept-any p accepted ranked h)
  | inr e ↦
      let more : any p (accepted ++ (s ∷ [])) ≡ true =
        any-append p accepted (s ∷ []) ∙ ap (λ b. b || any p (s ∷ [])) h in
      rw e (accept-any p (accepted ++ (s ∷ [])) ranked more)
]

any-both :
    (p q : Span → Bool) (xs : List Span)
    → any p xs ≡ true
    → all q xs ≡ true
    → any (λ x. p x && q x) xs ≡ true
any-both p q [] h k = h
any-both p q (x ∷ xs) h k = ground (arith, any-both p q xs)

-- Every accepted span wins against every span still to come.
above : List Span → List Item → Bool
above accepted ranked = all (λ k. all (λ it. outranks k it.0) ranked) accepted

proper : Span → Bool
proper s = ltb s.start s.end

covers_refl : (s : Span) → proper s ≡ true → covers s s ≡ true
unfolding covers proper spans_overlap outranks
covers_refl s h = ground arith

above-tail :
    (accepted : List Span) (it : Item) (ranked : List Item)
    → above accepted (it ∷ ranked) ≡ true
    → (above accepted ranked ≡ true) × (all (λ k. outranks k it.0) accepted ≡ true)
unfolding above
above-tail accepted it ranked h = (
  all-implies start_le (λ k. outranks k it.0 && all (λ it. outranks k it.0) ranked)
      (λ k. all (λ it. outranks k it.0) ranked) accepted (λ k e. ground arith) h,
  all-implies start_le (λ k. outranks k it.0 && all (λ it. outranks k it.0) ranked)
      (λ k. outranks k it.0) accepted (λ k e. ground arith) h,
)

above-append :
    (accepted : List Span) (s : Span) (i : ℕ) (ranked : List Item)
    → above accepted ranked ≡ true
    → all (priority_le (s, i)) ranked ≡ true
    → above (accepted ++ (s ∷ [])) ranked ≡ true
unfolding above
above-append accepted s i ranked h ordered =
    let last : all (λ it. outranks s it.0) ranked ≡ true =
      all-implies priority_le (priority_le (s, i)) (λ it. outranks s it.0) ranked
        (λ it e. priority_le-outranks s it.0 i it.1 e) ordered in
    let split = all-append (λ k. all (λ it. outranks k it.0) ranked) accepted (s ∷ []) in
    ground (arith, split, last, h)

accept-covers :
    (accepted : List Span) (ranked : List Item)
    → is_sorted priority_le ranked ≡ true
    → above accepted ranked ≡ true
    → all (λ it. proper it.0) ranked ≡ true
    → all (λ it. any (covers it.0) (accept accepted ranked)) ranked ≡ true
unfolding accept is_sorted covers
accept-covers accepted [] ordered high whole = refl
accept-covers accepted ((s, i) ∷ ranked) ordered high whole =
    let front : all (priority_le (s, i)) ranked ≡ true = ground arith in
    let back : is_sorted priority_le ranked ≡ true = ground arith in
    let here : proper s ≡ true = ground arith in
    let rest : all (λ it. proper it.0) ranked ≡ true = ground arith in
    let (high', over) = above-tail accepted (s, i) ranked high in
    let covered : List Span → Type 0 =
      λ r. all {A = Item} (λ it. any (covers it.0) r) ((s, i) ∷ ranked) ≡ true in
    elim (Bool-cases (any (spans_overlap s) accepted)) [
      | inl e ↦
          let step : accept accepted ((s, i) ∷ ranked) ≡ accept accepted ranked = rw e refl in
          let found =
            accept-any (covers s) accepted ranked
              (any-both (spans_overlap s) (λ k. outranks k s) accepted e over) in
          let others = accept-covers accepted ranked back high' rest in
          subst covered (sym step) (ground (arith, found, others))
      | inr e ↦
          let step : accept accepted ((s, i) ∷ ranked) ≡ accept (accepted ++ (s ∷ [])) ranked =
            rw e refl in
          let added : any (covers s) (accepted ++ (s ∷ [])) ≡ true =
            ground (arith, any-append (covers s) accepted (s ∷ []), covers_refl s here) in
          let found = accept-any (covers s) (accepted ++ (s ∷ [])) ranked added in
          let others =
            accept-covers (accepted ++ (s ∷ [])) ranked back
              (above-append accepted s i ranked high' front) rest in
          subst covered (sym step) (ground (arith, found, others))
    ]

all-map :
    (P : Span → Bool) (i : ℕ) (spans : List Span)
    → all {A = Item} (λ it. P it.0) (map (λ s. (s, i)) spans) ≡ all P spans
all-map P i [] = refl
all-map P i (s ∷ spans) = ap (λ b. P s && b) (all-map P i spans)

all-indexed :
    (P : Span → Bool) (i : ℕ) (detected : List (List Span))
    → all (λ it. P it.0) (indexed i detected) ≡ all (all P) detected
unfolding indexed
all-indexed P i [] = refl
all-indexed P i (spans ∷ detected) =
    all-append (λ it. P it.0) (map (λ s. (s, i)) spans) (indexed (i + 1) detected)
    ∙ rw (all-map P i spans, all-indexed P (i + 1) detected) refl

-- Every detected span is overlapped by a resolved span of a lower tier, or of the same tier and no
-- smaller length (itself, when it was kept), when the detected spans are not empty.
pub resolve-covers :
    (detected : List (List Span))
    → all (all (λ s. ltb s.start s.end)) detected ≡ true
    → all (all (λ s. any (λ k. spans_overlap s k && outranks k s) (resolve detected))) detected
      ≡ true
unfolding resolve proper above covers
resolve-covers detected whole =
    let ranked = sort priority_le (indexed 0 detected) in
    let ordered =
      sort-is_sorted priority_le priority_le-total priority_le_trans (indexed 0 detected) in
    let all_proper : all (λ it. proper it.0) ranked ≡ true =
      all-sort priority_le (λ it. proper it.0) (indexed 0 detected)
      ∙ all-indexed proper 0 detected
      ∙ whole in
    let covered = accept-covers [] ranked ordered refl all_proper in
    let kept : all (λ it. any (covers it.0) (sort start_le (accept [] ranked))) ranked ≡ true =
      all-implies priority_le (λ it. any (covers it.0) (accept [] ranked))
        (λ it. any (covers it.0) (sort start_le (accept [] ranked))) ranked
        (λ it e. any-sort start_le (covers it.0) (accept [] ranked) ∙ e) covered in
    sym (all-indexed (λ s. any (covers s) (resolve detected)) 0 detected)
    ∙ sym (all-sort priority_le (λ it. any (covers it.0) (resolve detected)) (indexed 0 detected))
    ∙ kept

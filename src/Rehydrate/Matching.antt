-- ===== src/Rehydrate/Matching.antt =====
-- Which surrogate the pattern finds at the head of a text (src/pipeline/rehydrate.py, `_pattern_for`): the
-- longest one that the text begins with.
use local_first_llm_privacy.Common.{
  ◌≤◌, leb, Bool, true, false, ◌||◌, not, List, [], ◌∷◌, ◌++◌, length, any, all, none, some,
  Bool-cases, inl, inr, ◌≡◌, refl, sym, ap, ap₂, ◌∙◌, arith, text_eq, text_eq_refl, text_eq_sound,
}
use local_first_llm_privacy.Common.Chars.{Text}
use local_first_llm_privacy.Common.Sorting.{sort, is_sorted, sort-is_sorted, any-sort}
use local_first_llm_privacy.Rehydrate.{begins_with, match_at}

abbrev pub longer_first : Text → Text → Bool
longer_first a b = leb (length b) (length a)

abbrev pub is_among : Text → List Text → Bool
is_among s texts = any (text_eq s) texts

all-among :
    (p : Text → Bool) (s : Text) (texts : List Text)
    → all p texts ≡ true
    → is_among s texts ≡ true
    → p s ≡ true
all-among p s [] every here = absurd (ground (arith, here))
all-among p s (t ∷ texts) every here = elim (Bool-cases (text_eq s t)) [
  | inl e ↦ ap p (text_eq_sound s t e) ∙ ground (arith, every)
  | inr e ↦ all-among p s texts (ground (arith, every)) (ground (arith, here, e))
]

pub begins_with-append : (s rest : Text) → begins_with s (s ++ rest) ≡ true
unfolding begins_with
begins_with-append [] rest = refl
begins_with-append (c ∷ s) rest = ground (arith, begins_with-append s rest)

-- Two beginnings of a text of one length are one.
begins_with-same :
    (s t text : Text)
    → begins_with s text ≡ true
    → begins_with t text ≡ true
    → length s ≡ length t
    → s ≡ t
unfolding begins_with
begins_with-same [] [] text h h' same = refl
begins_with-same [] (d ∷ t) text h h' same = absurd (omega (arith, same))
begins_with-same (c ∷ s) [] text h h' same = absurd (omega (arith, same))
begins_with-same (c ∷ s) (d ∷ t) [] h h' same = cc
begins_with-same (c ∷ s) (d ∷ t) (e ∷ text) h h' same =
    let c-e : c ≡ e = ground (arith, h) in
    let d-e : d ≡ e = ground (arith, h') in
    ap₂ (◌∷◌) (c-e ∙ sym d-e)
      (begins_with-same s t text (ground (arith, h)) (ground (arith, h')) (omega (arith, same)))

pub match_at-none :
    (texts : List Text) (text : Text)
    → all (λ s. not (begins_with s text)) texts ≡ true
    → match_at texts text ≡ none
unfolding match_at
match_at-none [] text h = refl
match_at-none (s ∷ texts) text h =
    let e : begins_with s text ≡ false = ground (arith, h) in
    rw (match_at, e) (match_at-none texts text (ground (arith, h)))

-- The first match in an order from the longest to the shortest is one of the longest.
match_at-longest :
    (texts : List Text) (s text : Text)
    → is_sorted longer_first texts ≡ true
    → is_among s texts ≡ true
    → begins_with s text ≡ true
    → (m : Text) × (match_at texts text ≡ some m)
      × (is_among m texts ≡ true)
      × (begins_with m text ≡ true)
      × (length s ≤ length m)
unfolding match_at is_sorted
match_at-longest [] s text sorted here begins = absurd (ground (arith, here))
match_at-longest (t ∷ texts) s text sorted here begins = elim (Bool-cases (begins_with t text)) [
  | inl b ↦
      let longer : length s ≤ length t = elim (Bool-cases (text_eq s t)) [
        | inl e ↦ let same = ap length (text_eq_sound s t e) in omega (arith, same)
        | inr e ↦
            let first : leb (length s) (length t) ≡ true =
              all-among (longer_first t) s texts (ground (arith, sorted))
                (ground (arith, here, e)) in
            ground (arith, first)
      ] in
      (t, rw (match_at, b) refl, ground (arith, text_eq_refl t), b, longer)
  | inr b ↦ elim (Bool-cases (text_eq s t)) [
    | inl e ↦
        let bad : begins_with t text ≡ true =
          ap (λ x. begins_with x text) (sym (text_eq_sound s t e)) ∙ begins in
        absurd (ground (arith, bad, b))
    | inr e ↦
        let (m, found, among, begin, longer) =
          match_at-longest texts s text (ground (arith, sorted)) (ground (arith, here, e)) begins in
        (m, rw (match_at, b) found, ground (arith, among), begin, longer)
  ]
]

names_sorted : (names : List Text) → is_sorted longer_first (sort longer_first names) ≡ true
names_sorted names =
    sort-is_sorted longer_first (λ x y h. ground (arith, h)) (λ x y z h h'. ground (arith, h, h'))
      names

-- A surrogate that is known, and that no longer known one overtakes, is what the pattern finds.
pub match_at-sorted :
    (names : List Text) (s text : Text)
    → is_among s names ≡ true
    → begins_with s text ≡ true
    → all (λ t. not (begins_with t text) || leb (length t) (length s)) names ≡ true
    → match_at (sort longer_first names) text ≡ some s
match_at-sorted names s text here begins longest =
    let (m, found, among, begin, longer) =
      match_at-longest (sort longer_first names) s text (names_sorted names)
        (any-sort longer_first (text_eq s) names ∙ here) begins in
    let bound : (not (begins_with m text) || leb (length m) (length s)) ≡ true =
      all-among (λ t. not (begins_with t text) || leb (length t) (length s)) m names longest
        (sym (any-sort longer_first (text_eq m) names) ∙ among) in
    let same : length m ≡ length s = ground (arith, bound, begin, longer) in
    found ∙ ap some (begins_with-same m s text begin begins same)

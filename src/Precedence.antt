-- ===== src/Precedence.antt =====
-- The overlap rule for detected spans (src/detect/precedence.py) and the spans themselves
-- (src/core/types.py).
pub mod Resolution
use local_first_llm_privacy.Common.{
  ℕ, ◌+◌, ◌-◌, ltb, leb, ◌==◌, if◌then◌else◌, Bool, true, false, ◌&&◌, ◌||◌, not, any, List, [],
  ◌∷◌, ◌++◌, map, Result, ok, raise, value_error, ℤ, pos, negsuc,
}
use local_first_llm_privacy.Common.Sorting.{sort}
use local_first_llm_privacy.Sessions.{EntityType}

-- A tier is a number, 1 or 2.
pub record Span : Type 0 where
  pub start : ℕ
  pub end : ℕ
  pub entity_type : EntityType
  pub tier : ℕ

-- The constructor with `__post_init__`.
unfoldable pub new_span : ℤ → ℤ → EntityType → ℕ → Result Span
new_span (negsuc s) e kind tier = raise value_error
new_span (pos s) (negsuc e) kind tier = raise value_error
new_span (pos s) (pos e) kind tier =
    if leb e s
    then raise value_error
    else ok (record { start = s; end = e; entity_type = kind; tier = tier })

unfoldable pub spans_overlap : Span → Span → Bool
spans_overlap a b = ltb a.start b.end && ltb b.start a.end

abbrev pub Item : Type 0
Item = Span × ℕ

-- The comprehension over the detectors, from the index `i` on.
unfoldable pub indexed : ℕ → List (List Span) → List Item
indexed i [] = []
indexed i (spans ∷ rest) = map (λ span. (span, i)) spans ++ indexed (i + 1) rest

abbrev pub extent : Span → ℕ
extent s = s.end - s.start

-- `priority(a) <= priority(b)` on the tuples `(tier, -length, detector_index)`.
unfoldable pub priority_le : Item → Item → Bool
priority_le (a, i) (b, j) =
    ltb a.tier b.tier
    || ((a.tier == b.tier) && (ltb (extent b) (extent a) || ((extent a == extent b) && leb i j)))

unfoldable pub accept : List Span → List Item → List Span
accept accepted [] = accepted
accept accepted ((span, i) ∷ ranked) =
    accept (if any (spans_overlap span) accepted then accepted else accepted ++ span ∷ []) ranked

abbrev pub start_le : Span → Span → Bool
start_le a b = leb a.start b.start

unfoldable pub resolve : List (List Span) → List Span
resolve spans_per_detector =
    sort start_le (accept [] (sort priority_le (indexed 0 spans_per_detector)))

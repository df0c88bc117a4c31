-- ===== src/Tier2.antt =====
-- The detectors of tier 2 (src/detect/tier2/detector.py, src/detect/tier2/model.py, src/detect/registry.py):
-- the model is an argument, and its offsets are checked before they become a span.
pub mod Offsets
use local_first_llm_privacy.Common.{
  ℕ, ltb, leb, ◌==◌, if◌then◌else◌, Bool, true, false, ◌&&◌, List, [], ◌∷◌, map, length, Result, ok,
  raise, ◌>>=◌, detection_error, ℤ, pos, negsuc,
}
use local_first_llm_privacy.Common.Chars.{Text}
use local_first_llm_privacy.Sessions.{
  EntityType, aadhaar, pan, ifsc, upi, vehicle_reg, card, email, phone, person, org, address,
}
use local_first_llm_privacy.Precedence.{Span, new_span}

pub record ModelEntityMatch : Type 0 where
  pub start : ℤ
  pub end : ℤ
  pub entity_type : EntityType

abbrev pub type_number : EntityType → ℕ
type_number aadhaar = 0
type_number pan = 1
type_number ifsc = 2
type_number upi = 3
type_number vehicle_reg = 4
type_number card = 5
type_number email = 6
type_number phone = 7
type_number person = 8
type_number org = 9
type_number address = 10

-- `match.entity_type == self.entity_type`.
unfoldable pub same_type : EntityType → EntityType → Bool
same_type a b = type_number a == type_number b

-- `0 <= start < end <= len(text)`.
unfoldable pub is_within : ℤ → ℤ → ℕ → Bool
is_within (pos s) (pos e) size = ltb s e && leb e size
is_within (pos s) (negsuc e) size = false
is_within (negsuc s) e size = false

-- The loop over the model's matches.
unfoldable pub kept_spans : EntityType → ℕ → List ModelEntityMatch → Result (List Span)
kept_spans kind size [] = ok []
kept_spans kind size (m ∷ found) =
    let rest = kept_spans kind size found in
    if same_type m.entity_type kind
    then (if is_within m.start m.end size
        then (new_span m.start m.end kind 2 >>= λ span. rest >>= λ spans. ok (span ∷ spans))
        else raise detection_error)
    else rest

module _ (find_entities : Text → Result (List ModelEntityMatch)) where
  unfoldable pub tier2_detect : EntityType → Text → Result (List Span)
  tier2_detect kind text = find_entities text >>= λ found. kept_spans kind (length text) found

  unfoldable pub get_tier2_detectors : List (Text → Result (List Span))
  get_tier2_detectors = tier2_detect person ∷ tier2_detect org ∷ tier2_detect address ∷ []

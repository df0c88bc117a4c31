-- ===== src/ProtocolFields.antt =====
-- The fields of the wire protocol that hold one of a few words (src/pipeline/protocol_fields.py).
use local_first_llm_privacy.Common.{
  ◌==◌, if◌then◌else◌, Bool, true, false, ◌&&◌, List, [], ◌∷◌, length, any, text_eq,
}
use local_first_llm_privacy.Common.Chars.{Text}
use local_first_llm_privacy.FieldWalker.{Segment, key, FieldPath, segment_eq}

-- A segment of a pattern: a literal one, or any.
pub data PatternSegment : Type 0 where
  exactly : Segment → PatternSegment
  any_index : PatternSegment

pub record ProtocolEnumField : Type 0 where
  pub path_pattern : List PatternSegment
  pub allowed_values : List Text

abbrev pub messages_word : Text
messages_word = b'm' ∷ b'e' ∷ b's' ∷ b's' ∷ b'a' ∷ b'g' ∷ b'e' ∷ b's' ∷ []

abbrev pub role_word : Text
role_word = b'r' ∷ b'o' ∷ b'l' ∷ b'e' ∷ []

abbrev pub roles : List Text
roles =
    (b's' ∷ b'y' ∷ b's' ∷ b't' ∷ b'e' ∷ b'm' ∷ [])
    ∷ (b'u' ∷ b's' ∷ b'e' ∷ b'r' ∷ [])
    ∷ (b'a' ∷ b's' ∷ b's' ∷ b'i' ∷ b's' ∷ b't' ∷ b'a' ∷ b'n' ∷ b't' ∷ [])
    ∷ (b't' ∷ b'o' ∷ b'o' ∷ b'l' ∷ [])
    ∷ (b'f' ∷ b'u' ∷ b'n' ∷ b'c' ∷ b't' ∷ b'i' ∷ b'o' ∷ b'n' ∷ [])
    ∷ []

unfoldable pub protocol_enum_fields : List ProtocolEnumField
protocol_enum_fields =
    record {
      path_pattern = exactly (key messages_word) ∷ any_index ∷ exactly (key role_word) ∷ [];
      allowed_values = roles;
    }
    ∷ []

unfoldable pub segment_matches : Segment → PatternSegment → Bool
segment_matches actual any_index = true
segment_matches actual (exactly segment) = segment_eq segment actual

-- `all(… for segment, actual in zip(pattern, path))`.
unfoldable pub all_match : FieldPath → List PatternSegment → Bool
all_match (actual ∷ path) (segment ∷ pattern) =
    segment_matches actual segment && all_match path pattern
all_match _ _ = true

unfoldable pub matches : FieldPath → List PatternSegment → Bool
matches path pattern = if length path == length pattern then all_match path pattern else false

unfoldable pub is_protocol_enum_value : FieldPath → Text → Bool
is_protocol_enum_value path text =
    any (λ f. any (text_eq text) f.allowed_values && matches path f.path_pattern)
      protocol_enum_fields

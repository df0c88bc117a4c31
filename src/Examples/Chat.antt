-- ===== src/Examples/Chat.antt =====
-- The theorem about re-serialized chunks at a concrete chunk.
use local_first_llm_privacy.Common.{List, [], ◌∷◌, text_eq, ok, ◌≡◌, refl, Result}
use local_first_llm_privacy.Common.Chars.{Text}
use local_first_llm_privacy.Sse.{SseEvent, parser_init}
use local_first_llm_privacy.Sse.Chunks.{parse}
use local_first_llm_privacy.Sse.Roundtrip.{is_plain}
use local_first_llm_privacy.Json.{
  Json, object_value, array_value, string_value, item, no_item, JsonObject, no_field, field,
  get_field,
}
use local_first_llm_privacy.ChatStream.{
  choices_key, delta_key, content_key, content_delta, parse_event, with_content,
  serialize_content_delta,
}
use local_first_llm_privacy.ChatStream.Roundtrip.{
  IsCodec, HasContent, parse_event-serialize_content_delta,
}

abbrev pub hi : Text
hi = b'h' ∷ b'i' ∷ []

abbrev pub yo : Text
yo = b'y' ∷ b'o' ∷ []

abbrev pub hi_delta : JsonObject
hi_delta = field content_key (string_value hi) no_field

abbrev pub hi_choice : JsonObject
hi_choice = field delta_key (object_value hi_delta) no_field

abbrev pub hi_chunk : JsonObject
hi_chunk = field choices_key (array_value (item (object_value hi_choice) no_item)) no_field

hi_chunk-HasContent : HasContent hi_chunk
unfolding get_field text_eq
hi_chunk-HasContent = record {
  choice = hi_choice;
  others = no_item;
  delta = hi_delta;
  old = string_value hi;
  choices_field = refl;
  delta_field = refl;
  content_field = refl;
}

-- A codec for one object.
dump_one : Json → Text
dump_one j = b'{' ∷ b'}' ∷ []

load_one : Text → Result Json
load_one text = ok (object_value (with_content hi_chunk yo))

one-IsCodec : IsCodec load_one dump_one (with_content hi_chunk yo)
unfolding load_one dump_one is_plain
one-IsCodec = record { back = refl; brace = (b'}' ∷ [], refl); plain = refl }

whole_chunk : List Text
whole_chunk = serialize_content_delta dump_one hi_chunk yo ∷ []

parse_event-serialize_content_delta_example :
    (event : SseEvent) × (parse parser_init whole_chunk ≡ event ∷ [])
    × (parse_event load_one event ≡ ok (content_delta yo (with_content hi_chunk yo)))
unfolding whole_chunk serialize_content_delta dump_one
parse_event-serialize_content_delta_example =
    parse_event-serialize_content_delta load_one dump_one hi_chunk yo whole_chunk one-IsCodec
      hi_chunk-HasContent refl

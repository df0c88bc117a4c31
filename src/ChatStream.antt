-- ===== src/ChatStream.antt =====
-- The chat-completion chunks of the response stream (src/proxy/chat_stream.py). `json.loads` and
-- `json.dumps` are arguments.
pub mod Roundtrip
use local_first_llm_privacy.Common.{
  ℕ, Bool, true, false, List, [], ◌∷◌, ◌++◌, Option, none, some, is_some, if◌then◌else◌, text_eq,
  Result, ok, raise, ◌>>=◌, caught, upstream_error,
}
use local_first_llm_privacy.Common.Chars.{Text}
use local_first_llm_privacy.Json.{
  Json, null_value, bool_value, number_value, string_value, array_value, object_value, JsonList,
  no_item, item, JsonObject, no_field, field, get_field, set_field,
}
use local_first_llm_privacy.Sse.{SseEvent, data_field, space, lf}

-- The sentinel, "choices", "delta" and "content".
abbrev pub done_sentinel : Text
done_sentinel = b'[' ∷ b'D' ∷ b'O' ∷ b'N' ∷ b'E' ∷ b']' ∷ []

abbrev pub choices_key : Text
choices_key = b'c' ∷ b'h' ∷ b'o' ∷ b'i' ∷ b'c' ∷ b'e' ∷ b's' ∷ []

abbrev pub delta_key : Text
delta_key = b'd' ∷ b'e' ∷ b'l' ∷ b't' ∷ b'a' ∷ []

abbrev pub content_key : Text
content_key = b'c' ∷ b'o' ∷ b'n' ∷ b't' ∷ b'e' ∷ b'n' ∷ b't' ∷ []

pub data ChatEvent : Type 0 where
  content_delta : Text → JsonObject → ChatEvent
  done_marker : ChatEvent

-- `choices[0]`, when the value is a list that starts with an object, with the rest of the list.
unfoldable pub first_choice : Option Json → Option (JsonObject × JsonList)
first_choice (some (array_value (item (object_value choice) rest))) = some (choice, rest)
first_choice _ = none

unfoldable pub as_object : Option Json → Option JsonObject
as_object (some (object_value o)) = some o
as_object _ = none

unfoldable pub as_string : Option Json → Text
as_string (some (string_value s)) = s
as_string _ = []

unfoldable pub extract_content : JsonObject → Text
extract_content envelope = elim (first_choice (get_field choices_key envelope)) [
  | none ↦ []
  | some chosen ↦ elim (as_object (get_field delta_key chosen.0)) [
    | none ↦ []
    | some delta ↦ as_string (get_field content_key delta)
  ]
]

unfoldable pub parse_event : (Text → Result Json) → SseEvent → Result ChatEvent
parse_event loads event =
    if text_eq event.data_value done_sentinel
    then ok done_marker
    else (caught (loads event.data_value) >>= λ decoded. elim (as_object decoded) [
      | none ↦ raise upstream_error
      | some envelope ↦
          if is_some (get_field choices_key envelope)
          then ok (content_delta (extract_content envelope) envelope)
          else raise upstream_error
    ])

-- The envelope with the content put in place of its own, where it has one.
unfoldable pub with_content : JsonObject → Text → JsonObject
with_content envelope content = elim (first_choice (get_field choices_key envelope)) [
  | none ↦ envelope
  | some chosen ↦ elim (as_object (get_field delta_key chosen.0)) [
    | none ↦ envelope
    | some delta ↦
        let delta' = set_field content_key (string_value content) delta in
        let choice' = set_field delta_key (object_value delta') chosen.0 in
        if is_some (get_field content_key delta)
        then set_field choices_key (array_value (item (object_value choice') chosen.1)) envelope
        else envelope
  ]
]

unfoldable pub serialize_content_delta : (Json → Text) → JsonObject → Text → Text
serialize_content_delta dumps envelope content =
    data_field ++ (space ∷ (dumps (object_value (with_content envelope content)) ++ (lf ∷ lf ∷ [])))

unfoldable pub serialize_done : Text
serialize_done = data_field ++ (space ∷ (done_sentinel ++ (lf ∷ lf ∷ [])))

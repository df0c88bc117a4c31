-- ===== src/ChatStream/Roundtrip.antt =====
-- A re-serialized chunk, read back by the event parser and the decoder (src/proxy/chat_stream.py).
use local_first_llm_privacy.Common.{
  true, false, ◌&&◌, List, [], ◌∷◌, ◌++◌, concat, some, is_some, text_eq, text_eq_refl, Result, ok,
  caught, ◌≡◌, refl, sym, ap, ◌∙◌, inl, inr, arith, append_assoc, append-nil, Bool-cases,
}
use local_first_llm_privacy.Common.Chars.{Text}
use local_first_llm_privacy.Sse.{SseEvent, data_field, space, lf, parser_init, join_lines}
use local_first_llm_privacy.Sse.Chunks.{parse}
use local_first_llm_privacy.Sse.Roundtrip.{
  unix, eol, write_line, write_lines, write_event, write_events, is_plain, is_event,
  parse-write_events,
}
use local_first_llm_privacy.Json.{
  Json, object_value, array_value, string_value, item, JsonList, JsonObject, no_field, field,
  get_field, set_field,
}
use local_first_llm_privacy.ChatStream.{
  done_sentinel, choices_key, delta_key, content_key, content_delta, first_choice, as_object,
  as_string, extract_content, parse_event, with_content, serialize_content_delta,
}

-- What the json module documents of `dumps` and `loads` at an object: the object comes back, and its
-- text, which starts with a brace, holds no line end.
pub record IsCodec (loads : Text → Result Json) (dumps : Json → Text) (o : JsonObject)
    : Type 0 where
  pub back : loads (dumps (object_value o)) ≡ ok (object_value o)
  pub brace : (rest : Text) × (dumps (object_value o) ≡ b'{' ∷ rest)
  pub plain : is_plain (dumps (object_value o)) ≡ true

pub get_field-set_field :
    (k : Text) (v : Json) (o : JsonObject) → get_field k (set_field k v o) ≡ some v
unfolding get_field set_field
get_field-set_field k v no_field = rw (text_eq_refl k) refl
get_field-set_field k v (field k' v' o) = elim (Bool-cases (text_eq k k')) [
  | inl e ↦ rw (e, get_field, e) refl
  | inr e ↦ rw (e, get_field, e) (get_field-set_field k v o)
]

-- A chunk whose first choice has a delta with a content field.
pub record HasContent (envelope : JsonObject) : Type 0 where
  pub choice : JsonObject
  pub others : JsonList
  pub delta : JsonObject
  pub old : Json
  pub choices_field :
      get_field choices_key envelope ≡ some (array_value (item (object_value choice) others))
  pub delta_field : get_field delta_key choice ≡ some (object_value delta)
  pub content_field : get_field content_key delta ≡ some old

put_content : (envelope : JsonObject) (content : Text) → HasContent envelope → JsonObject
put_content envelope content h =
    set_field choices_key
      (array_value (
        item
          (object_value (
            set_field delta_key
              (object_value (set_field content_key (string_value content) h.delta)) h.choice))
          h.others))
      envelope

with_content_lem :
    (envelope : JsonObject) (content : Text) (h : HasContent envelope)
    → with_content envelope content ≡ put_content envelope content h
unfolding with_content put_content first_choice as_object
with_content_lem envelope content h =
    rw (with_content, h.choices_field, h.delta_field, h.content_field) refl

extract_content-put :
    (envelope : JsonObject) (content : Text) (h : HasContent envelope)
    → (extract_content (put_content envelope content h) ≡ content)
      × (is_some (get_field choices_key (put_content envelope content h)) ≡ true)
unfolding extract_content put_content first_choice as_object as_string
extract_content-put envelope content h =
    let d = set_field content_key (string_value content) h.delta in
    let c = set_field delta_key (object_value d) h.choice in
    let outer =
      get_field-set_field choices_key (array_value (item (object_value c) h.others)) envelope in
    (
      rw
          (
            extract_content,
            outer,
            get_field-set_field delta_key (object_value d) h.choice,
            get_field-set_field content_key (string_value content) h.delta,
          )
          refl,
      ap is_some outer,
    )

stream_of :
    (dumps : Json → Text) (envelope : JsonObject) (content : Text)
    → serialize_content_delta dumps envelope content
      ≡ write_events unix (((dumps (object_value (with_content envelope content))) ∷ []) ∷ [])
unfolding serialize_content_delta write_events write_event write_lines write_line eol
stream_of dumps envelope content =
    let l = dumps (object_value (with_content envelope content)) in
    let line = data_field ++ (space ∷ (l ++ (lf ∷ []))) in
    let e : data_field ++ (space ∷ (l ++ (lf ∷ lf ∷ []))) ≡ line ++ (lf ∷ []) =
      ap (λ r. data_field ++ (space ∷ r)) (sym (append_assoc l (lf ∷ []) (lf ∷ []))) in
    e
    ∙ ap (λ r. r ++ (lf ∷ [])) (sym (append-nil line))
    ∙ sym (append-nil ((line ++ []) ++ (lf ∷ [])))

event_content :
    (loads : Text → Result Json) (dumps : Json → Text) (o : JsonObject)
    → IsCodec loads dumps o
    → is_some (get_field choices_key o) ≡ true
    → parse_event loads (record { data_value = dumps (object_value o) })
      ≡ ok (content_delta (extract_content o) o)
unfolding parse_event as_object text_eq caught
event_content loads dumps o codec shaped =
    let (rest, e) = codec.brace in
    let apart : text_eq (dumps (object_value o)) done_sentinel ≡ false =
      ap (λ t. text_eq t done_sentinel) e in
    rw (apart, codec.back, shaped) refl

-- A chunk with a content field, re-serialized with any other content and read back from the stream,
-- however its text is cut into fragments, is one event, and decoding it gives exactly that content,
-- when the json module's two functions behave at the new envelope as documented.
pub parse_event-serialize_content_delta :
    (loads : Text → Result Json) (dumps : Json → Text) (envelope : JsonObject) (content : Text)
    (chunks : List Text)
    → IsCodec loads dumps (with_content envelope content)
    → HasContent envelope
    → concat chunks ≡ serialize_content_delta dumps envelope content
    → (event : SseEvent) × (parse parser_init chunks ≡ event ∷ [])
      × (parse_event loads event ≡ ok (content_delta content (with_content envelope content)))
unfolding join_lines is_event
parse_event-serialize_content_delta loads dumps envelope content chunks codec h written =
    let o = with_content envelope content in
    let l = dumps (object_value o) in
    let plain : is_event (l ∷ []) && true ≡ true = ground (arith, codec.plain) in
    let same = with_content_lem envelope content h in
    let (put_back, shaped) = extract_content-put envelope content h in
    let shaped' : is_some (get_field choices_key o) ≡ true =
      ap (λ x. is_some (get_field choices_key x)) same ∙ shaped in
    (
      record { data_value = l },
      parse-write_events unix ((l ∷ []) ∷ []) chunks plain
          (written ∙ stream_of dumps envelope content),
      event_content loads dumps o codec shaped'
          ∙ ap (λ c. ok (content_delta c o)) (ap extract_content same ∙ put_back),
    )

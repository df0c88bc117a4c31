-- ===== src/Streaming/Content.antt =====
-- The text that the client reads out of a stream (src/proxy/routes.py).
use local_first_llm_privacy.Common.{
  true, false, List, [], ◌∷◌, ◌++◌, Option, none, some, is_some, Result, ok, raise, ◌>>=◌,
  Bool-cases, Option-cases, inl, inr, ◌≡◌, refl, sym, ap, ◌∙◌, arith, append_assoc, text_eq,
  upstream_error, caught, >>=-eq-ok,
}
use local_first_llm_privacy.Common.Chars.{Text}
use local_first_llm_privacy.Sse.{SseEvent}
use local_first_llm_privacy.Json.{
  Json, string_value, array_value, object_value, item, JsonObject, get_field, set_field,
}
use local_first_llm_privacy.ChatStream.{
  choices_key, delta_key, content_key, done_sentinel, first_choice, as_object, as_string,
  extract_content, with_content, ChatEvent, content_delta, done_marker, parse_event,
}
use local_first_llm_privacy.ChatStream.Roundtrip.{get_field-set_field}
use local_first_llm_privacy.Streaming.{has_content_slot, Output, delta_line, done_line}

-- What a client takes out of a line.
unfoldable pub heard : Output → Text
heard (delta_line envelope content) = extract_content (with_content envelope content)
heard done_line = []

unfoldable pub heard_all : List Output → Text
heard_all [] = []
heard_all (out ∷ outs) = heard out ++ heard_all outs

-- What the upstream says before its sentinel.
unfoldable pub said : List ChatEvent → Text
said [] = []
said (content_delta content envelope ∷ events) = content ++ said events
said (done_marker ∷ events) = []

unfoldable pub decode_all : (Text → Result Json) → List SseEvent → Result (List ChatEvent)
decode_all loads [] = ok []
decode_all loads (event ∷ events) =
    parse_event loads event >>= λ parsed. decode_all loads events >>= λ rest. ok (parsed ∷ rest)

pub heard_all-append : (a b : List Output) → heard_all (a ++ b) ≡ heard_all a ++ heard_all b
unfolding heard_all
heard_all-append [] b = refl
heard_all-append (out ∷ a) b =
    ap (λ r. heard out ++ r) (heard_all-append a b)
    ∙ sym (append_assoc (heard out) (heard_all a) (heard_all b))

-- An envelope with a slot hands its new content over; one without has none.
pub heard-slot :
    (e : JsonObject) (c : Text) → has_content_slot e ≡ true → heard (delta_line e c) ≡ c
unfolding heard first_choice as_object as_string has_content_slot with_content set_field
    extract_content
heard-slot e c slot = elim (Option-cases (first_choice (get_field choices_key e))) [
  | inl f ↦
      let bad : false ≡ true = rw (has_content_slot, f) at slot in absurd (ground (arith, bad))
  | inr (chosen, f) ↦ elim (Option-cases (as_object (get_field delta_key chosen.0))) [
    | inl d ↦
        let bad : false ≡ true = rw (has_content_slot, f, d) at slot in absurd (ground (arith, bad))
    | inr (delta, d) ↦
        let s : is_some (get_field content_key delta) ≡ true =
          rw (has_content_slot, f, d) at slot in
        let delta' = set_field content_key (string_value c) delta in
        let choice' = set_field delta_key (object_value delta') chosen.0 in
        let e' = set_field choices_key (array_value (item (object_value choice') chosen.1)) e in
        let w : with_content e c ≡ e' = rw (with_content, f, d, s) refl in
        let x : extract_content e' ≡ c =
          rw
            (
              extract_content,
              get_field-set_field choices_key (array_value (item (object_value choice') chosen.1))
                  e,
              get_field-set_field delta_key (object_value delta') chosen.0,
              get_field-set_field content_key (string_value c) delta,
            )
            refl in
        ap extract_content w ∙ x
  ]
]

pub heard-no_slot :
    (e : JsonObject) (c : Text)
    → has_content_slot e ≡ false
    → (heard (delta_line e c) ≡ []) × (extract_content e ≡ [])
unfolding heard as_string with_content extract_content has_content_slot
heard-no_slot e c slot = elim (Option-cases (first_choice (get_field choices_key e))) [
  | inl f ↦
      let x : extract_content e ≡ [] = rw (extract_content, f) refl in
      (ap extract_content (with_same f) ∙ x, x)
  | inr (chosen, f) ↦ elim (Option-cases (as_object (get_field delta_key chosen.0))) [
    | inl d ↦
        let x : extract_content e ≡ [] = rw (extract_content, f, d) refl in
        let w : with_content e c ≡ e = rw (with_content, f, d) refl in (ap extract_content w ∙ x, x)
    | inr (delta, d) ↦
        let s : is_some (get_field content_key delta) ≡ false =
          rw (has_content_slot, f, d) at slot in
        let none_there = no_content (get_field content_key delta) s in
        let x : extract_content e ≡ [] = rw (extract_content, f, d, none_there) refl in
        let w : with_content e c ≡ e = rw (with_content, f, d, s) refl in
        (ap extract_content w ∙ x, x)
  ]
]
  where
    with_same : first_choice (get_field choices_key e) ≡ none → with_content e c ≡ e
    with_same f = rw (with_content, f) refl

    no_content : (o : Option Json) → is_some o ≡ false → o ≡ none
    no_content none s = refl
    no_content (some j) s = cc

-- A decoded delta's content is the one in its envelope.
pub parse_event-content :
    (loads : Text → Result Json) (event : SseEvent) (c : Text) (e : JsonObject)
    → parse_event loads event ≡ ok (content_delta c e)
    → c ≡ extract_content e
unfolding parse_event
parse_event-content loads event c e h = elim (Bool-cases (text_eq event.data_value done_sentinel)) [
  | inl d ↦
      let bad : ok done_marker ≡ ok (content_delta c e) = rw (parse_event, d) at h in
      absurd (ground (arith, bad))
  | inr d ↦
      let (decoded, l, h') =
        >>=-eq-ok (caught (loads event.data_value)) _ (rw (parse_event, d) at h) in
      elim (Option-cases (as_object decoded)) [
        | inl o ↦
            let bad : raise upstream_error ≡ ok (content_delta c e) = rw o at h' in
            absurd (ground (arith, bad))
        | inr (env, o) ↦ elim (Bool-cases (is_some (get_field choices_key env))) [
          | inl k ↦
              let same : ok (content_delta (extract_content env) env) ≡ ok (content_delta c e) =
                rw (o, k) at h' in
              let same_env : env ≡ e = cc in
              let same_c : extract_content env ≡ c = cc in sym same_c ∙ ap extract_content same_env
          | inr k ↦
              let bad : raise upstream_error ≡ ok (content_delta c e) = rw (o, k) at h' in
              absurd (ground (arith, bad))
        ]
      ]
]

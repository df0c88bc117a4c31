-- ===== src/Examples/Requests.antt =====
-- The theorems about whole bodies at a concrete request and reply.
use local_first_llm_privacy.Common.{if◌then◌else◌, List, [], ◌∷◌, ok, ◌≡◌, refl, text_eq}
use local_first_llm_privacy.Common.Chars.{Text}
use local_first_llm_privacy.Sessions.{Session, pan, new_session, record_surrogate}
use local_first_llm_privacy.Precedence.{Span}
use local_first_llm_privacy.Cascade.{closed_mode}
use local_first_llm_privacy.Json.{Json, string_value, object_value, no_field, field}
use local_first_llm_privacy.FieldWalker.{
  key, TextRegion, segment_eq, arguments_key, path_eq, ends_in_arguments, walk,
}
use local_first_llm_privacy.Bodies.{sanitize, rehydrate_body, region_step}
use local_first_llm_privacy.Bodies.Substituting.{is_distinct}
use local_first_llm_privacy.Bodies.Fields.{IsSanitized, sanitize-IsSanitized}
use local_first_llm_privacy.Bodies.Replies.{AreRehydrated, rehydrate_body-AreRehydrated}
use local_first_llm_privacy.Examples.Fields.{
  a_key, hi_text, xo_text, boxed, load_box, dump_box, call_body, call_regions, box-ReadsBack,
  call_body-walked,
}
use local_first_llm_privacy.Examples.Opened.{field_walk, request_path, response_path}
use local_first_llm_privacy.Examples.Rehydrations.{counter, tag, tags, no_names}

-- A detector that finds "hi".
unfoldable pub find_hi : Text → List Span
find_hi text =
    if text_eq text hi_text
    then record { start = 0; end = 2; entity_type = pan; tier = 1 } ∷ []
    else []

abbrev sanitized_body : Json
sanitized_body = object_value (
    field a_key (string_value (2 ∷ hi_text))
      (field arguments_key (string_value (b'{' ∷ xo_text)) no_field))

talk_hi : Session
talk_hi = record_surrogate (new_session [] 5) (2 ∷ hi_text) pan 7

call_body-sanitized :
    sanitize load_box dump_box 2 counter no_names tags []
      (find_hi ∷ [])
      []
      closed_mode
      call_body
      7
      (new_session [] 5)
      0
    ≡ (ok sanitized_body, talk_hi, 0)
unfolding request_path counter no_names tags tag find_hi load_box dump_box boxed talk_hi
call_body-sanitized = refl

sanitize-IsSanitized_example :
    (out : List TextRegion) × (walk load_box 2 sanitized_body ≡ ok out)
    × IsSanitized
        (region_step counter no_names tags [] (find_hi ∷ []) [] closed_mode 7)
        (new_session [] 5)
        0
        call_regions
        out
        talk_hi
        0
unfolding is_distinct path_eq segment_eq text_eq ends_in_arguments
sanitize-IsSanitized_example =
    sanitize-IsSanitized load_box dump_box 2 counter no_names tags [] (find_hi ∷ []) [] closed_mode
      call_body sanitized_body 7 (new_session [] 5) talk_hi 0 0 call_regions box-ReadsBack
      call_body-walked refl refl call_body-sanitized

sanitized_regions : List TextRegion
sanitized_regions =
    record { path = key a_key ∷ []; text = 2 ∷ hi_text }
    ∷ record { path = key arguments_key ∷ key a_key ∷ []; text = xo_text }
    ∷ []

sanitized_body-rehydrated :
    rehydrate_body load_box dump_box 2 tags [] sanitized_body talk_hi ≡ ok call_body
unfolding response_path tags tag load_box dump_box boxed talk_hi
sanitized_body-rehydrated = refl

sanitized_body-walked : walk load_box 2 sanitized_body ≡ ok sanitized_regions
unfolding field_walk load_box boxed sanitized_regions
sanitized_body-walked = refl

rehydrate_body-AreRehydrated_example :
    (out : List TextRegion) × (walk load_box 2 call_body ≡ ok out)
    × AreRehydrated tags [] talk_hi sanitized_regions out
unfolding is_distinct path_eq segment_eq text_eq ends_in_arguments sanitized_regions
rehydrate_body-AreRehydrated_example =
    rehydrate_body-AreRehydrated load_box dump_box 2 tags [] talk_hi sanitized_body call_body
      sanitized_regions box-ReadsBack sanitized_body-walked refl refl sanitized_body-rehydrated

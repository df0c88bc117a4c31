-- ===== src/Examples/Replies.antt =====
-- The theorems about the streaming response at a concrete stream.
use local_first_llm_privacy.Common.{true, List, [], ◌∷◌, ok, ◌≡◌, refl, text_eq, Result, caught}
use local_first_llm_privacy.Common.Chars.{Text}
use local_first_llm_privacy.Sse.{
  parser_init, parser_feed, parser_flush, handle_lines, handle_line, split_feed, split_char,
  split_flush, dispatch, join_lines, field_value,
}
use local_first_llm_privacy.Sse.Chunks.{parse}
use local_first_llm_privacy.Json.{Json, object_value, get_field, set_field}
use local_first_llm_privacy.ChatStream.{
  content_delta, with_content, parse_event, as_object, first_choice, as_string, extract_content,
}
use local_first_llm_privacy.Streaming.{Output, generate_sse}
use local_first_llm_privacy.Streaming.Content.{heard_all, said, decode_all}
use local_first_llm_privacy.Streaming.Steps.{Goes, ends_done}
use local_first_llm_privacy.Streaming.Ending.{generate_sse-ends_done}
use local_first_llm_privacy.Streaming.Whole.{generate_sse-heard}
use local_first_llm_privacy.Examples.Chat.{yo, hi_chunk}
use local_first_llm_privacy.Examples.Streams.{
  squeeze, squeezing, squeeze-IsStable, squeeze-LooksBack,
}

load_one : Text → Result Json
load_one text = ok (object_value (with_content hi_chunk yo))

-- "data: {}\n\n", cut inside the line.
reply : List Text
reply = (b'd' ∷ b'a' ∷ b't' ∷ b'a' ∷ b':' ∷ []) ∷ (b' ' ∷ b'{' ∷ b'}' ∷ 10 ∷ 10 ∷ []) ∷ []

squeeze-nil : squeeze [] ≡ []
unfolding squeeze
squeeze-nil = refl

squeezing-ok : (s : Text) → squeezing s ≡ ok (squeeze s)
unfolding squeezing
squeezing-ok s = refl

reply-decoded :
    decode_all load_one (parse parser_init reply)
    ≡ ok (content_delta yo (with_content hi_chunk yo) ∷ [])
unfolding reply load_one decode_all parse parser_feed handle_lines split_feed split_char parser_init
    handle_line parse_event text_eq dispatch join_lines field_value as_object get_field with_content
    first_choice as_string extract_content set_field parser_flush split_flush caught
reply-decoded = refl

generate_sse-heard_example :
    (outs : List Output) × (generate_sse load_one 1 squeezing reply ≡ ok outs)
    × (heard_all outs ≡ squeeze (said (content_delta yo (with_content hi_chunk yo) ∷ [])))
generate_sse-heard_example =
    generate_sse-heard load_one 1 squeezing squeeze reply
      (content_delta yo (with_content hi_chunk yo) ∷ []) squeezing-ok squeeze-IsStable
      (squeeze-LooksBack 0) squeeze-nil reply-decoded

generate_sse-ends_done_example :
    Goes load_one squeezing
      (generate_sse load_one 3 squeezing reply)
      (λ outs. ends_done outs ≡ true)
generate_sse-ends_done_example = generate_sse-ends_done load_one squeezing 3 reply

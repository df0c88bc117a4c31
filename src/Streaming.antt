-- ===== src/Streaming.antt =====
-- The streaming response (src/proxy/routes.py, `_generate_sse`): the upstream's text in chunks goes in,
-- and the lines that the client receives come out. `json.loads` and the rehydration are arguments,
-- and what they raise leaves the generator, save for `UpstreamError`, which `parse_event` makes of a
-- malformed event and the rehydration never raises; the log lines are left out. The end of the chunks stands for a
-- clean close and for a dropped connection alike: the source does the same after both.
pub mod Steps
pub mod Ending
pub mod Content
pub mod Relay
pub mod Events
pub mod Whole
use local_first_llm_privacy.Common.{
  ℕ, Bool, true, false, is_nil, if◌then◌else◌, List, [], ◌∷◌, ◌++◌, map, concat, Option, none, some,
  is_some, Result, ok, raise, ◌>>=◌, is_upstream_error, pos,
}
use local_first_llm_privacy.Common.Chars.{Text}
use local_first_llm_privacy.SlidingWindow.{Window, init, feed, flush}
use local_first_llm_privacy.Sse.{SseEvent, SseEventParser, parser_init, parser_feed, parser_flush}
use local_first_llm_privacy.Json.{Json, JsonObject, get_field}
use local_first_llm_privacy.ChatStream.{
  choices_key, delta_key, content_key, first_choice, as_object, ChatEvent, content_delta,
  done_marker, parse_event, serialize_content_delta, serialize_done,
}

unfoldable pub has_content_slot : JsonObject → Bool
has_content_slot envelope = elim (first_choice (get_field choices_key envelope)) [
  | none ↦ false
  | some chosen ↦ elim (as_object (get_field delta_key chosen.0)) [
    | none ↦ false
    | some delta ↦ is_some (get_field content_key delta)
  ]
]

-- What a `yield` sends: an envelope with its new content, or the sentinel.
pub data Output : Type 0 where
  delta_line : JsonObject → Text → Output
  done_line : Output

unfoldable pub render : (Json → Text) → Output → Text
render dumps (delta_line envelope content) = serialize_content_delta dumps envelope content
render dumps done_line = serialize_done

-- The generator's local variables.
pub record StreamState : Type 0 where
  pub parser : SseEventParser
  pub window : Window
  pub last_content_delta : Option JsonObject
  pub pending_structural_delta : Option (Text × JsonObject)

unfoldable pub released_line : JsonObject → Text → List Output
released_line envelope released = if is_nil released then [] else delta_line envelope released ∷ []

-- A decoded delta, in either of the two loops.
unfoldable pub handle_delta : StreamState → Text → JsonObject → Result (List Output × StreamState)
handle_delta st content envelope =
    if has_content_slot envelope
    then (do
      (released, window') ← feed st.window content
      ok (
        released_line envelope released,
        record st { window = window'; last_content_delta = some envelope },
      ))
    else ok ([], record st { pending_structural_delta = some (content, envelope) })

unfoldable pub last_line : Option JsonObject → Text → List Output
last_line none released = []
last_line (some envelope) released = released_line envelope released

unfoldable pub pending_line : Option (Text × JsonObject) → List Output
pending_line none = []
pending_line (some (content, envelope)) = delta_line envelope content ∷ []

-- The end of a stream, after the sentinel or without one.
unfoldable pub close : StreamState → Result (List Output)
close st = do
  (released, window') ← flush st.window
  ok (
      last_line st.last_content_delta released
      ++ (pending_line st.pending_structural_delta ++ (done_line ∷ [])))

-- How a loop was left: at the end of its list, by a malformed event, or by `return`.
pub data Outcome : Type 0 where
  running : StreamState → Outcome
  broken : StreamState → Outcome
  finished : Outcome

module _ (loads : Text → Result Json) where
  unfoldable pub consume_events : StreamState → List SseEvent → Result (List Output × Outcome)
  consume_events st [] = ok ([], running st)
  consume_events st (event ∷ events) = elim (parse_event loads event) [
    | raise e ↦ if is_upstream_error e then ok ([], broken st) else raise e
    | ok done_marker ↦ close st >>= λ outs. ok (outs, finished)
    | ok (content_delta content envelope) ↦ handle_delta st content envelope >>= λ handled.
        consume_events handled.1 events >>= λ rest. ok (handled.0 ++ rest.0, rest.1)
  ]

  -- The loop over the upstream's text.
  unfoldable pub consume_chunks : StreamState → List Text → Result (List Output × Outcome)
  consume_chunks st [] = ok ([], broken st)
  consume_chunks st (chunk ∷ chunks) =
      let fed = parser_feed st.parser chunk in
      consume_events (record st { parser = fed.1 }) fed.0 >>= λ step. elim step.1 [
        | running st' ↦ consume_chunks st' chunks >>= λ rest. ok (step.0 ++ rest.0, rest.1)
        | broken st' ↦ ok (step.0, broken st')
        | finished ↦ ok (step.0, finished)
      ]

  -- The loop over what the parser still held: malformed events and the sentinel are passed over.
  unfoldable pub drain_events : StreamState → List SseEvent → Result (List Output × StreamState)
  drain_events st [] = ok ([], st)
  drain_events st (event ∷ events) = elim (parse_event loads event) [
    | raise e ↦ let rest = drain_events st events in if is_upstream_error e then rest else raise e
    | ok done_marker ↦ drain_events st events
    | ok (content_delta content envelope) ↦ handle_delta st content envelope >>= λ handled.
        drain_events handled.1 events >>= λ rest. ok (handled.0 ++ rest.0, rest.1)
  ]

  unfoldable pub terminate : StreamState → Result (List Output)
  terminate st =
      let flushed = parser_flush st.parser in
      drain_events (record st { parser = flushed.1 }) flushed.0 >>= λ drained.
      close drained.1 >>= λ outs. ok (drained.0 ++ outs)

  unfoldable pub run_stream : StreamState → List Text → Result (List Output)
  run_stream st chunks = consume_chunks st chunks >>= λ step. elim step.1 [
    | running st' ↦ terminate st' >>= λ outs. ok (step.0 ++ outs)
    | broken st' ↦ terminate st' >>= λ outs. ok (step.0 ++ outs)
    | finished ↦ ok step.0
  ]

  unfoldable pub generate_sse : ℕ → (Text → Result Text) → List Text → Result (List Output)
  generate_sse lookahead rehydrate_buffer chunks =
      init (pos lookahead) (some rehydrate_buffer) >>= λ window.
      run_stream
        (record {
          parser = parser_init;
          window = window;
          last_content_delta = none;
          pending_structural_delta = none;
        })
        chunks

  -- The text that is sent, line by line.
  unfoldable pub sent : (Json → Text) → ℕ → (Text → Result Text) → List Text → Result (List Text)
  sent dumps lookahead rehydrate_buffer chunks =
      generate_sse lookahead rehydrate_buffer chunks >>= λ outs. ok (map (render dumps) outs)

-- ===== src/Streaming/Ending.antt =====
-- Every stream ends, and ends in one way (src/proxy/routes.py).
use local_first_llm_privacy.Common.{
  ℕ, true, all, List, [], ◌∷◌, ◌++◌, Result, ok, raise, ◌>>=◌, Bool-cases, inl, inr, ◌≡◌, refl,
  is_upstream_error,
}
use local_first_llm_privacy.Common.Chars.{Text}
use local_first_llm_privacy.SlidingWindow.{init}
use local_first_llm_privacy.Sse.{SseEvent, parser_feed, parser_flush}
use local_first_llm_privacy.Json.{Json}
use local_first_llm_privacy.ChatStream.{ChatEvent, content_delta, done_marker, parse_event}
use local_first_llm_privacy.Streaming.{
  Output, StreamState, handle_delta, close, Outcome, running, broken, finished, consume_events,
  consume_chunks, drain_events, terminate, run_stream, generate_sse,
}
use local_first_llm_privacy.Streaming.Steps.{
  is_delta, ends_done, ends_done-append, all_both, Goes, Goes-bind, Goes-same, IsOpen, Deltas,
  handle_delta-Goes, close-Goes, parse_event-raises,
}

module _ (loads : Text → Result Json) (t : Text → Result Text) where
  -- What a loop leaves behind.
  abbrev Leaves : List Output × Outcome → Type 0
  Leaves (outs, finished) = ends_done outs ≡ true
  Leaves (outs, running st) = (all is_delta outs ≡ true) × IsOpen loads t st
  Leaves (outs, broken st) = (all is_delta outs ≡ true) × IsOpen loads t st

  Leaves-append :
      (a b : List Output) (o : Outcome) → all is_delta a ≡ true → Leaves (b, o) → Leaves (a ++ b, o)
  Leaves-append a b finished h l = ends_done-append a b h l
  Leaves-append a b (running st) h (l, w) = (all_both a b h l, w)
  Leaves-append a b (broken st) h (l, w) = (all_both a b h l, w)

  abbrev EventsGo : List SseEvent → Type 0
  EventsGo events =
      (st : StreamState) → IsOpen loads t st → Goes loads t (consume_events loads st events) Leaves

  consume_events-Goes : (events : List SseEvent) → EventsGo events
  unfolding consume_events
  consume_events-Goes [] st w = inl (([], running st), refl, (refl, w))
  consume_events-Goes (event ∷ events) st w =
      by_case (consume_events-Goes events) (parse_event loads event) refl
    where
      by_case :
          EventsGo events
          → (parsed : Result ChatEvent) → parse_event loads event ≡ parsed
          → Goes loads t (consume_events loads st (event ∷ events)) Leaves
      by_case later (raise x) h = elim (Bool-cases (is_upstream_error x)) [
        | inl u ↦ inl (([], broken st), rw (consume_events, h, u) refl, (refl, w))
        | inr u ↦
            inr (x, rw (consume_events, h, u) refl, inl (parse_event-raises loads t event x h u))
      ]
      by_case later (ok done_marker) h =
          Goes-same loads t _ _ Leaves (rw (consume_events, h) refl) (
            Goes-bind loads t (close st) (λ outs. ok (outs, finished)) _ Leaves
              (close-Goes loads t st w) (λ outs ended. inl ((outs, finished), refl, ended)))
      by_case later (ok (content_delta content envelope)) h =
          Goes-same loads t _ _ Leaves (rw (consume_events, h) refl) (
            Goes-bind loads t (handle_delta st content envelope)
              (λ handled.
                consume_events loads handled.1 events >>= λ rest. ok (handled.0 ++ rest.0, rest.1))
              (Deltas loads t) Leaves (handle_delta-Goes loads t st content envelope w)
              (λ handled gone.
                Goes-bind loads t (consume_events loads handled.1 events)
                  (λ rest. ok (handled.0 ++ rest.0, rest.1)) Leaves Leaves (later handled.1 gone.1)
                  (λ rest leaves. inl (
                    (handled.0 ++ rest.0, rest.1),
                    refl,
                    Leaves-append handled.0 rest.0 rest.1 gone.0 leaves,
                  ))))

  consume_chunks-Goes :
      (chunks : List Text) (st : StreamState)
      → IsOpen loads t st
      → Goes loads t (consume_chunks loads st chunks) Leaves
  unfolding consume_chunks
  consume_chunks-Goes [] st w = inl (([], broken st), refl, (refl, w))
  consume_chunks-Goes (chunk ∷ chunks) st w =
      let fed = parser_feed st.parser chunk in
      Goes-bind loads t (consume_events loads (record st { parser = fed.1 }) fed.0) _ Leaves Leaves
        (consume_events-Goes fed.0 (record st { parser = fed.1 }) w)
        (λ step leaves. after (consume_chunks-Goes chunks) step.0 step.1 leaves)
    where
      after :
          ((st' : StreamState)
            → IsOpen loads t st'
            → Goes loads t (consume_chunks loads st' chunks) Leaves)
          → (outs : List Output) (o : Outcome) → Leaves (outs, o)
          → Goes loads t
              (elim o [
                | running st' ↦
                    consume_chunks loads st' chunks >>= λ rest. ok (outs ++ rest.0, rest.1)
                | broken st' ↦ ok (outs, broken st')
                | finished ↦ ok (outs, finished)
              ])
              Leaves
      after later outs (running st') (deltas, w') =
          Goes-bind loads t (consume_chunks loads st' chunks) (λ rest. ok (outs ++ rest.0, rest.1))
            Leaves Leaves (later st' w')
            (λ rest leaves.
              inl ((outs ++ rest.0, rest.1), refl, Leaves-append outs rest.0 rest.1 deltas leaves))
      after later outs (broken st') leaves = inl ((outs, broken st'), refl, leaves)
      after later outs finished leaves = inl ((outs, finished), refl, leaves)

  abbrev DrainGoes : List SseEvent → Type 0
  DrainGoes events =
      (st : StreamState)
      → IsOpen loads t st
      → Goes loads t (drain_events loads st events) (Deltas loads t)

  drain_events-Goes : (events : List SseEvent) → DrainGoes events
  unfolding drain_events
  drain_events-Goes [] st w = inl (([], st), refl, (refl, w))
  drain_events-Goes (event ∷ events) st w =
      by_case (drain_events-Goes events) (parse_event loads event) refl
    where
      by_case :
          DrainGoes events
          → (parsed : Result ChatEvent) → parse_event loads event ≡ parsed
          → Goes loads t (drain_events loads st (event ∷ events)) (Deltas loads t)
      by_case later (raise x) h = elim (Bool-cases (is_upstream_error x)) [
        | inl u ↦ Goes-same loads t _ _ (Deltas loads t) (rw (drain_events, h, u) refl) (later st w)
        | inr u ↦
            inr (x, rw (drain_events, h, u) refl, inl (parse_event-raises loads t event x h u))
      ]
      by_case later (ok done_marker) h =
          Goes-same loads t _ _ (Deltas loads t) (rw (drain_events, h) refl) (later st w)
      by_case later (ok (content_delta content envelope)) h =
          Goes-same loads t _ _ (Deltas loads t) (rw (drain_events, h) refl) (
            Goes-bind loads t (handle_delta st content envelope)
              (λ handled.
                drain_events loads handled.1 events >>= λ rest. ok (handled.0 ++ rest.0, rest.1))
              (Deltas loads t) (Deltas loads t) (handle_delta-Goes loads t st content envelope w)
              (λ handled gone.
                Goes-bind loads t (drain_events loads handled.1 events)
                  (λ rest. ok (handled.0 ++ rest.0, rest.1)) (Deltas loads t) (Deltas loads t)
                  (later handled.1 gone.1)
                  (λ rest leaves. inl (
                    (handled.0 ++ rest.0, rest.1),
                    refl,
                    (all_both handled.0 rest.0 gone.0 leaves.0, leaves.1),
                  ))))

  abbrev Ended : List Output → Type 0
  Ended outs = ends_done outs ≡ true

  terminate-Goes : (st : StreamState) → IsOpen loads t st → Goes loads t (terminate loads st) Ended
  unfolding terminate
  terminate-Goes st w =
      let flushed = parser_flush st.parser in
      Goes-bind loads t (drain_events loads (record st { parser = flushed.1 }) flushed.0) _
        (Deltas loads t) Ended (drain_events-Goes flushed.0 (record st { parser = flushed.1 }) w)
        (λ drained gone.
          Goes-bind loads t (close drained.1) _ Ended Ended (close-Goes loads t drained.1 gone.1)
            (λ outs ended.
              inl (drained.0 ++ outs, refl, ends_done-append drained.0 outs gone.0 ended)))

  run_stream-Goes :
      (st : StreamState) (chunks : List Text)
      → IsOpen loads t st
      → Goes loads t (run_stream loads st chunks) Ended
  unfolding run_stream
  run_stream-Goes st chunks w =
      Goes-bind loads t (consume_chunks loads st chunks) _ Leaves Ended
        (consume_chunks-Goes chunks st w) (λ step leaves. after step.0 step.1 leaves)
    where
      last :
          (outs : List Output) (st' : StreamState)
          → all is_delta outs ≡ true
          → IsOpen loads t st'
          → Goes loads t (terminate loads st' >>= λ more. ok (outs ++ more)) Ended
      last outs st' deltas w' =
          Goes-bind loads t (terminate loads st') (λ more. ok (outs ++ more)) Ended Ended
            (terminate-Goes st' w')
            (λ more ended. inl (outs ++ more, refl, ends_done-append outs more deltas ended))

      after :
          (outs : List Output) (o : Outcome)
          → Leaves (outs, o)
          → Goes loads t
              (elim o [
                | running st' ↦ terminate loads st' >>= λ more. ok (outs ++ more)
                | broken st' ↦ terminate loads st' >>= λ more. ok (outs ++ more)
                | finished ↦ ok outs
              ])
              Ended
      after outs finished leaves = inl (outs, refl, leaves)
      after outs (running st') (deltas, w') = last outs st' deltas w'
      after outs (broken st') (deltas, w') = last outs st' deltas w'

  -- Whatever the upstream sends, in whatever chunks, cut off anywhere, with or without its sentinel and with
  -- malformed events, the response either is a list of deltas followed by the sentinel, which stands
  -- once and last; or it ends with an error other than `JSONDecodeError` that `json.loads` raised on
  -- some text, or with one that the rehydration raised on some text. Nothing else ends it.
  pub generate_sse-ends_done :
      (lookahead : ℕ) (chunks : List Text)
      → Goes loads t (generate_sse loads lookahead t chunks) (λ outs. ends_done outs ≡ true)
  unfolding generate_sse init
  generate_sse-ends_done lookahead chunks = run_stream-Goes _ chunks (refl, refl)

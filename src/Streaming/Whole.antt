-- ===== src/Streaming/Whole.antt =====
-- The whole streaming response, from the upstream's first chunk to the sentinel (src/proxy/routes.py).
use local_first_llm_privacy.Common.{
  ℕ, ◌≤◌, List, [], ◌∷◌, ◌++◌, length, ok, ◌>>=◌, >>=-eq-ok, ok-injective, inr, ◌≡◌, refl, sym, ap,
  ◌∙◌, arith, append_assoc, append-nil, subst, Result,
}
use local_first_llm_privacy.Common.Chars.{Text}
use local_first_llm_privacy.SlidingWindow.{init}
use local_first_llm_privacy.SlidingWindow.Stream.{IsLocal, IsStable, LooksBack, stable-IsLocal}
use local_first_llm_privacy.Sse.{SseEvent, SseEventParser, parser_init, parser_feed, parser_flush}
use local_first_llm_privacy.Sse.Chunks.{parse}
use local_first_llm_privacy.Json.{Json}
use local_first_llm_privacy.ChatStream.{ChatEvent, content_delta, done_marker, parse_event}
use local_first_llm_privacy.Streaming.{
  Output, StreamState, Outcome, running, broken, finished, consume_events, consume_chunks,
  drain_events, terminate, run_stream, generate_sse,
}
use local_first_llm_privacy.Streaming.Content.{
  heard_all, said, decode_all, heard_all-append, parse_event-content,
}
use local_first_llm_privacy.Streaming.Relay.{
  carries, waits, IsReady, handle_delta-IsReady, close-heard,
}
use local_first_llm_privacy.Streaming.Events.{
  said-append, decode_all-append, flush_at_most_one, Passed, consume_events-Passed,
}

module _ (loads : Text → Result Json) (n : ℕ) (t : Text → Text) (local : IsLocal n t)
    (empty : t [] ≡ []) where
  abbrev Drained : Text → List ChatEvent → List Output → StreamState → Type 0
  Drained b xs outs st' =
      (b' : Text) × IsReady n t b' st' × (heard_all outs ++ t b' ≡ t (b ++ said xs))

  drain_one :
      (event : SseEvent) (b : Text) (st : StreamState) (x : ChatEvent)
      → parse_event loads event ≡ ok x
      → IsReady n t b st
      → (outs : List Output) × (st' : StreamState) × (drain_events loads st (event ∷ [])
          ≡ ok (outs, st'))
        × Drained b (x ∷ []) outs st'
  unfolding drain_events said heard_all
  drain_one event b st done_marker parsed ready =
      ([], st, rw (drain_events, parsed) refl, (b, ready, ap t (sym (append-nil b))))
  drain_one event b st (content_delta c e) parsed ready =
      let (outs, st', b', handled, ready', kept, first) =
        handle_delta-IsReady n t b st c e local (parse_event-content loads event c e parsed)
          ready in
      (
        outs ++ [],
        st',
        rw (drain_events, parsed, handled) refl,
        (
          b',
          ready',
          ap (λ o. heard_all o ++ t b') (append-nil outs)
              ∙ ap (λ r. heard_all outs ++ t r) (sym (append-nil b'))
              ∙ first [],
        ),
      )

  drain_events-Drained :
      (events : List SseEvent) (b : Text) (st : StreamState) (xs : List ChatEvent)
      → length events ≤ 1
      → decode_all loads events ≡ ok xs
      → IsReady n t b st
      → (outs : List Output) × (st' : StreamState) × (drain_events loads st events ≡ ok (outs, st'))
        × Drained b xs outs st'
  unfolding decode_all drain_events said heard_all
  drain_events-Drained [] b st xs short decoded ready = (
    [],
    st,
    refl,
    subst (λ y. Drained b y [] st) (ok-injective decoded) (b, ready, ap t (sym (append-nil b))),
  )
  drain_events-Drained (event ∷ []) b st xs short decoded ready =
      let (x, parsed, h) = >>=-eq-ok (parse_event loads event) _ decoded in
      let (outs, st', run, drained) = drain_one event b st x parsed ready in
      (outs, st', run, subst (λ y. Drained b y outs st') (ok-injective h) drained)
  drain_events-Drained (event ∷ event' ∷ events) b st xs short decoded ready = absurd (omega arith)

  with_parser :
      (b : Text) (st : StreamState) (p : SseEventParser)
      → IsReady n t b st
      → IsReady n t b (record st { parser = p })
  with_parser b st p ready = record {
    window_holds = ready.window_holds;
    carrier = ready.carrier;
    waiting = ready.waiting;
    carrier_or_nothing = ready.carrier_or_nothing;
  }

  terminate-heard :
      (b : Text) (st : StreamState) (xs : List ChatEvent)
      → decode_all loads (parser_flush st.parser).0 ≡ ok xs
      → IsReady n t b st
      → (outs : List Output) × (terminate loads st ≡ ok outs) × (heard_all outs ≡ t (b ++ said xs))
  unfolding terminate
  terminate-heard b st xs decoded ready =
      let flushed = parser_flush st.parser in
      let (outs, st', run, drained) =
        drain_events-Drained flushed.0 b (record st { parser = flushed.1 }) xs
          (flush_at_most_one st.parser) decoded (with_parser b st flushed.1 ready) in
      let (b', ready', h) = drained in
      let (last, closed, h') = close-heard n t b' st' empty ready' in
      (
        outs ++ last,
        rw (run, closed) refl,
        heard_all-append outs last ∙ ap (λ r. heard_all outs ++ r) h' ∙ h,
      )

  -- A chunk whose events leave the loop running goes before the run of the rest.
  run_stream-running :
      (st st' : StreamState) (chunk : Text) (chunks : List Text) (outs outs' : List Output)
      → consume_events loads
          (record st { parser = (parser_feed st.parser chunk).1 })
          (parser_feed st.parser chunk).0
        ≡ ok (outs, running st')
      → run_stream loads st' chunks ≡ ok outs'
      → run_stream loads st (chunk ∷ chunks) ≡ ok (outs ++ outs')
  unfolding run_stream consume_chunks
  run_stream-running st st' chunk chunks outs outs' step rest =
      let ((r, o), e, h) = >>=-eq-ok (consume_chunks loads st' chunks) _ rest in by_outcome r o e h
    where
      after :
          (r : List Output) (st'' : StreamState)
          → (terminate loads st'' >>= λ l. ok (r ++ l)) ≡ ok outs'
          → (terminate loads st'' >>= λ l. ok ((outs ++ r) ++ l)) ≡ ok (outs ++ outs')
      after r st'' h =
          let (l, e, h') = >>=-eq-ok (terminate loads st'') _ h in
          rw e (ap (λ x. ok x) (append_assoc outs r l ∙ ap (λ x. outs ++ x) (ok-injective h')))

      by_outcome :
          (r : List Output) (o : Outcome)
          → consume_chunks loads st' chunks ≡ ok (r, o)
          → (elim o [
            | running st'' ↦ terminate loads st'' >>= λ l. ok (r ++ l)
            | broken st'' ↦ terminate loads st'' >>= λ l. ok (r ++ l)
            | finished ↦ ok r
          ])
            ≡ ok outs'
          → run_stream loads st (chunk ∷ chunks) ≡ ok (outs ++ outs')
      by_outcome r (running st'') e h = rw (run_stream, consume_chunks, step, e) (after r st'' h)
      by_outcome r (broken st'') e h = rw (run_stream, consume_chunks, step, e) (after r st'' h)
      by_outcome r finished e h =
          rw (run_stream, consume_chunks, step, e) (ap (λ x. ok (outs ++ x)) (ok-injective h))

  abbrev Relays : List Text → Type 0
  Relays chunks =
      (b : Text) (st : StreamState) (xs : List ChatEvent)
      → decode_all loads (parse st.parser chunks) ≡ ok xs
      → IsReady n t b st
      → (outs : List Output) × (run_stream loads st chunks ≡ ok outs)
        × (heard_all outs ≡ t (b ++ said xs))

  relay_chunk :
      (chunk : Text) (chunks : List Text) (b : Text) (st : StreamState) (xa xb : List ChatEvent)
      (outs : List Output) (o : Outcome)
      → Relays chunks
      → decode_all loads (parse (parser_feed st.parser chunk).1 chunks) ≡ ok xb
      → consume_events loads
          (record st { parser = (parser_feed st.parser chunk).1 })
          (parser_feed st.parser chunk).0
        ≡ ok (outs, o)
      → Passed loads n t local empty b xa outs o
      → ((st' : StreamState) → o ≡ running st' → st'.parser ≡ (parser_feed st.parser chunk).1)
      → (all_outs : List Output) × (run_stream loads st (chunk ∷ chunks) ≡ ok all_outs)
        × (heard_all all_outs ≡ t (b ++ said (xa ++ xb)))
  unfolding run_stream consume_chunks
  relay_chunk chunk chunks b st xa xb outs finished later decoded step (h, d) kept = (
    outs,
    rw (run_stream, consume_chunks, step) refl,
    h ∙ ap (λ r. t (b ++ r)) (sym (said-append xa xb ∙ rw d refl)),
  )
  relay_chunk chunk chunks b st xa xb outs (broken st') later decoded step (h, d) kept = cc
  relay_chunk chunk chunks b st xa xb outs (running st') later decoded step (b', ready, d, h) kept =
      let decoded' : decode_all loads (parse st'.parser chunks) ≡ ok xb =
        ap (λ p. decode_all loads (parse p chunks)) (kept st' refl) ∙ decoded in
      let (outs', run, h') = later b' st' xb decoded' ready in
      (
        outs ++ outs',
        run_stream-running st st' chunk chunks outs outs' step run,
        heard_all-append outs outs'
            ∙ ap (λ r. heard_all outs ++ r) h'
            ∙ h (said xb)
            ∙ ap (λ r. t (b ++ r)) (sym (said-append xa xb ∙ rw d refl)),
      )

  run_stream-Relays : (chunks : List Text) → Relays chunks
  unfolding parse run_stream consume_chunks
  run_stream-Relays [] b st xs decoded ready =
      let (outs, run, h) = terminate-heard b st xs decoded ready in (outs, rw run refl, h)
  run_stream-Relays (chunk ∷ chunks) b st xs decoded ready =
      let fed = parser_feed st.parser chunk in
      let (xa, xb, da, db, e) = decode_all-append loads fed.0 (parse fed.1 chunks) xs decoded in
      let (outs, o, run, passed, kept) =
        consume_events-Passed loads n t local empty fed.0 b (record st { parser = fed.1 }) xa da
          (with_parser b st fed.1 ready) in
      let (all_outs, ran, h) =
        relay_chunk chunk chunks b st xa xb outs o (run_stream-Relays chunks) db run passed kept in
      (all_outs, ran, h ∙ ap (λ x. t (b ++ said x)) (sym e))

returned-heard :
    (loads : Text → Result Json) (n : ℕ) (f : Text → Text) (chunks : List Text)
    (events : List ChatEvent)
    → IsLocal n f
    → f [] ≡ []
    → decode_all loads (parse parser_init chunks) ≡ ok events
    → (outs : List Output) × (generate_sse loads n (λ s. ok (f s)) chunks ≡ ok outs)
      × (heard_all outs ≡ f (said events))
unfolding generate_sse init carries waits
returned-heard loads n f chunks events local empty decoded =
    run_stream-Relays loads n f local empty chunks [] _ events decoded (record {
      window_holds = refl;
      carrier = refl;
      waiting = refl;
      carrier_or_nothing = inr refl;
    })

-- What the client reads out of the response is the transformation of what the upstream said before its
-- sentinel, or before its end, however the upstream's text is cut into chunks, when every event of it
-- is well formed and the transformation returns on every text, looks back over no more than the
-- lookahead, changes nothing when it is applied again to what it made, whatever text follows, and
-- keeps the empty text.
pub generate_sse-heard :
    (loads : Text → Result Json) (lookahead : ℕ) (rehydrate_buffer : Text → Result Text)
    (f : Text → Text) (chunks : List Text) (events : List ChatEvent)
    → ((s : Text) → rehydrate_buffer s ≡ ok (f s))
    → IsStable f
    → LooksBack lookahead f
    → f [] ≡ []
    → decode_all loads (parse parser_init chunks) ≡ ok events
    → (outs : List Output) × (generate_sse loads lookahead rehydrate_buffer chunks ≡ ok outs)
      × (heard_all outs ≡ f (said events))
generate_sse-heard loads lookahead rehydrate_buffer f chunks events returns stable back empty
      decoded =
    let (outs, run, heard) =
      returned-heard loads lookahead f chunks events (stable-IsLocal lookahead f stable back) empty
        decoded in
    let same : rehydrate_buffer ≡ (λ s. ok (f s)) = λ i s. returns s i in
    (outs, ap (λ r. generate_sse loads lookahead r chunks) same ∙ run, heard)

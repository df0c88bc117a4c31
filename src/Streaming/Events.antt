-- ===== src/Streaming/Events.antt =====
-- The loops over the upstream's events relay its text (src/proxy/routes.py).
use local_first_llm_privacy.Common.{
  ℕ, ◌≤◌, true, false, is_nil, List, [], ◌∷◌, ◌++◌, length, none, ok, >>=-eq-ok, ok-injective,
  Bool-cases, inl, inr, ◌≡◌, refl, sym, ap, ◌∙◌, arith, append_assoc, append-nil, if◌then◌else◌,
  subst, Result,
}
use local_first_llm_privacy.Common.Chars.{Text}
use local_first_llm_privacy.SlidingWindow.Stream.{IsLocal}
use local_first_llm_privacy.Sse.{
  SseEvent, SseEventParser, parser_flush, split_flush, handle_line, handle_lines, startswith,
  data_field, colon,
}
use local_first_llm_privacy.Json.{Json, JsonObject}
use local_first_llm_privacy.ChatStream.{ChatEvent, content_delta, done_marker, parse_event}
use local_first_llm_privacy.Streaming.{
  Output, StreamState, Outcome, running, broken, finished, consume_events,
}
use local_first_llm_privacy.Streaming.Content.{
  heard_all, said, decode_all, heard_all-append, parse_event-content,
}
use local_first_llm_privacy.Streaming.Relay.{has_done, IsReady, handle_delta-IsReady, close-heard}

pub said-append :
    (a b : List ChatEvent) → said (a ++ b) ≡ (if has_done a then said a else said a ++ said b)
unfolding said has_done
said-append [] b = refl
said-append (content_delta c e ∷ a) b = elim (Bool-cases (has_done a)) [
  | inl h ↦ rw h (ap (λ r. c ++ r) (said-append a b ∙ rw h refl))
  | inr h ↦
      rw h (ap (λ r. c ++ r) (said-append a b ∙ rw h refl) ∙ sym (append_assoc c (said a) (said b)))
]
said-append (done_marker ∷ a) b = refl

pub decode_all-append :
    (loads : Text → Result Json) (a b : List SseEvent) (xs : List ChatEvent)
    → decode_all loads (a ++ b) ≡ ok xs
    → (xa xb : List ChatEvent) × (decode_all loads a ≡ ok xa)
      × (decode_all loads b ≡ ok xb)
      × (xs ≡ xa ++ xb)
unfolding decode_all
decode_all-append loads [] b xs h = ([], xs, refl, h, refl)
decode_all-append loads (event ∷ a) b xs h =
    let (x, parsed, h') = >>=-eq-ok (parse_event loads event) _ h in
    let (rest, decoded, h'') = >>=-eq-ok (decode_all loads (a ++ b)) _ h' in
    let (xa, xb, da, db, e) = decode_all-append loads a b rest decoded in
    (x ∷ xa, xb, rw (parsed, da) refl, db, sym (ok-injective h'') ∙ ap (◌∷◌ x) e)

-- A flush completes one event at most.
handle_line-none :
    (d : List Text) (line : Text) → is_nil line ≡ false → (handle_line d line).0 ≡ none
unfolding handle_line
handle_line-none d line h = elim (Bool-cases (startswith line (colon ∷ []))) [
  | inl c ↦ rw (h, c) refl
  | inr c ↦ elim (Bool-cases (startswith line data_field)) [
    | inl f ↦ rw (h, c, f) refl
    | inr f ↦ rw (h, c, f) refl
  ]
]

flush_lines-none : (p : SseEventParser) → (handle_lines p.data_lines (split_flush p.lines).0).0 ≡ []
unfolding split_flush handle_lines
flush_lines-none p = elim (Bool-cases (is_nil p.lines.buffer)) [
  | inl e ↦ rw e refl
  | inr e ↦ rw (e, handle_line-none p.data_lines p.lines.buffer e) refl
]

pub flush_at_most_one : (p : SseEventParser) → length (parser_flush p).0 ≤ 1
unfolding parser_flush
flush_at_most_one p =
    let nothing = flush_lines-none p in
    elim (Bool-cases (is_nil (handle_lines p.data_lines (split_flush p.lines).0).1)) [
      | inl e ↦ rw (e, nothing) (omega arith)
      | inr e ↦ rw (e, nothing) (omega arith)
    ]

module _ (loads : Text → Result Json) (n : ℕ) (t : Text → Text) (local : IsLocal n t)
    (empty : t [] ≡ []) where
  -- What the loop over one list of events has relayed of `b` and the events' text.
  abbrev pub Passed : Text → List ChatEvent → List Output → Outcome → Type 0
  Passed b xs outs finished = (heard_all outs ≡ t (b ++ said xs)) × (has_done xs ≡ true)
  Passed b xs outs (broken st) = Unit {0} × (true ≡ false)
  Passed b xs outs (running st) =
      (b' : Text) × IsReady n t b' st
      × (has_done xs ≡ false)
      × ((z : Text) → heard_all outs ++ t (b' ++ z) ≡ t (b ++ (said xs ++ z)))

  abbrev pub EventsPass : List SseEvent → Type 0
  EventsPass events =
      (b : Text) (st : StreamState) (xs : List ChatEvent)
      → decode_all loads events ≡ ok xs
      → IsReady n t b st
      → (outs : List Output) × (o : Outcome) × (consume_events loads st events ≡ ok (outs, o))
        × Passed b xs outs o
        × ((st' : StreamState) → o ≡ running st' → st'.parser ≡ st.parser)

  Passed-append :
      (b b' : Text) (c : Text) (e : JsonObject) (xs : List ChatEvent) (outs rest : List Output)
      (o : Outcome)
      → ((z : Text) → heard_all outs ++ t (b' ++ z) ≡ t (b ++ (c ++ z)))
      → Passed b' xs rest o
      → Passed b (content_delta c e ∷ xs) (outs ++ rest) o
  unfolding said has_done
  Passed-append b b' c e xs outs rest finished first (h, d) =
      (heard_all-append outs rest ∙ ap (λ r. heard_all outs ++ r) h ∙ first (said xs), d)
  Passed-append b b' c e xs outs rest (broken st) first (h, d) = (h, d)
  Passed-append b b' c e xs outs rest (running st) first (b'', ready, d, h) = (
    b'',
    ready,
    d,
    λ z.
        ap (λ r. r ++ t (b'' ++ z)) (heard_all-append outs rest)
        ∙ append_assoc (heard_all outs) (heard_all rest) (t (b'' ++ z))
        ∙ ap (λ r. heard_all outs ++ r) (h z)
        ∙ first (said xs ++ z)
        ∙ ap (λ r. t (b ++ r)) (sym (append_assoc c (said xs) z)),
  )

  consume_event :
      (event : SseEvent) (events : List SseEvent) (b : Text) (st : StreamState) (x : ChatEvent)
      (xs : List ChatEvent)
      → EventsPass events
      → parse_event loads event ≡ ok x
      → decode_all loads events ≡ ok xs
      → IsReady n t b st
      → (outs : List Output) × (o : Outcome) × (consume_events loads st (event ∷ events)
          ≡ ok (outs, o))
        × Passed b (x ∷ xs) outs o
        × ((st' : StreamState) → o ≡ running st' → st'.parser ≡ st.parser)
  unfolding said has_done consume_events
  consume_event event events b st done_marker xs later parsed decoded ready =
      let (outs, closed, h) = close-heard n t b st empty ready in
      (
        outs,
        finished,
        rw (consume_events, parsed, closed) refl,
        (h ∙ ap t (sym (append-nil b)), refl),
        λ st' e. absurd (ground (arith, e)),
      )
  consume_event event events b st (content_delta c e) xs later parsed decoded ready =
      let (outs, st', b', handled, ready', kept, first) =
        handle_delta-IsReady n t b st c e local (parse_event-content loads event c e parsed)
          ready in
      let (rest, o, run, passed, kept') = later b' st' xs decoded ready' in
      (
        outs ++ rest,
        o,
        rw (consume_events, parsed, handled, run) refl,
        Passed-append b b' c e xs outs rest o first passed,
        λ st'' q. kept' st'' q ∙ kept,
      )

  pub consume_events-Passed : (events : List SseEvent) → EventsPass events
  unfolding decode_all consume_events said has_done heard_all
  consume_events-Passed [] b st xs decoded ready =
      ([], running st, refl, passed_nothing, λ st' e. ap parser_of (sym e))
    where
      parser_of : Outcome → SseEventParser
      parser_of (running s) = s.parser
      parser_of _ = st.parser

      passed_nothing : Passed b xs [] (running st)
      passed_nothing =
          subst (λ y. Passed b y [] (running st)) (ok-injective decoded) (b, ready, refl, λ z. refl)
  consume_events-Passed (event ∷ events) b st xs decoded ready =
      let (x, parsed, h) = >>=-eq-ok (parse_event loads event) _ decoded in
      let (rest, decoded', h') = >>=-eq-ok (decode_all loads events) _ h in
      let (outs, o, run, passed, kept) =
        consume_event event events b st x rest (consume_events-Passed events) parsed decoded'
          ready in
      (outs, o, run, subst (λ y. Passed b y outs o) (ok-injective h') passed, kept)

-- ===== src/Sse/Roundtrip.antt =====
-- A stream of events as a server writes it, read back (src/proxy/sse_framing.py).
use local_first_llm_privacy.Common.{
  Bool, true, false, ◌==◌, ◌&&◌, not, all, is_nil, List, ◌∷◌, [], ◌++◌, map, concat, none, ◌≡◌,
  refl, ap, sym, ◌∙◌, arith, append_assoc, append-nil,
}
use local_first_llm_privacy.Common.Chars.{Text}
use local_first_llm_privacy.Sse.{
  lf, cr, space, data_field, split_char, split_feed, split_flush, SseEvent, SseEventParser,
  join_lines, field_value, dispatch, handle_line, handle_lines, parser_init, parser_feed,
  parser_flush,
}
use local_first_llm_privacy.Sse.Chunks.{parse, split_feed-append, parser_feed-append, parse-concat}

-- The three line ends of the protocol.
pub data LineEnd : Type 0 where
  unix : LineEnd
  dos : LineEnd
  mac : LineEnd

unfoldable pub eol : LineEnd → Text
eol unix = lf ∷ []
eol dos = cr ∷ lf ∷ []
eol mac = cr ∷ []

-- A line of an event's data, and an event of several lines.
unfoldable pub write_line : LineEnd → Text → Text
write_line e l = data_field ++ (space ∷ (l ++ eol e))

unfoldable pub write_lines : LineEnd → List Text → Text
write_lines e [] = []
write_lines e (l ∷ ls) = write_line e l ++ write_lines e ls

unfoldable pub write_event : LineEnd → List Text → Text
write_event e ls = write_lines e ls ++ eol e

unfoldable pub write_events : LineEnd → List (List Text) → Text
write_events e [] = []
write_events e (ls ∷ events) = write_event e ls ++ write_events e events

-- No line end inside.
unfoldable pub is_plain : Text → Bool
is_plain [] = true
is_plain (c ∷ l) = not (c == lf) && not (c == cr) && is_plain l

-- An event has a line, and its lines are plain.
unfoldable pub is_event : List Text → Bool
is_event ls = not (is_nil ls) && all is_plain ls

-- What the splitter waits for after a line end.
settled : LineEnd → Bool
settled unix = false
settled dos = false
settled mac = true

split_plain :
    (b l : Text)
    → is_plain l ≡ true
    → split_feed (record { buffer = b; pending_cr = false }) l
      ≡ ([], record { buffer = b ++ l; pending_cr = false })
unfolding split_feed split_char is_plain
split_plain b [] h = ap (λ b. ([], record { buffer = b; pending_cr = false })) (sym (append-nil b))
split_plain b (c ∷ l) h =
    let not_lf : (c == lf) ≡ false = ground arith in
    let not_cr : (c == cr) ≡ false = ground arith in
    let rest : is_plain l ≡ true = ground arith in
    rw (not_lf, not_cr, split_plain (b ++ (c ∷ [])) l rest, append_assoc b (c ∷ []) l) refl

split_eol :
    (e : LineEnd) (b : Text)
    → split_feed (record { buffer = b; pending_cr = false }) (eol e)
      ≡ (b ∷ [], record { buffer = []; pending_cr = settled e })
unfolding split_feed split_char eol settled
split_eol unix b = refl
split_eol dos b = refl
split_eol mac b = refl

split_blank :
    (e : LineEnd)
    → split_feed (record { buffer = []; pending_cr = settled e }) (eol e)
      ≡ ([] ∷ [], record { buffer = []; pending_cr = settled e })
unfolding split_feed split_char eol settled
split_blank unix = refl
split_blank dos = refl
split_blank mac = refl

-- A first character that is no line end clears a pending "\r".
split_fresh :
    (p : Bool) (t : Text)
    → split_feed (record { buffer = []; pending_cr = p }) (data_field ++ t)
      ≡ split_feed (record { buffer = data_field; pending_cr = false }) t
unfolding split_feed split_char
split_fresh false t = refl
split_fresh true t = refl

split_line :
    (e : LineEnd) (p : Bool) (l : Text)
    → is_plain l ≡ true
    → split_feed (record { buffer = []; pending_cr = p }) (write_line e l)
      ≡ ((data_field ++ (space ∷ l)) ∷ [], record { buffer = []; pending_cr = settled e })
unfolding write_line is_plain
split_line e p l h =
    let text = space ∷ l in
    let plain : is_plain text ≡ true = h in
    split_fresh p (text ++ eol e)
    ∙ split_feed-append (record { buffer = data_field; pending_cr = false }) text (eol e)
    ∙ rw (split_plain data_field text plain, split_eol e (data_field ++ text)) refl

handle_data :
    (d : List Text) (l : Text) → handle_line d (data_field ++ (space ∷ l)) ≡ (none, d ++ (l ∷ []))
unfolding handle_line field_value
handle_data d l = refl

waiting : LineEnd → Bool → List Text → SseEventParser
waiting e p d = record { lines = record { buffer = []; pending_cr = p }; data_lines = d }

feed_line :
    (e : LineEnd) (p : Bool) (d : List Text) (l : Text)
    → is_plain l ≡ true
    → parser_feed (waiting e p d) (write_line e l) ≡ ([], waiting e (settled e) (d ++ (l ∷ [])))
unfolding parser_feed handle_lines waiting
feed_line e p d l h = rw (split_line e p l h, handle_data d l) refl

feed_nothing : (p : SseEventParser) → parser_feed p [] ≡ ([], p)
unfolding parser_feed split_feed handle_lines
feed_nothing p = refl

feed_lines :
    (e : LineEnd) (d ls : List Text)
    → all is_plain ls ≡ true
    → parser_feed (waiting e (settled e) d) (write_lines e ls)
      ≡ ([], waiting e (settled e) (d ++ ls))
unfolding write_lines
feed_lines e d [] h =
    feed_nothing (waiting e (settled e) d)
    ∙ ap (λ d. ([], waiting e (settled e) d)) (sym (append-nil d))
feed_lines e d (l ∷ ls) h =
    let plain : is_plain l ≡ true = ground arith in
    let rest : all is_plain ls ≡ true = ground arith in
    parser_feed-append (waiting e (settled e) d) (write_line e l) (write_lines e ls)
    ∙ rw
        (
          feed_line e (settled e) d l plain,
          feed_lines e (d ++ (l ∷ [])) ls rest,
          append_assoc d (l ∷ []) ls,
        )
        refl

feed_blank :
    (e : LineEnd) (l : Text) (ls : List Text)
    → parser_feed (waiting e (settled e) (l ∷ ls)) (eol e)
      ≡ (record { data_value = join_lines (l ∷ ls) } ∷ [], waiting e (settled e) [])
unfolding parser_feed handle_lines handle_line dispatch waiting
feed_blank e l ls = rw (split_blank e) refl

-- An event from its first character on, whatever end of line was pending.
feed_event :
    (e : LineEnd) (p : Bool) (ls : List Text)
    → is_event ls ≡ true
    → parser_feed (waiting e p []) (write_event e ls)
      ≡ (record { data_value = join_lines ls } ∷ [], waiting e (settled e) [])
unfolding is_event write_event write_lines
feed_event e p [] h = cc
feed_event e p (l ∷ ls) h =
    let plain : is_plain l ≡ true = ground arith in
    let rest : all is_plain ls ≡ true = ground arith in
    ap (parser_feed (waiting e p [])) (append_assoc (write_line e l) (write_lines e ls) (eol e))
    ∙ parser_feed-append (waiting e p []) (write_line e l) (write_lines e ls ++ eol e)
    ∙ rw
        (
          feed_line e p [] l plain,
          parser_feed-append (waiting e (settled e) (l ∷ [])) (write_lines e ls) (eol e),
          feed_lines e (l ∷ []) ls rest,
          feed_blank e l ls,
        )
        refl

event_of : List Text → SseEvent
event_of ls = record { data_value = join_lines ls }

feed_events :
    (e : LineEnd) (p : Bool) (events : List (List Text))
    → all is_event events ≡ true
    → (q : Bool) × (parser_feed (waiting e p []) (write_events e events)
        ≡ (map event_of events, waiting e q []))
unfolding write_events event_of
feed_events e p [] h = (p, feed_nothing (waiting e p []))
feed_events e p (ls ∷ events) h =
    let this : is_event ls ≡ true = ground arith in
    let rest : all is_event events ≡ true = ground arith in
    let (q, fed) = feed_events e (settled e) events rest in
    (
      q,
      parser_feed-append (waiting e p []) (write_event e ls) (write_events e events)
          ∙ rw (feed_event e p ls this, fed) refl,
    )

flush_waiting : (e : LineEnd) (q : Bool) → (parser_flush (waiting e q [])).0 ≡ []
unfolding parser_flush split_flush handle_lines waiting
flush_waiting e q = refl

-- Events written with any of the three line ends are read back, in order and with their lines
-- joined, however the text of the stream is cut into chunks, when every event has a line and no line
-- holds a line end.
pub parse-write_events :
    (e : LineEnd) (events : List (List Text)) (chunks : List Text)
    → all is_event events ≡ true
    → concat chunks ≡ write_events e events
    → parse parser_init chunks ≡ map (λ ls. record { data_value = join_lines ls }) events
unfolding parser_init waiting parse event_of
parse-write_events e events chunks h written =
    let (q, fed) = feed_events e false events h in
    parse-concat parser_init chunks
    ∙ ap (λ text. parse parser_init (text ∷ [])) written
    ∙ rw (fed, flush_waiting e q) (append-nil _)

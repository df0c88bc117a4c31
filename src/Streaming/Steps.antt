-- ===== src/Streaming/Steps.antt =====
-- The steps of a stream: what each of them sends, and what may end it early (src/proxy/routes.py).
use local_first_llm_privacy.Common.{
  Bool, true, false, is_nil, all, List, [], ◌∷◌, ◌++◌, Option, none, some, Result, ok, raise, ◌>>=◌,
  Bool-cases, inl, inr, ◌≡◌, refl, arith, all-append, Error, ◌⊎◌, sym, ap, ◌∙◌, subst, is_some,
  text_eq, is_decode_error, is_upstream_error, caught-cases, Result-cases, Option-cases,
  upstream_error, caught,
}
use local_first_llm_privacy.Common.Chars.{Text}
use local_first_llm_privacy.SlidingWindow.{Window, transformed}
use local_first_llm_privacy.SlidingWindow.Stream.{feed-keeps_lookahead, flush-returns, flush-raises}
use local_first_llm_privacy.Sse.{SseEvent}
use local_first_llm_privacy.Json.{Json, JsonObject, get_field}
use local_first_llm_privacy.FieldWalker.Depth.{Escapes}
use local_first_llm_privacy.ChatStream.{
  extract_content, as_object, choices_key, done_sentinel, ChatEvent, content_delta, done_marker,
  parse_event,
}
use local_first_llm_privacy.Streaming.{
  has_content_slot, Output, delta_line, done_line, StreamState, released_line, handle_delta,
  last_line, pending_line, close,
}

unfoldable pub is_delta : Output → Bool
is_delta (delta_line envelope content) = true
is_delta done_line = false

-- Deltas, then the sentinel, once and last.
unfoldable pub ends_done : List Output → Bool
ends_done [] = false
ends_done (done_line ∷ outs) = is_nil outs
ends_done (delta_line envelope content ∷ outs) = ends_done outs

pub ends_done-append :
    (a b : List Output) → all is_delta a ≡ true → ends_done b ≡ true → ends_done (a ++ b) ≡ true
unfolding is_delta ends_done
ends_done-append [] b h e = e
ends_done-append (delta_line envelope content ∷ a) b h e = ends_done-append a b h e
ends_done-append (done_line ∷ a) b h e = cc

pub all_both :
    (a b : List Output)
    → all is_delta a ≡ true
    → all is_delta b ≡ true
    → all is_delta (a ++ b) ≡ true
all_both a b h k = ground (arith, all-append is_delta a b)

released_line-is_delta : (e : JsonObject) (t : Text) → all is_delta (released_line e t) ≡ true
unfolding released_line is_delta
released_line-is_delta e [] = refl
released_line-is_delta e (c ∷ t) = refl

last_line-is_delta : (o : Option JsonObject) (t : Text) → all is_delta (last_line o t) ≡ true
unfolding last_line
last_line-is_delta none t = refl
last_line-is_delta (some e) t = released_line-is_delta e t

pending_line-is_delta : (o : Option (Text × JsonObject)) → all is_delta (pending_line o) ≡ true
unfolding pending_line is_delta
pending_line-is_delta none = refl
pending_line-is_delta (some (c, e)) = refl

done_alone : ends_done (done_line ∷ []) ≡ true
unfolding ends_done
done_alone = refl

as_object-none : as_object none ≡ none
unfolding as_object
as_object-none = refl

raised-after :
    {A B : Type 0} (r : Result A) (k : A → Result B) (a : A) (x : Error)
    → r ≡ ok a
    → (r >>= k) ≡ raise x
    → k a ≡ raise x
raised-after r k a x e h = ap (λ m. m >>= k) (sym e) ∙ h

module _ (loads : Text → Result Json) (t : Text → Result Text) where
  -- What `json.loads` raised on some text, save for its `JSONDecodeError`, or the rehydration on some text.
  abbrev pub Uncaught : Error → Type 0
  Uncaught e = Escapes loads e ⊎ ((s : Text) × (t s ≡ raise e))

  -- A call that returns a result of that kind, or ends with such an error.
  abbrev pub Goes : {A : Type 0} → Result A → (A → Type 0) → Type 0
  Goes {A = A} r P = ((a : A) × (r ≡ ok a) × P a) ⊎ ((e : Error) × (r ≡ raise e) × Uncaught e)

  pub Goes-bind :
      {A B : Type 0} (r : Result A) (k : A → Result B) (P : A → Type 0) (Q : B → Type 0)
      → Goes r P
      → ((a : A) → P a → Goes (k a) Q)
      → Goes (r >>= k) Q
  Goes-bind r k P Q (inl (a, e, p)) next = subst (λ x. Goes (x >>= k) Q) (sym e) (next a p)
  Goes-bind r k P Q (inr (x, e, why)) next = inr (x, rw e refl, why)

  pub Goes-same : {A : Type 0} (r r' : Result A) (P : A → Type 0) → r ≡ r' → Goes r' P → Goes r P
  Goes-same r r' P e g = subst (λ x. Goes x P) (sym e) g

  abbrev pub IsOpen : StreamState → Type 0
  IsOpen st = (st.window.flushed ≡ false) × (st.window.transform ≡ some t)

  abbrev pub Deltas : List Output × StreamState → Type 0
  Deltas handled = (all is_delta handled.0 ≡ true) × IsOpen handled.1

  transformed-some :
      (w : Window) (s : Text) → w.transform ≡ some t → transformed w.transform s ≡ t s
  unfolding transformed
  transformed-some w s h = ap (λ o. transformed o s) h

  pub handle_delta-Goes :
      (st : StreamState) (content : Text) (envelope : JsonObject)
      → IsOpen st
      → Goes (handle_delta st content envelope) Deltas
  unfolding handle_delta
  handle_delta-Goes st content envelope (open_window, through) =
      elim (Bool-cases (has_content_slot envelope)) [
        | inr e ↦ inl (
          ([], record st { pending_structural_delta = some (content, envelope) }),
          rw (handle_delta, e) refl,
          (refl, (open_window, through)),
        )
        | inl e ↦ elim (feed-keeps_lookahead st.window content open_window) [
          | inl (x, failed, fed) ↦ inr (
            x,
            rw (handle_delta, e, fed) refl,
            inr (
              st.window.buffer ++ content,
              sym (transformed-some st.window (st.window.buffer ++ content) through) ∙ failed,
            ),
          )
          | inr (full, made, (out, w', fed, _, _, still, same)) ↦ inl (
            (
              released_line envelope out,
              record st { window = w'; last_content_delta = some envelope },
            ),
            rw (handle_delta, e, fed) refl,
            (released_line-is_delta envelope out, (still, same ∙ through)),
          )
        ]
      ]

  pub close-Goes : (st : StreamState) → IsOpen st → Goes (close st) (λ outs. ends_done outs ≡ true)
  unfolding close
  close-Goes st (open_window, through) =
      elim (Result-cases (transformed st.window.transform st.window.buffer)) [
        | inr (x, failed) ↦ inr (
          x,
          rw (close, flush-raises st.window x open_window failed) refl,
          inr (
            st.window.buffer,
            sym (transformed-some st.window st.window.buffer through) ∙ failed,
          ),
        )
        | inl (released, made) ↦ inl (
          last_line st.last_content_delta released
              ++ (pending_line st.pending_structural_delta ++ (done_line ∷ [])),
          rw (close, flush-returns st.window released open_window made) refl,
          ends_done-append (last_line st.last_content_delta released) _
              (last_line-is_delta st.last_content_delta released)
              (ends_done-append (pending_line st.pending_structural_delta) (done_line ∷ [])
                (pending_line-is_delta st.pending_structural_delta) done_alone),
        )
      ]

  -- A malformed event raises `UpstreamError`.
  pub parse_event-raises :
      (event : SseEvent) (x : Error)
      → parse_event loads event ≡ raise x
      → is_upstream_error x ≡ false
      → Escapes loads x
  unfolding parse_event
  parse_event-raises event x h other = elim (Bool-cases (text_eq event.data_value done_sentinel)) [
    | inl d ↦ let bad : ok done_marker ≡ raise x = rw (parse_event, d) at h in cc
    | inr d ↦ elim (caught-cases (loads event.data_value)) [
      | inr (inr (y, l, passes, c)) ↦
          let same : ◌≡◌ {A = Result ChatEvent} (raise y) (raise x) = rw (parse_event, d, c) at h in
          let eq : y ≡ x = cc in
          (event.data_value, l ∙ ap (λ z. raise z) eq, ap is_decode_error (sym eq) ∙ passes)
      | inr (inl c) ↦
          let h' =
            raised-after (caught (loads event.data_value)) _ none x c (rw (parse_event, d) at h) in
          absurd (malformed x (rw as_object-none at h') other)
      | inl (value, l, c) ↦
          let h' =
            raised-after (caught (loads event.data_value)) _ (some value) x c
              (rw (parse_event, d) at h) in
          elim (Option-cases (as_object (some value))) [
            | inl o ↦ absurd (malformed x (rw o at h') other)
            | inr (env, o) ↦ elim (Bool-cases (is_some (get_field choices_key env))) [
              | inl k ↦
                  let bad : ok (content_delta (extract_content env) env) ≡ raise x =
                    rw (o, k) at h' in
                  cc
              | inr k ↦ absurd (malformed x (rw (o, k) at h') other)
            ]
          ]
    ]
  ]
    where
      malformed :
          (y : Error)
          → ◌≡◌ {A = Result ChatEvent} (raise upstream_error) (raise y)
          → is_upstream_error y ≡ false
          → ⊥
      malformed y e o =
          let same : upstream_error ≡ y = cc in
          let bad : true ≡ false = ap is_upstream_error same ∙ o in absurd (ground (arith, bad))

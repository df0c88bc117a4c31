-- ===== src/Streaming/Relay.antt =====
-- The streaming response relays the upstream's text, transformed (src/proxy/routes.py).
use local_first_llm_privacy.Common.{
  ℕ, ◌-◌, Bool, true, false, not, List, [], ◌∷◌, ◌++◌, length, take, drop, Option, none, some,
  is_some, ok, Bool-cases, inl, inr, ◌⊎◌, ◌≡◌, refl, sym, ap, ap₂, ◌∙◌, arith, append_assoc,
  append-nil,
}
use local_first_llm_privacy.Common.Chars.{Text}
use local_first_llm_privacy.SlidingWindow.{Window, transformed, feed, flush}
use local_first_llm_privacy.SlidingWindow.Stream.{IsLocal, feed-ok, flush-returns}
use local_first_llm_privacy.Json.{JsonObject}
use local_first_llm_privacy.ChatStream.{extract_content, ChatEvent, content_delta, done_marker}
use local_first_llm_privacy.Streaming.{
  has_content_slot, Output, done_line, StreamState, released_line, handle_delta, last_line,
  pending_line, close,
}
use local_first_llm_privacy.Streaming.Content.{
  heard, heard_all, heard_all-append, heard-slot, heard-no_slot,
}

unfoldable pub has_done : List ChatEvent → Bool
has_done [] = false
has_done (content_delta c e ∷ events) = has_done events
has_done (done_marker ∷ events) = true

unfoldable pub carries : Option JsonObject → Bool
carries none = true
carries (some e) = has_content_slot e

unfoldable pub waits : Option (Text × JsonObject) → Bool
waits none = true
waits (some (c, e)) = not (has_content_slot e)

module _ (n : ℕ) (t : Text → Text) where
  -- The state holds the text `b` back.
  pub record IsReady (b : Text) (st : StreamState) : Type 0 where
    pub window_holds :
        st.window
        ≡ record { lookahead = n; transform = some (λ s. ok (t s)); buffer = b; flushed = false }
    pub carrier : carries st.last_content_delta ≡ true
    pub waiting : waits st.pending_structural_delta ≡ true
    pub carrier_or_nothing : (is_some st.last_content_delta ≡ true) ⊎ (b ≡ [])

  heard-released :
      (e : JsonObject) (s : Text) → has_content_slot e ≡ true → heard_all (released_line e s) ≡ s
  unfolding released_line heard_all
  heard-released e [] slot = refl
  heard-released e (c ∷ s) slot = append-nil _ ∙ heard-slot e (c ∷ s) slot

  heard-pending :
      (o : Option (Text × JsonObject)) → waits o ≡ true → heard_all (pending_line o) ≡ []
  unfolding pending_line heard_all waits
  heard-pending none h = refl
  heard-pending (some (c, e)) h = append-nil _ ∙ (heard-no_slot e c (ground arith)).0

  fed_window :
      (b c : Text)
      → let full = t (b ++ c) in
        let w : Window = record {
          lookahead = n;
          transform = some (λ s. ok (t s));
          buffer = b;
          flushed = false;
        } in
        feed w c
        ≡ ok (take (length full - n) full, record w { buffer = drop (length full - n) full })
  unfolding transformed
  fed_window b c =
      feed-ok
        (record { lookahead = n; transform = some (λ s. ok (t s)); buffer = b; flushed = false }) c
        (t (b ++ c)) refl refl

  some-carries : (e : JsonObject) → has_content_slot e ≡ true → carries (some e) ≡ true
  unfolding carries
  some-carries e h = h

  some-waits : (c : Text) (e : JsonObject) → has_content_slot e ≡ false → waits (some (c, e)) ≡ true
  unfolding waits
  some-waits c e h = ap not h

  nothing_heard : (b z : Text) → heard_all [] ++ t (b ++ z) ≡ t (b ++ ([] ++ z))
  unfolding heard_all
  nothing_heard b z = refl

  -- One delta: what it adds is heard now or held back.
  pub handle_delta-IsReady :
      (b : Text) (st : StreamState) (c : Text) (e : JsonObject)
      → IsLocal n t
      → c ≡ extract_content e
      → IsReady b st
      → (outs : List Output) × (st' : StreamState) × (b' : Text) × (handle_delta st c e
          ≡ ok (outs, st'))
        × IsReady b' st'
        × (st'.parser ≡ st.parser)
        × ((z : Text) → heard_all outs ++ t (b' ++ z) ≡ t (b ++ (c ++ z)))
  unfolding handle_delta
  handle_delta-IsReady b st c e local content ready = elim (Bool-cases (has_content_slot e)) [
    | inl slot ↦
        let w : Window = record {
          lookahead = n;
          transform = some (λ s. ok (t s));
          buffer = b;
          flushed = false;
        } in
        let full = t (b ++ c) in
        let k = length full - n in
        let fed : feed st.window c ≡ ok (take k full, record w { buffer = drop k full }) =
          ap (λ v. feed v c) ready.window_holds ∙ fed_window b c in
        (
          released_line e (take k full),
          record st { window = record w { buffer = drop k full }; last_content_delta = some e },
          drop k full,
          rw (slot, fed) refl,
          record {
            window_holds = refl;
            carrier = some-carries e slot;
            waiting = ready.waiting;
            carrier_or_nothing = inl refl;
          },
          refl,
          λ z.
              ap (λ h. h ++ t (drop k full ++ z)) (heard-released e (take k full) slot)
              ∙ sym (local (b ++ c) z)
              ∙ ap t (append_assoc b c z),
        )
    | inr no_slot ↦
        let empty : c ≡ [] = content ∙ (heard-no_slot e c no_slot).1 in
        (
          [],
          record st { pending_structural_delta = some (c, e) },
          b,
          rw no_slot refl,
          record {
            window_holds = ready.window_holds;
            carrier = ready.carrier;
            waiting = some-waits c e no_slot;
            carrier_or_nothing = ready.carrier_or_nothing;
          },
          refl,
          λ z. nothing_heard b z ∙ ap (λ x. t (b ++ (x ++ z))) (sym empty),
        )
  ]

  heard_done : heard_all (done_line ∷ []) ≡ []
  unfolding heard_all heard
  heard_done = refl

  heard-last :
      (b : Text) (last : Option JsonObject)
      → t [] ≡ []
      → carries last ≡ true
      → (is_some last ≡ true) ⊎ (b ≡ [])
      → heard_all (last_line last (t b)) ≡ t b
  unfolding last_line carries heard_all
  heard-last b (some e) empty c h = heard-released e (t b) c
  heard-last b none empty c (inl h) = cc
  heard-last b none empty c (inr h) = sym (ap t h ∙ empty)

  -- The end: all that is held back is heard.
  pub close-heard :
      (b : Text) (st : StreamState)
      → t [] ≡ []
      → IsReady b st
      → (outs : List Output) × (close st ≡ ok outs) × (heard_all outs ≡ t b)
  unfolding close transformed
  close-heard b st empty ready =
      let w : Window = record {
        lookahead = n;
        transform = some (λ s. ok (t s));
        buffer = b;
        flushed = false;
      } in
      let out : flush st.window ≡ ok (t b, record w { buffer = []; flushed = true }) =
        ap flush ready.window_holds ∙ flush-returns w (t b) refl refl in
      let tail = pending_line st.pending_structural_delta ++ (done_line ∷ []) in
      (
        last_line st.last_content_delta (t b) ++ tail,
        rw out refl,
        heard_all-append (last_line st.last_content_delta (t b)) tail
            ∙ ap₂ (◌++◌)
                (heard-last b st.last_content_delta empty ready.carrier ready.carrier_or_nothing)
                (heard_all-append (pending_line st.pending_structural_delta) (done_line ∷ [])
                  ∙ ap₂ (◌++◌) (heard-pending st.pending_structural_delta ready.waiting) heard_done)
            ∙ append-nil (t b),
      )

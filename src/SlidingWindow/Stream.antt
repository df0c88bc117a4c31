-- ===== src/SlidingWindow/Stream.antt =====
-- A whole stream through the window: every chunk fed, then one flush (src/pipeline/sliding_window.py,
-- driven as src/pipeline/chat_stream.py drives it).
use local_first_llm_privacy.Common.{
  ℕ, ◌-◌, min, true, false, leb, Bool-cases, length, take, drop, Option, List, ◌∷◌, [], ◌++◌,
  Result, ok, raise, ◌>>=◌, ◌≡◌, refl, ap, ◌∙◌, sym, arith, inl, inr, append_assoc, append-nil,
  take-append-drop, length-drop, pos, concat, Error, Result-cases, ◌⊎◌,
}
use local_first_llm_privacy.Common.Chars.{Text}
use local_first_llm_privacy.SlidingWindow.{Window, init, transformed, feed, flush}

-- Everything that the caller receives.
unfoldable pub stream : Window → List Text → Result Text
stream w [] = do (out, w') ← flush w; ok out
stream w (chunk ∷ chunks) = do (out, w') ← feed w chunk; rest ← stream w' chunks; ok (out ++ rest)

-- Transforming again what was transformed already changes nothing, whatever text follows it.
abbrev pub IsStable : (Text → Text) → Type 0
IsStable f = (s later : Text) → f (f s ++ later) ≡ f (s ++ later)

-- The transformation looks back over at most `n` characters: what stands before the last `n` characters of a
-- text that it leaves as it is comes out as it is, and bears on nothing, whatever text follows.
abbrev pub LooksBack : ℕ → (Text → Text) → Type 0
LooksBack n f =
    (s later : Text)
    → f s ≡ s
    → f (s ++ later) ≡ take (length s - n) s ++ f (drop (length s - n) s ++ later)

-- What stands before the last `n` characters of the output is final.
abbrev pub IsLocal : ℕ → (Text → Text) → Type 0
IsLocal n f =
    (s later : Text)
    → f (s ++ later) ≡ take (length (f s) - n) (f s) ++ f (drop (length (f s) - n) (f s) ++ later)

pub stable-IsLocal : (n : ℕ) (f : Text → Text) → IsStable f → LooksBack n f → IsLocal n f
stable-IsLocal n f stable back s later =
    let settled : f (f s) ≡ f s =
      ap f (sym (append-nil (f s))) ∙ stable s [] ∙ ap f (append-nil s) in
    sym (stable s later) ∙ back (f s) later settled

-- One branch for both: a short buffer releases the empty prefix.
pub feed-ok :
    (w : Window) (chunk full : Text)
    → w.flushed ≡ false
    → transformed w.transform (w.buffer ++ chunk) ≡ ok full
    → let k = length full - w.lookahead in
      feed w chunk ≡ ok (take k full, record w { buffer = drop k full })
unfolding feed
feed-ok w chunk full open_window made = elim (Bool-cases (leb (length full) w.lookahead)) [
  | inl short ↦
      let e : length full - w.lookahead ≡ 0 = ground arith in
      rw (feed, open_window, made, short, e) refl
  | inr long ↦ rw (feed, open_window, made, long) refl
]

feed-raises :
    (w : Window) (chunk : Text) (e : Error)
    → w.flushed ≡ false
    → transformed w.transform (w.buffer ++ chunk) ≡ raise e
    → feed w chunk ≡ raise e
unfolding feed
feed-raises w chunk e open_window failed = rw (feed, open_window, failed) refl

pub flush-returns :
    (w : Window) (remaining : Text)
    → w.flushed ≡ false
    → transformed w.transform w.buffer ≡ ok remaining
    → flush w ≡ ok (remaining, record w { buffer = []; flushed = true })
unfolding flush
flush-returns w remaining open_window made = rw (flush, open_window, made) refl

pub flush-raises :
    (w : Window) (e : Error)
    → w.flushed ≡ false
    → transformed w.transform w.buffer ≡ raise e
    → flush w ≡ raise e
unfolding flush
flush-raises w e open_window failed = rw (flush, open_window, failed) refl

stream-eq-from :
    (n : ℕ) (t : Option (Text → Result Text)) (f : Text → Text) (buffer : Text) (chunks : List Text)
    → ((s : Text) → transformed t s ≡ ok (f s))
    → IsLocal n f
    → stream (record { lookahead = n; transform = t; buffer = buffer; flushed = false }) chunks
      ≡ ok (f (buffer ++ concat chunks))
unfolding stream
stream-eq-from n t f buffer [] returns local =
    let w : Window = record { lookahead = n; transform = t; buffer = buffer; flushed = false } in
    rw (flush-returns w (f buffer) refl (returns buffer))
      (ap (λ b. ok (f b)) (sym (append-nil buffer)))
stream-eq-from n t f buffer (chunk ∷ chunks) returns local =
    let w : Window = record { lookahead = n; transform = t; buffer = buffer; flushed = false } in
    let full = f (buffer ++ chunk) in
    let kept = drop (length full - n) full in
    let final : f (buffer ++ (chunk ++ concat chunks))
        ≡ take (length full - n) full ++ f (kept ++ concat chunks) =
      ap f (sym (append_assoc buffer chunk (concat chunks)))
      ∙ local (buffer ++ chunk) (concat chunks) in
    rw
      (
        feed-ok w chunk full refl (returns (buffer ++ chunk)),
        stream-eq-from n t f kept chunks returns local,
      )
      (ap (λ out. ok out) (sym final))

-- A stream through a fresh window comes out as the transformation of the whole text, however the text is cut
-- into chunks, when the transformation returns on every text, looks back over no more than the
-- lookahead, and changes nothing when it is applied again to what it made, whatever text follows.
pub stream-eq-transformed :
    (n : ℕ) (t : Option (Text → Result Text)) (f : Text → Text) (chunks : List Text)
    → ((s : Text) → transformed t s ≡ ok (f s))
    → IsStable f
    → LooksBack n f
    → (init (pos n) t >>= λ w. stream w chunks) ≡ ok (f (concat chunks))
unfolding init
stream-eq-transformed n t f chunks returns stable back =
    stream-eq-from n t f [] chunks returns (stable-IsLocal n f stable back)

-- On an open window feed either raises what the transformation of the buffer with the chunk raises, or returns:
-- what it releases, followed by what it keeps, is the transformed buffer, it keeps the last lookahead
-- characters of that, or all when there are fewer, and the window stays open with its transformation.
pub feed-keeps_lookahead :
    (w : Window) (chunk : Text)
    → w.flushed ≡ false
    → ((e : Error) × (transformed w.transform (w.buffer ++ chunk) ≡ raise e)
        × (feed w chunk ≡ raise e))
      ⊎ ((full : Text) × (transformed w.transform (w.buffer ++ chunk) ≡ ok full)
          × ((out : Text) × (w' : Window) × (feed w chunk ≡ ok (out, w'))
              × (out ++ w'.buffer ≡ full)
              × (length w'.buffer ≡ min w.lookahead (length full))
              × (w'.flushed ≡ false)
              × (w'.transform ≡ w.transform)))
feed-keeps_lookahead w chunk open_window =
    elim (Result-cases (transformed w.transform (w.buffer ++ chunk))) [
      | inr (e, failed) ↦ inl (e, failed, feed-raises w chunk e open_window failed)
      | inl (full, made) ↦
          let k = length full - w.lookahead in
          inr (
            full,
            made,
            (
              take k full,
              record w { buffer = drop k full },
              feed-ok w chunk full open_window made,
              take-append-drop k full,
              omega (arith, length-drop k full),
              open_window,
              refl,
            ),
          )
    ]

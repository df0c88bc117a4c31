-- ===== src/Examples/Streams.antt =====
-- The theorems about streams of text at concrete inputs.
use local_first_llm_privacy.Common.{
  ℕ, ◌-◌, ◌==◌, if◌then◌else◌, false, List, [], ◌∷◌, ◌++◌, map, length, take, drop, concat, some,
  ok, ◌>>=◌, pos, min, ◌≡◌, refl, ap, ◌∙◌, arith, zero, suc, Result, raise, Error, ◌⊎◌, ◌≤◌,
  Bool-cases, inl, inr, ◌&&◌,
}
use local_first_llm_privacy.Common.Chars.{Text}
use local_first_llm_privacy.SlidingWindow.{Window, init, transformed, feed}
use local_first_llm_privacy.SlidingWindow.Stream.{
  stream, IsStable, LooksBack, stream-eq-transformed, feed-keeps_lookahead,
}
use local_first_llm_privacy.Sse.{parser_init, join_lines}
use local_first_llm_privacy.Sse.Chunks.{parse, parse-concat}
use local_first_llm_privacy.Sse.Roundtrip.{
  mac, dos, write_events, write_event, write_lines, write_line, eol, is_event, is_plain,
  parse-write_events,
}

-- A transformation that looks back: a space after a space is left out. `before` is the character before.
squeeze_after : ℕ → Text → Text
squeeze_after before [] = []
squeeze_after before (c ∷ s) =
    let skipped = squeeze_after before s in
    let rest = squeeze_after c s in if (before == b' ') && (c == b' ') then skipped else c ∷ rest

unfoldable pub squeeze : Text → Text
unfolding squeeze_after
squeeze s = squeeze_after 0 s

squeeze_after-shorter : (before : ℕ) (s : Text) → length (squeeze_after before s) ≤ length s
unfolding squeeze_after
squeeze_after-shorter before [] = omega arith
squeeze_after-shorter before (c ∷ s) = elim (Bool-cases ((before == b' ') && (c == b' '))) [
  | inl e ↦ rw e (omega (arith, squeeze_after-shorter before s))
  | inr e ↦ rw e (omega (arith, squeeze_after-shorter c s))
]

squeeze_after-stable :
    (before : ℕ) (s later : Text)
    → squeeze_after before (squeeze_after before s ++ later) ≡ squeeze_after before (s ++ later)
unfolding squeeze_after
squeeze_after-stable before [] later = refl
squeeze_after-stable before (c ∷ s) later = elim (Bool-cases ((before == b' ') && (c == b' '))) [
  | inl e ↦ rw (squeeze_after, e) (squeeze_after-stable before s later)
  | inr e ↦ rw (squeeze_after, e, e) (ap (◌∷◌ c) (squeeze_after-stable c s later))
]

-- A first character that stays is kept, and what follows it is settled as well.
squeeze_after-settled :
    (before c : ℕ) (s : Text)
    → squeeze_after before (c ∷ s) ≡ c ∷ s
    → ((before == b' ') && (c == b' ') ≡ false) × (squeeze_after c s ≡ s)
unfolding squeeze_after
squeeze_after-settled before c s h = elim (Bool-cases ((before == b' ') && (c == b' '))) [
  | inl e ↦
      let gone : squeeze_after before s ≡ c ∷ s = rw (squeeze_after, e) at h in
      let size : length (squeeze_after before s) ≡ suc (length s) = ap length gone in
      absurd (omega (arith, size, squeeze_after-shorter before s))
  | inr e ↦
      let kept : c ∷ squeeze_after c s ≡ c ∷ s = rw (squeeze_after, e) at h in (e, ap (drop 1) kept)
]

squeeze_after-back :
    (before c : ℕ) (s later : Text) (k : ℕ)
    → squeeze_after before (c ∷ s) ≡ c ∷ s
    → k ≤ length s
    → squeeze_after before ((c ∷ s) ++ later)
      ≡ take k (c ∷ s) ++ squeeze_after 0 (drop k (c ∷ s) ++ later)
unfolding squeeze_after
squeeze_after-back before c s later zero settled short =
    let (stays, rest) = squeeze_after-settled before c s settled in rw (squeeze_after, stays) refl
squeeze_after-back before c [] later (suc k) settled short = absurd (omega arith)
squeeze_after-back before c (d ∷ s) later (suc k) settled short =
    let (stays, rest) = squeeze_after-settled before c (d ∷ s) settled in
    let here : squeeze_after before (c ∷ ((d ∷ s) ++ later))
        ≡ c ∷ squeeze_after c ((d ∷ s) ++ later) =
      rw (squeeze_after, stays) refl in
    here ∙ ap (◌∷◌ c) (squeeze_after-back c d s later k rest (omega arith))

pub squeeze-IsStable : IsStable squeeze
unfolding squeeze
squeeze-IsStable s later = squeeze_after-stable 0 s later

pub squeeze-LooksBack : (n : ℕ) → LooksBack (suc n) squeeze
unfolding squeeze
squeeze-LooksBack n [] later settled = let e : 0 - suc n ≡ 0 = omega arith in rw e refl
squeeze-LooksBack n (c ∷ s) later settled =
    squeeze_after-back 0 c s later (length (c ∷ s) - suc n) settled (omega arith)

chunks_of_text : List Text
chunks_of_text = (b'a' ∷ b' ' ∷ []) ∷ [] ∷ (b' ' ∷ b'b' ∷ b'c' ∷ []) ∷ []

unfoldable pub squeezing : Text → Result Text
squeezing s = ok (squeeze s)

stream-eq-transformed_example :
    (init (pos 2) (some squeezing) >>= λ w. stream w chunks_of_text)
    ≡ ok (squeeze (concat chunks_of_text))
unfolding transformed squeezing
stream-eq-transformed_example =
    stream-eq-transformed 2 (some squeezing) squeeze chunks_of_text (λ s. refl) squeeze-IsStable
      (squeeze-LooksBack 1)

open_window : Window
open_window = record {
  lookahead = 2;
  transform = some squeezing;
  buffer = b'a' ∷ b' ' ∷ [];
  flushed = false;
}

feed-keeps_lookahead_example :
    ((e : Error) × (transformed open_window.transform (open_window.buffer ++ (b' ' ∷ b'b' ∷ []))
        ≡ raise e)
      × (feed open_window (b' ' ∷ b'b' ∷ []) ≡ raise e))
    ⊎ ((full : Text) × (transformed open_window.transform (open_window.buffer ++ (b' ' ∷ b'b' ∷ []))
          ≡ ok full)
        × ((out : Text) × (w' : Window) × (feed open_window (b' ' ∷ b'b' ∷ []) ≡ ok (out, w'))
            × (out ++ w'.buffer ≡ full)
            × (length w'.buffer ≡ min open_window.lookahead (length full))
            × (w'.flushed ≡ false)
            × (w'.transform ≡ open_window.transform)))
unfolding open_window
feed-keeps_lookahead_example = feed-keeps_lookahead open_window (b' ' ∷ b'b' ∷ []) refl

-- "data: hi\r\n\r\n", cut inside a line end.
cut_stream : List Text
unfolding write_line eol
cut_stream = write_line dos (b'h' ∷ b'i' ∷ []) ∷ (13 ∷ []) ∷ (10 ∷ []) ∷ []

parse-concat_example : parse parser_init cut_stream ≡ parse parser_init (concat cut_stream ∷ [])
parse-concat_example = parse-concat parser_init cut_stream

two_events : List (List Text)
two_events = ((b'h' ∷ b'i' ∷ []) ∷ []) ∷ ((b'a' ∷ []) ∷ [] ∷ []) ∷ []

parse-write_events_example :
    parse parser_init (write_events mac two_events ∷ [] ∷ [])
    ≡ map (λ ls. record { data_value = join_lines ls }) two_events
unfolding write_events write_event write_lines write_line eol is_event is_plain two_events
parse-write_events_example =
    parse-write_events mac two_events (write_events mac two_events ∷ [] ∷ []) refl refl

-- ===== src/Examples/Chained.antt =====
-- A session in which one real name is the surrogate of another, as a pool of names that holds a user's
-- name gives it (src/session/session.py). The window hands what it holds back to the transformation again with every
-- chunk (src/pipeline/sliding_window.py), so that a value that is a surrogate itself is replaced again.
use local_first_llm_privacy.Common.{List, [], ◌∷◌, ok, some, ◌>>=◌, ◌≡◌, refl, pos, Result}
use local_first_llm_privacy.Common.Chars.{Text}
use local_first_llm_privacy.Sessions.{
  Session, person, new_session, allocate_or_lookup_name, first_free, commit,
}
use local_first_llm_privacy.Rehydrate.{rehydrate}
use local_first_llm_privacy.SlidingWindow.{init, feed, flush, transformed}
use local_first_llm_privacy.SlidingWindow.Stream.{stream}
use local_first_llm_privacy.Examples.Opened.{response_path}
use local_first_llm_privacy.Examples.Rehydrations.{counter, tag, tags}

abbrev ann : Text
ann = b'A' ∷ []

abbrev bob : Text
bob = b'B' ∷ []

abbrev cy : Text
cy = b'C' ∷ []

abbrev pool : List Text
pool = cy ∷ bob ∷ []

-- "B" is seen first and is given "C"; then "A" is seen, and "B" is left for it.
chained : Session
chained =
    (allocate_or_lookup_name counter
      (allocate_or_lookup_name counter (new_session [] 5) bob person pool 0 6).1 ann person pool 0
      7).1

back : Text → Result Text
back text = rehydrate tags [] text chained

-- In one piece the reply "C." comes back as "B.".
whole_reply : rehydrate tags [] (b'C' ∷ b'.' ∷ []) chained ≡ ok (b'B' ∷ b'.' ∷ [])
unfolding response_path tags tag counter chained allocate_or_lookup_name first_free commit
whole_reply = refl

-- Streamed in two chunks it comes back as "A.".
streamed_reply :
    (init (pos 64) (some back) >>= λ w. stream w (cy ∷ (b'.' ∷ []) ∷ [])) ≡ ok (b'A' ∷ b'.' ∷ [])
unfolding response_path tags tag counter chained allocate_or_lookup_name first_free commit back init
    feed flush transformed stream
streamed_reply = refl

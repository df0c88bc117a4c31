-- ===== src/SlidingWindow.antt =====
-- The buffered window of the response path (src/pipeline/sliding_window.py). A method returns its
-- result and the window as the method left it. The transformation may raise, and the error leaves the
-- method; what the window holds then is left out, since its one user, the response's generator, ends
-- with the error.
pub mod Stream
use local_first_llm_privacy.Common.{
  ℕ, ◌-◌, Bool, true, false, leb, if◌then◌else◌, length, take, drop, Option, none, some, ◌++◌, [],
  Result, ok, raise, ◌>>=◌, Error, runtime_error, value_error, ℤ, pos, negsuc,
}
use local_first_llm_privacy.Common.Chars.{Text}

pub record Window : Type 0 where
  pub lookahead : ℕ
  pub transform : Option (Text → Result Text)
  pub buffer : Text
  pub flushed : Bool

unfoldable pub init : ℤ → Option (Text → Result Text) → Result Window
init (pos n) t = ok (record { lookahead = n; transform = t; buffer = []; flushed = false })
init (negsuc n) t = raise value_error

-- `if self._transform is not None: self._buffer = self._transform(self._buffer)`.
unfoldable pub transformed : Option (Text → Result Text) → Text → Result Text
transformed none s = ok s
transformed (some t) s = t s

unfoldable pub feed : Window → Text → Result (Text × Window)
feed w chunk =
    if w.flushed
    then raise runtime_error
    else (transformed w.transform (w.buffer ++ chunk) >>= λ full.
        let release_upto = length full - w.lookahead in
        if leb (length full) w.lookahead
        then ok ([], record w { buffer = full })
        else ok (take release_upto full, record w { buffer = drop release_upto full }))

unfoldable pub flush : Window → Result (Text × Window)
flush w =
    if w.flushed
    then raise runtime_error
    else (transformed w.transform w.buffer >>= λ remaining.
        ok (remaining, record w { buffer = []; flushed = true }))

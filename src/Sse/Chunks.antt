-- ===== src/Sse/Chunks.antt =====
-- A stream of events cut into fragments anywhere (src/proxy/sse_framing.py): `parse` feeds every
-- fragment and flushes once.
use local_first_llm_privacy.Common.{List, ◌∷◌, [], ◌++◌, concat, ◌≡◌, refl, ap, sym, append_assoc}
use local_first_llm_privacy.Common.Chars.{Text}
use local_first_llm_privacy.Sse.{
  LineSplitter, split_char, split_feed, SseEvent, SseEventParser, handle_line, handle_lines,
  to_list, parser_feed, parser_flush,
}

unfoldable pub parse : SseEventParser → List Text → List SseEvent
parse p [] = (parser_flush p).0
parse p (chunk ∷ chunks) = let fed = parser_feed p chunk in fed.0 ++ parse fed.1 chunks

pub split_feed-append :
    (s : LineSplitter) (a b : Text)
    → split_feed s (a ++ b) ≡ (
      (split_feed s a).0 ++ (split_feed (split_feed s a).1 b).0,
      (split_feed (split_feed s a).1 b).1,
    )
unfolding split_feed
split_feed-append s [] b = refl
split_feed-append s (ch ∷ a) b =
    let step = split_char s ch in
    rw (split_feed-append step.1 a b) (
      ap (λ l. (l, (split_feed (split_feed step.1 a).1 b).1))
        (sym
          (append_assoc step.0 (split_feed step.1 a).0 (split_feed (split_feed step.1 a).1 b).0)))

pub handle_lines-append :
    (d : List Text) (a b : List Text)
    → handle_lines d (a ++ b) ≡ (
      (handle_lines d a).0 ++ (handle_lines (handle_lines d a).1 b).0,
      (handle_lines (handle_lines d a).1 b).1,
    )
unfolding handle_lines
handle_lines-append d [] b = refl
handle_lines-append d (line ∷ a) b =
    let step = handle_line d line in
    rw (handle_lines-append step.1 a b) (
      ap (λ l. (l, (handle_lines (handle_lines step.1 a).1 b).1))
        (sym (
          append_assoc (to_list step.0) (handle_lines step.1 a).0
            (handle_lines (handle_lines step.1 a).1 b).0)))

pub parser_feed-append :
    (p : SseEventParser) (a b : Text)
    → parser_feed p (a ++ b) ≡ (
      (parser_feed p a).0 ++ (parser_feed (parser_feed p a).1 b).0,
      (parser_feed (parser_feed p a).1 b).1,
    )
unfolding parser_feed
parser_feed-append p a b =
    let first = split_feed p.lines a in
    rw
      (
        split_feed-append p.lines a b,
        handle_lines-append p.data_lines first.0 (split_feed first.1 b).0,
      )
      refl

parser_feed-nil : (p : SseEventParser) → parser_feed p [] ≡ ([], p)
unfolding parser_feed split_feed handle_lines
parser_feed-nil p = refl

-- The events of a stream do not depend on where the stream is cut: the fragments give the same
-- events as their concatenation in one piece.
pub parse-concat :
    (p : SseEventParser) (chunks : List Text) → parse p chunks ≡ parse p (concat chunks ∷ [])
unfolding parse
parse-concat p [] = rw (parser_feed-nil p) refl
parse-concat p (chunk ∷ chunks) =
    let fed = parser_feed p chunk in
    rw (parser_feed-append p chunk (concat chunks), parse-concat fed.1 chunks)
      (sym (append_assoc fed.0 (parser_feed fed.1 (concat chunks)).0 _))

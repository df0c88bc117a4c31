-- ===== src/Sse.antt =====
-- Server-sent events (src/proxy/sse_framing.py): the line splitter and the event parser, each a
-- state and its methods. A method returns its result and the state as the method left it.
pub mod Chunks
pub mod Roundtrip
use local_first_llm_privacy.Common.{
  ℕ, Bool, true, false, ◌==◌, ◌&&◌, if◌then◌else◌, drop, length, Option, none, some, List, [], ◌∷◌,
  ◌++◌, is_nil, not,
}
use local_first_llm_privacy.Common.Chars.{Text}

-- "\n", "\r", ":" and " ".
abbrev pub lf : ℕ
lf = 10

abbrev pub cr : ℕ
cr = 13

abbrev pub colon : ℕ
colon = 58

abbrev pub space : ℕ
space = 32

-- "data:".
abbrev pub data_field : Text
data_field = 100 ∷ 97 ∷ 116 ∷ 97 ∷ 58 ∷ []

abbrev pub startswith : Text → Text → Bool
startswith s [] = true
startswith [] (c ∷ prefix) = false
startswith (c ∷ s) (c' ∷ prefix) = (c == c') && startswith s prefix

pub record LineSplitter : Type 0 where
  pub buffer : Text
  pub pending_cr : Bool

-- The loop body of `_LineSplitter.feed`: the lines that the character ends.
unfoldable pub split_char : LineSplitter → ℕ → List Text × LineSplitter
split_char s ch =
    if s.pending_cr && (ch == lf)
    then ([], record s { pending_cr = false })
    else if ch == cr
    then (s.buffer ∷ [], record { buffer = []; pending_cr = true })
    else if ch == lf
    then (s.buffer ∷ [], record { buffer = []; pending_cr = false })
    else ([], record { buffer = s.buffer ++ ch ∷ []; pending_cr = false })

unfoldable pub split_feed : LineSplitter → Text → List Text × LineSplitter
split_feed s [] = ([], s)
split_feed s (ch ∷ chunk) =
    let step = split_char s ch in let rest = split_feed step.1 chunk in (step.0 ++ rest.0, rest.1)

unfoldable pub split_flush : LineSplitter → List Text × LineSplitter
split_flush s =
    (if is_nil s.buffer then [] else s.buffer ∷ [], record { buffer = []; pending_cr = false })

pub record SseEvent : Type 0 where
  pub data_value : Text

pub record SseEventParser : Type 0 where
  pub lines : LineSplitter
  pub data_lines : List Text

-- `"\n".join(lines)`.
unfoldable pub join_lines : List Text → Text
join_lines [] = []
join_lines (l ∷ []) = l
join_lines (l ∷ l' ∷ ls) = l ++ lf ∷ join_lines (l' ∷ ls)

unfoldable pub dispatch : List Text → SseEvent × List Text
dispatch data_lines = (record { data_value = join_lines data_lines }, [])

-- The field's value without the one leading space that the protocol allows.
unfoldable pub field_value : Text → Text
field_value [] = []
field_value (c ∷ value) = if c == space then value else c ∷ value

unfoldable pub handle_line : List Text → Text → Option SseEvent × List Text
handle_line data_lines line =
    let dispatched = dispatch data_lines in
    if is_nil line
    then (if is_nil data_lines then (none, data_lines) else (some dispatched.0, dispatched.1))
    else if startswith line (colon ∷ [])
    then (none, data_lines)
    else if startswith line data_field
    then (none, data_lines ++ field_value (drop (length data_field) line) ∷ [])
    else (none, data_lines)

abbrev pub to_list : Option SseEvent → List SseEvent
to_list none = []
to_list (some e) = e ∷ []

-- The comprehension over the lines, as a loop.
unfoldable pub handle_lines : List Text → List Text → List SseEvent × List Text
handle_lines data_lines [] = ([], data_lines)
handle_lines data_lines (line ∷ lines) =
    let step = handle_line data_lines line in
    let rest = handle_lines step.1 lines in (to_list step.0 ++ rest.0, rest.1)

unfoldable pub parser_init : SseEventParser
parser_init = record { lines = record { buffer = []; pending_cr = false }; data_lines = [] }

unfoldable pub parser_feed : SseEventParser → Text → List SseEvent × SseEventParser
parser_feed p chunk =
    let split = split_feed p.lines chunk in
    let handled = handle_lines p.data_lines split.0 in
    (handled.0, record { lines = split.1; data_lines = handled.1 })

unfoldable pub parser_flush : SseEventParser → List SseEvent × SseEventParser
parser_flush p =
    let split = split_flush p.lines in
    let handled = handle_lines p.data_lines split.0 in
    let dispatched = dispatch handled.1 in
    if is_nil handled.1
    then (handled.0, record { lines = split.1; data_lines = handled.1 })
    else (handled.0 ++ dispatched.0 ∷ [], record { lines = split.1; data_lines = dispatched.1 })

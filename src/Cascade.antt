-- ===== src/Cascade.antt =====
-- The detection cascade over one text (src/detect/cascade.py) with the failure mode
-- (src/core/fail_mode.py). The detectors are arguments: the regular expressions of tier 1, and the
-- detectors of tier 2, whose model call can raise any error.
use local_first_llm_privacy.Common.{
  ◌-◌, Bool, List, [], ◌∷◌, ◌++◌, map, take, drop, Result, ok, raise, Error, ◌>>=◌,
  fail_closed_error, is_some,
}
use local_first_llm_privacy.Common.Chars.{Text}
use local_first_llm_privacy.Sessions.{Session, lookup_surrogate}
use local_first_llm_privacy.Precedence.{Span, resolve}

pub data FailMode : Type 0 where
  open_mode : FailMode
  closed_mode : FailMode

-- Under "open" the failure is logged and the call returns.
unfoldable pub resolve_failure : FailMode → Error → Result (Unit {0})
resolve_failure closed_mode cause = raise fail_closed_error
resolve_failure open_mode cause = ok tt

pub record ResolvedSpan : Type 0 where
  pub span : Span
  pub is_ingress_surrogate : Bool

-- `text[span.start : span.end]`.
unfoldable pub span_text : Text → Span → Text
span_text text span = take (span.end - span.start) (drop span.start text)

-- `[detector.detect(text) for detector in …]`, where a detector may raise.
unfoldable pub detect_all : List (Text → Result (List Span)) → Text → Result (List (List Span))
detect_all [] text = ok []
detect_all (detector ∷ detectors) text = do
  spans ← detector text
  rest ← detect_all detectors text
  ok (spans ∷ rest)

-- `except Exception`: what the failure mode makes of the outcome of tier 2.
unfoldable pub guarded : FailMode → Result (List (List Span)) → Result (List (List Span))
guarded mode (ok spans) = ok spans
guarded mode (raise cause) = do _ ← resolve_failure mode cause; ok []

unfoldable pub mark : Session → Text → Span → ResolvedSpan
mark session text span = record {
  span = span;
  is_ingress_surrogate = is_some (lookup_surrogate session (span_text text span));
}

module _ (tier1 : List (Text → List Span)) (tier2 : List (Text → Result (List Span))) where
  unfoldable pub detect : Text → Session → FailMode → Result (List ResolvedSpan)
  detect text session mode = do
    tier2_spans ← guarded mode (detect_all tier2 text)
    ok (map (mark session text) (resolve (map (λ detector. detector text) tier1 ++ tier2_spans)))

-- ===== src/Lib.antt =====
-- The privacy gateway between a client and a language-model provider. On the way out, detectors find
-- personal data in a request's texts, overlapping finds are resolved, and each value is replaced by a
-- surrogate: by format-preserving encryption for structured values, by a name from a finite pool for
-- names. On the way back, the response arrives as server-sent events in arbitrary fragments, a sliding
-- window holds back what may be part of a surrogate, and surrogates are turned back.
--
-- The parts and the files that model them:
--   Common            exceptions as results, Python's characters and digits, bytes, dicts, stable sort
--   Checksum          src/detect/tier1/checksum.py: verhoeff_* and luhn_*; Tables holds the laws of
--                     the Verhoeff tables, Verhoeff, VerhoeffErrors, Luhn and LuhnErrors the theorems
--   MixedRadix        src/surrogate/mixed_radix.py: encode, decode, domain_size
--   Crypto            the block cipher and the rounded logarithm that ff1.py calls, as a record
--   Ff1               src/surrogate/ff1.py: ff1_encrypt, ff1_decrypt and their helpers
--   MixedRadixFf1     src/surrogate/mixed_radix_ff1.py: encrypt_combined, decrypt_combined, the walk
--   Domains           src/surrogate/domains/aadhaar.py, card.py, phone.py, pan.py, ifsc.py; Repair is
--                     the round trip that the two domains with a check digit share, Positions what
--                     the two with fixed positions share
--   Sessions          src/session/session.py and known_surrogate.py; EntityType of src/core/types.py
--   SessionStore      src/session/store.py
--   Precedence        src/detect/precedence.py; Span of src/core/types.py
--   Cascade           src/detect/cascade.py; src/core/fail_mode.py
--   Sanitize          src/pipeline/sanitize.py for one region; src/surrogate/engine.py and registry.py,
--                     src/session/candidates.py; Replacement, Splice and Placement the theorems
--   Tier2             src/detect/tier2/detector.py and model.py, src/detect/registry.py; Offsets the
--                     theorem about the spans of the whole cascade
--   SlidingWindow     src/pipeline/sliding_window.py
--   Sse               src/proxy/sse_framing.py
--   Json              the decoded values (JSONValue of src/pipeline/field_walker.py)
--   ChatStream        src/proxy/chat_stream.py
--   Streaming         src/proxy/routes.py: the generator _generate_sse, from the upstream's text to
--                     the lines for the client; Steps, Ending, Content, Relay, Events and Whole the
--                     theorems
--   Gateway           src/proxy/routes.py: chat_completions and what it calls; Answers and Sent the
--                     theorems
--   FieldWalker       src/pipeline/field_walker.py: walk and rebuild; Depth, Paths, Leaves and Rebuilding
--                     the theorems, Shape what is left of a body without its texts
--   ProtocolFields    src/pipeline/protocol_fields.py
--   Rehydrate         src/pipeline/rehydrate.py for one text; Matching, Pieces and Inverse the theorems
--   Bodies            sanitize of src/pipeline/sanitize.py and rehydrate_body of
--                     src/pipeline/rehydrate.py: whole bodies; Substituting, Fields and Replies
--   Chunking          src/core/chunking.py
--   Examples          runs at concrete inputs, and the theorems applied to them
--
-- A class is a record of its fields and a method a function from the record to its result and the
-- record as the method leaves it; a raised exception is a value of Result, without its message. A text
-- is the list of its code points. A session's method holds the session's lock throughout and is one
-- step. A call of SessionStore.get_or_create is up to three steps, one for each locked block, and steps
-- of different calls interleave; sessions stand in a heap, so that an evicted session lives on for the
-- caller that holds it. A time and a time span are natural numbers of microseconds.
--
-- Bounds and fuel: str of a number runs on the number itself as fuel, bit_length too,
-- the key stream of ff1 on its length in bytes: each step makes the rest smaller, so the fuel is never
-- used up. The cycle walk has the source's own bound of 1000 attempts, and raises after them as the
-- source does. Strings under "arguments" that decode to further such strings are walked up to a limit,
-- with RecursionError beyond it as the interpreter has; a limit above the length of the body's longest
-- string is never reached. Every other loop is structural.
--
-- Parameters: the cipher (whole blocks in, as many bytes out), math.ceil(v * math.log2(radix)) (enough
-- bits, and not more than 16 for each digit), random.Random.shuffle (a permutation), json.loads
-- (which may raise JSONDecodeError, which the callers catch, or another error, which they do not, such
-- as ValueError for an integer of too many digits or RecursionError) and json.dumps, what the upstream
-- answers, the detectors of tier 1, the model of tier 2, the pools of names, the registered domains, and
-- the window's transformation, which may raise: in the gateway it is rehydrate.
--
-- Not modelled: the interpreter's own stack, which walks of deeply nested values may exhaust; the
-- vehicle domain; the regular expressions of tier 1; the model that tier 2 calls; the tables of names;
-- the web framework and the handlers of its errors; the configuration, the clock and the log; the
-- harnesses that measure the gateway.
pub mod Common
pub mod Checksum
pub mod MixedRadix
pub mod Crypto
pub mod Ff1
pub mod MixedRadixFf1
pub mod Domains
pub mod SlidingWindow
pub mod Sse
pub mod Sessions
pub mod Precedence
pub mod Chunking
pub mod Cascade
pub mod SessionStore
pub mod Json
pub mod FieldWalker
pub mod ChatStream
pub mod Sanitize
pub mod Tier2
pub mod Rehydrate
pub mod ProtocolFields
pub mod Bodies
pub mod Streaming
pub mod Gateway
mod Examples

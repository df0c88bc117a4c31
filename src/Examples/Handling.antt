-- ===== src/Examples/Handling.antt =====
-- The theorems about the handler and about the domains over mixed radixes at concrete inputs.
use local_first_llm_privacy.Common.{
  ℕ, List, [], ◌∷◌, some, Option, true, ok, raise, surrogate_domain_error, ◌⊎◌, ◌≡◌, refl, arith,
}
use local_first_llm_privacy.Common.Chars.{Text}
use local_first_llm_privacy.MixedRadix.Roundtrip.{InRange}
use local_first_llm_privacy.MixedRadixFf1.Roundtrip.{GivesUp}
use local_first_llm_privacy.Domains.Pan
use local_first_llm_privacy.Domains.Pan.Roundtrip.{pan_text, pan_roundtrip}
use local_first_llm_privacy.Domains.Ifsc
use local_first_llm_privacy.Domains.Ifsc.Roundtrip.{ifsc_text, ifsc_roundtrip}
use local_first_llm_privacy.SessionStore.{SessionStore}
use local_first_llm_privacy.Cascade.{closed_mode}
use local_first_llm_privacy.Gateway.{Environment, answered, timeout, Handled, chat_completions}
use local_first_llm_privacy.Examples.Toy.{toy, toy_key, toy-IsCipher, toy-HasBitLengths}
use local_first_llm_privacy.Examples.Fields.{hi_text, load_box, dump_box, call_body}
use local_first_llm_privacy.Examples.Rehydrations.{counter, tags, no_names}
use local_first_llm_privacy.Examples.Requests.{find_hi}

-- "ABCPD1234E".
abbrev pan_symbols : List ℕ
pan_symbols = 0 ∷ 1 ∷ 2 ∷ 3 ∷ 4 ∷ 1 ∷ 2 ∷ 3 ∷ 4 ∷ []

pan_roundtrip_example :
    ((Pan.encrypt toy (pan_text b'P' pan_symbols) toy_key ≡ raise surrogate_domain_error)
      × GivesUp toy toy_key Pan.tweak pan_symbols Pan.radixes)
    ⊎ ((out : List ℕ) × (Pan.encrypt toy (pan_text b'P' pan_symbols) toy_key
          ≡ ok (pan_text b'P' out))
        × InRange out Pan.radixes
        × (Pan.decrypt toy (pan_text b'P' out) toy_key ≡ ok (pan_text b'P' pan_symbols)))
pan_roundtrip_example =
    pan_roundtrip toy toy_key b'P' pan_symbols toy-IsCipher toy-HasBitLengths refl (
      omega arith,
      (
        omega arith,
        (
          omega arith,
          (
            omega arith,
            (omega arith, (omega arith, (omega arith, (omega arith, (omega arith, tt))))),
          ),
        ),
      ),
    )

-- "HDFC0A12B34".
abbrev ifsc_symbols : List ℕ
ifsc_symbols = 7 ∷ 3 ∷ 5 ∷ 2 ∷ 10 ∷ 1 ∷ 2 ∷ 11 ∷ 3 ∷ 4 ∷ []

ifsc_roundtrip_example :
    ((Ifsc.encrypt toy (ifsc_text ifsc_symbols) toy_key ≡ raise surrogate_domain_error)
      × GivesUp toy toy_key Ifsc.tweak ifsc_symbols Ifsc.radixes)
    ⊎ ((out : List ℕ) × (Ifsc.encrypt toy (ifsc_text ifsc_symbols) toy_key ≡ ok (ifsc_text out))
        × InRange out Ifsc.radixes
        × (Ifsc.decrypt toy (ifsc_text out) toy_key ≡ ok (ifsc_text ifsc_symbols)))
ifsc_roundtrip_example = ifsc_roundtrip toy toy_key ifsc_symbols toy-IsCipher toy-HasBitLengths (
  omega arith,
  (
    omega arith,
    (
      omega arith,
      (
        omega arith,
        (
          omega arith,
          (omega arith, (omega arith, (omega arith, (omega arith, (omega arith, tt))))),
        ),
      ),
    ),
  ),
)

-- An upstream that answers with an object, and times out on a stream.
upstream : Environment
upstream = record {
  loads = load_box;
  loads_content = load_box;
  encode = λ t. ok t;
  dumps = dump_box;
  limit = 2;
  lower = λ t. t;
  nonzero = λ t. true;
  post = λ body. answered (record { status_code = 200; headers = []; content = b'{' ∷ hi_text });
  open_stream = λ body. timeout;
}

empty_store : SessionStore
empty_store = record { ttl = 60; max_sessions = 2; sessions = []; heap = [] }

abbrev handle : Option Text → Handled ℕ
handle sid =
    chat_completions upstream counter no_names tags [] (find_hi ∷ []) [] closed_mode 64 sid
      (some call_body) empty_store 5 7 0

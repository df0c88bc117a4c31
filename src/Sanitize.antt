-- ===== src/Sanitize.antt =====
-- One text region of a request (src/pipeline/sanitize.py), with the choice between the name map and
-- the encryption (src/session/candidates.py, src/surrogate/engine.py). The pools of names, and the
-- surrogate domains with their key, are arguments.
pub mod Splice
pub mod Placement
pub mod Replacement
use local_first_llm_privacy.Common.{
  ℕ, ◌-◌, leb, if◌then◌else◌, Bool, true, false, List, [], ◌∷◌, ◌++◌, take, drop, Option, none,
  some, is_nil, Result, ok, raise, ◌>>=◌, surrogate_domain_error, key_error,
}
use local_first_llm_privacy.Common.Chars.{Text}
use local_first_llm_privacy.Common.Bytes.{Bytes}
use local_first_llm_privacy.Common.Sorting.{sort}
use local_first_llm_privacy.Sessions.{
  EntityType, aadhaar, pan, ifsc, upi, vehicle_reg, card, email, phone, person, org, address,
  Session, Shuffler, allocate_or_lookup_name, record_surrogate,
}
use local_first_llm_privacy.Precedence.{Span}
use local_first_llm_privacy.Cascade.{ResolvedSpan, span_text}

-- `entity_type in NAME_MAP_ENTITY_TYPES`.
unfoldable pub is_name_type : EntityType → Bool
is_name_type person = true
is_name_type org = true
is_name_type address = true
is_name_type _ = false

-- What the engine uses of a surrogate domain.
pub record SurrogateDomain : Type 0 where
  pub encrypt : Text → Bytes → Result Text
  pub decrypt : Text → Bytes → Result Text

-- The domains that are registered, one for each type that has one.
pub record Registry : Type 0 where
  pub aadhaar_domain : SurrogateDomain
  pub pan_domain : SurrogateDomain
  pub card_domain : SurrogateDomain
  pub ifsc_domain : SurrogateDomain
  pub phone_domain : SurrogateDomain
  pub vehicle_domain : SurrogateDomain

unfoldable pub get_surrogate_domain : Registry → EntityType → Result SurrogateDomain
get_surrogate_domain domains aadhaar = ok domains.aadhaar_domain
get_surrogate_domain domains pan = ok domains.pan_domain
get_surrogate_domain domains card = ok domains.card_domain
get_surrogate_domain domains ifsc = ok domains.ifsc_domain
get_surrogate_domain domains phone = ok domains.phone_domain
get_surrogate_domain domains vehicle_reg = ok domains.vehicle_domain
get_surrogate_domain domains _ = raise surrogate_domain_error

unfoldable pub engine_encrypt : Registry → EntityType → Text → Bytes → Result Text
engine_encrypt domains kind value key = do
  domain ← get_surrogate_domain domains kind
  domain.encrypt value key

unfoldable pub engine_decrypt : Registry → EntityType → Text → Bytes → Result Text
engine_decrypt domains kind surrogate key = do
  domain ← get_surrogate_domain domains kind
  domain.decrypt surrogate key

-- The pools, one for each type of the name map.
pub record Pools : Type 0 where
  pub names : List Text
  pub org_names : List Text
  pub addresses : List Text

unfoldable pub get_candidates : Pools → EntityType → Result (List Text)
get_candidates pools person = ok pools.names
get_candidates pools org = ok pools.org_names
get_candidates pools address = ok pools.addresses
get_candidates pools _ = raise key_error

-- `new_text[: span.start] + surrogate + new_text[span.end :]`.
unfoldable pub splice : Text → Span → Text → Text
splice text span surrogate = take span.start text ++ (surrogate ++ drop span.end text)

-- `sorted(resolved_spans, key=lambda r: r.span.start, reverse=True)`.
unfoldable pub last_first : List ResolvedSpan → List ResolvedSpan
last_first spans = sort (λ a b. leb b.span.start a.span.start) spans

module _ {Rng : Type 0} (random : Shuffler Rng) (pools : Pools) (domains : Registry)
    (key : Bytes) where
  -- The branch on the span's type.
  unfoldable pub surrogate_for : Session → Rng → ℕ → EntityType → Text → Result Text × Session × Rng
  surrogate_for session rng now kind value = elim (is_name_type kind) [
    | true ↦ elim (get_candidates pools kind) [
      | ok candidates ↦ allocate_or_lookup_name random session value kind candidates rng now
      | raise e ↦ (raise e, session, rng)
    ]
    | false ↦ elim (engine_encrypt domains kind value key) [
      | ok surrogate ↦ (ok surrogate, record_surrogate session surrogate kind now, rng)
      | raise e ↦ (raise e, session, rng)
    ]
  ]

  -- The loop over the spans: the text so far, and whether it has changed.
  unfoldable pub sanitize_loop :
      Text
      → ℕ
      → List ResolvedSpan
      → Text
      → Bool
      → Session
      → Rng
      → Result (Text × Bool) × Session × Rng
  sanitize_loop text now [] new_text changed session rng = (ok (new_text, changed), session, rng)
  sanitize_loop text now (resolved ∷ rest) new_text changed session rng =
      elim resolved.is_ingress_surrogate [
        | true ↦ sanitize_loop text now rest new_text changed session rng
        | false ↦
            let (surrogate, session', rng') : Result Text × Session × Rng =
              surrogate_for session rng now resolved.span.entity_type
                (span_text text resolved.span) in
            elim surrogate [
              | ok s ↦
                  sanitize_loop text now rest (splice new_text resolved.span s) true session' rng'
              | raise e ↦ (raise e, session', rng')
            ]
      ]

  -- The region, with the cascade as an argument.
  unfoldable pub sanitize_region :
      (Text → Session → Result (List ResolvedSpan))
      → Text
      → ℕ
      → Session
      → Rng
      → Result (Option Text) × Session × Rng
  sanitize_region detect_spans text now session rng = elim (detect_spans text session) [
    | raise e ↦ (raise e, session, rng)
    | ok spans ↦
        if is_nil spans
        then (ok none, session, rng)
        else let (out, session', rng') : Result (Text × Bool) × Session × Rng =
            sanitize_loop text now (last_first spans) text false session rng in
          (out >>= λ r. ok (if r.1 then some r.0 else none), session', rng')
  ]

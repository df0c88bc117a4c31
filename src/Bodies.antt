-- ===== src/Bodies.antt =====
-- A whole request body sanitized (src/pipeline/sanitize.py, `sanitize`) and a whole response body
-- rehydrated (src/pipeline/rehydrate.py, `rehydrate_body`). The clock is read once: `now` is an argument.
-- The detectors are arguments, as in the cascade; so are `json.loads` and `json.dumps`.
pub mod Substituting
pub mod Fields
pub mod Replies
use local_first_llm_privacy.Common.{
  ℕ, if◌then◌else◌, Bool, true, false, List, [], ◌∷◌, Option, none, some, Result, ok, raise, ◌>>=◌,
  text_eq,
}
use local_first_llm_privacy.Common.Chars.{Text}
use local_first_llm_privacy.Common.Bytes.{Bytes}
use local_first_llm_privacy.Json.{Json}
use local_first_llm_privacy.Sessions.{Session, Shuffler}
use local_first_llm_privacy.Precedence.{Span}
use local_first_llm_privacy.Cascade.{FailMode, detect}
use local_first_llm_privacy.Sanitize.{Registry, Pools, sanitize_region}
use local_first_llm_privacy.Rehydrate.{rehydrate}
use local_first_llm_privacy.FieldWalker.{
  FieldPath, path_eq, TextRegion, Substitutions, walk, rebuild,
}
use local_first_llm_privacy.ProtocolFields.{is_protocol_enum_value}

-- `substitutions[path] = text`.
unfoldable pub put_substitution : FieldPath → Text → Substitutions → Substitutions
put_substitution path text [] = (path, text) ∷ []
put_substitution path text (entry ∷ entries) =
    let rest = put_substitution path text entries in
    if path_eq path entry.0 then (entry.0, text) ∷ entries else entry ∷ rest

-- What a region's call leaves: the text that it is given if it changes, the session and the generator.
abbrev pub RegionStep : Type 0 → Type 0
RegionStep Rng = Text → Session → Rng → Result (Option Text) × Session × Rng

module _ {Rng : Type 0} (step : RegionStep Rng) where
  -- The loop over the walk's regions.
  unfoldable pub sanitize_regions :
      List TextRegion → Substitutions → Session → Rng → Result Substitutions × Session × Rng
  sanitize_regions [] substitutions session rng = (ok substitutions, session, rng)
  sanitize_regions (region ∷ regions) substitutions session rng =
      elim (is_protocol_enum_value region.path region.text) [
        | true ↦ sanitize_regions regions substitutions session rng
        | false ↦
            let (out, session', rng') : Result (Option Text) × Session × Rng =
              step region.text session rng in
            elim out [
              | raise e ↦ (raise e, session', rng')
              | ok none ↦ sanitize_regions regions substitutions session' rng'
              | ok (some text) ↦
                  sanitize_regions regions (put_substitution region.path text substitutions)
                    session' rng'
            ]
      ]

-- `_sanitize_region` with the cascade.
module _ {Rng : Type 0} (random : Shuffler Rng) (pools : Pools) (domains : Registry) (key : Bytes)
    (tier1 : List (Text → List Span)) (tier2 : List (Text → Result (List Span)))
    (mode : FailMode) where
  unfoldable pub region_step : ℕ → RegionStep Rng
  region_step now text session rng =
      sanitize_region random pools domains key (λ t s. detect tier1 tier2 t s mode) text now session
        rng

module _ (domains : Registry) (key : Bytes) where
  unfoldable pub rehydrate_regions :
      List TextRegion → Session → Substitutions → Result Substitutions
  rehydrate_regions [] session substitutions = ok substitutions
  rehydrate_regions (region ∷ regions) session substitutions =
      rehydrate domains key region.text session >>= λ new_text. rehydrate_regions regions session (
        if text_eq new_text region.text
        then substitutions
        else put_substitution region.path new_text substitutions)

module _ (loads : Text → Result Json) (dumps : Json → Text) (limit : ℕ) where
  module _ {Rng : Type 0} (random : Shuffler Rng) (pools : Pools) (domains : Registry) (key : Bytes)
      (tier1 : List (Text → List Span)) (tier2 : List (Text → Result (List Span)))
      (mode : FailMode) where
    -- The walk is taken whole before the first region is looked at, and the body is rebuilt after the
    -- last one.
    unfoldable pub sanitize : Json → ℕ → Session → Rng → Result Json × Session × Rng
    sanitize body now session rng = elim (walk loads limit body) [
      | raise e ↦ (raise e, session, rng)
      | ok regions ↦
          let (out, session', rng') : Result Substitutions × Session × Rng =
            sanitize_regions (region_step random pools domains key tier1 tier2 mode now) regions []
              session rng in
          (
            out >>= λ substitutions.
                rebuild loads dumps substitutions limit body >>= λ result. ok result.0,
            session',
            rng',
          )
    ]

  module _ (domains : Registry) (key : Bytes) where
    unfoldable pub rehydrate_body : Json → Session → Result Json
    rehydrate_body body session = walk loads limit body >>= λ regions.
        rehydrate_regions domains key regions session [] >>= λ substitutions.
        rebuild loads dumps substitutions limit body >>= λ result. ok result.0

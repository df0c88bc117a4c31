-- ===== src/Gateway/Sent.antt =====
-- What is sent upstream (src/proxy/routes.py).
use local_first_llm_privacy.Common.{
  ℕ, List, [], ◌∷◌, Option, none, some, Result, ok, raise, Error, ◌≡◌, get_elem?, is_some,
  key_error, false,
}
use local_first_llm_privacy.Common.Chars.{Text}
use local_first_llm_privacy.Common.Bytes.{Bytes}
use local_first_llm_privacy.Json.{Json, object_value, JsonObject}
use local_first_llm_privacy.Sessions.{Session, Shuffler}
use local_first_llm_privacy.SessionStore.{SessionStore}
use local_first_llm_privacy.Precedence.{Span}
use local_first_llm_privacy.Cascade.{FailMode}
use local_first_llm_privacy.Sanitize.{Registry, Pools}
use local_first_llm_privacy.Bodies.{sanitize}
use local_first_llm_privacy.Gateway.{
  Environment, Reply, http_exception, failed, undecodable_body, put_session, Handled,
  chat_completions,
}
use local_first_llm_privacy.ChatStream.{as_object}
use local_first_llm_privacy.Gateway.Answers.{Answers}

module _ {Rng : Type 0} (env : Environment) (random : Shuffler Rng) (pools : Pools)
    (domains : Registry) (key : Bytes) (tier1 : List (Text → List Span))
    (tier2 : List (Text → Result (List Span))) (mode : FailMode) (lookahead : ℕ) where
  abbrev call : Option Text → Option Json → SessionStore → ℕ → ℕ → Rng → Handled Rng
  call = chat_completions env random pools domains key tier1 tier2 mode lookahead

  -- The request's body was sanitized in the session that the store holds, with this outcome.
  pub record IsSanitizedIn (body : Option Json) (opened : SessionStore) (ref now : ℕ) (rng : Rng)
      (out : Result Json) (session' : Session) (rng' : Rng) : Type 0 where
    pub fields : JsonObject
    pub session : Session
    pub decoded : body ≡ some (object_value fields)
    pub held : get_elem? opened.heap ref ≡ some session
    pub ran :
        sanitize env.loads env.dumps env.limit random pools domains key tier1 tier2 mode
          (object_value fields)
          now
          session
          rng
        ≡ (out, session', rng')

  abbrev refusal : Reply → SessionStore → Rng → Handled Rng
  refusal reply store rng = record { reply = reply; sent = []; store = store; rng = rng }

  abbrev changed : SessionStore → ℕ → Session → SessionStore
  changed opened ref session' = record opened { heap = put_session opened.heap ref session' }

  -- How a call with a session header ends.
  pub data Ends (body : Option Json) (opened : SessionStore) (ref now : ℕ) (rng : Rng)
      (handled : Handled Rng) : Type 0 where
    undecodable :
        body ≡ none
        → handled ≡ refusal undecodable_body opened rng
        → Ends body opened ref now rng handled
    not_an_object :
        {value : Json}
        → body ≡ some value
        → is_some (as_object (some value)) ≡ false
        → handled ≡ refusal (http_exception 400) opened rng
        → Ends body opened ref now rng handled
    -- The store does not hold the session that it has just handed out.
    not_held :
        {fields : JsonObject}
        → body ≡ some (object_value fields)
        → get_elem? opened.heap ref ≡ none
        → handled ≡ refusal (failed key_error) opened rng
        → Ends body opened ref now rng handled
    not_sanitized :
        {e : Error} {session' : Session} {rng' : Rng}
        → IsSanitizedIn body opened ref now rng (raise e) session' rng'
        → handled ≡ refusal (failed e) (changed opened ref session') rng'
        → Ends body opened ref now rng handled
    exchanged :
        {sanitized : Json} {session' : Session} {rng' : Rng}
        → IsSanitizedIn body opened ref now rng (ok sanitized) session' rng'
        → Answers env domains key lookahead sanitized session' handled.reply
        → handled.sent ≡ sanitized ∷ []
        → handled.store ≡ changed opened ref session'
        → handled.rng ≡ rng'
        → Ends body opened ref now rng handled

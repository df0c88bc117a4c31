-- ===== src/Gateway.antt =====
-- The request handler (src/proxy/routes.py, `chat_completions`): the session, the sanitized body, the one
-- exchange with the upstream, and the reply. The web framework, the clock and the network are arguments:
-- what a post or an opened stream gives back, and `bool` of a number. Each call of the network adds the
-- body that it sends to a list in the result. The headers with the correlation id and the log are left out.
pub mod Answers
pub mod Sent
use local_first_llm_privacy.Common.{
  ℕ, zero, suc, ◌==◌, ◌/◌, if◌then◌else◌, Bool, true, false, ◌||◌, not, is_nil, List, [], ◌∷◌, ◌++◌,
  any, map, Option, none, some, Result, ok, raise, Error, ◌>>=◌, get_elem?, text_eq, key_error,
  caught,
}
use local_first_llm_privacy.Common.Chars.{Text}
use local_first_llm_privacy.Common.Bytes.{Bytes}
use local_first_llm_privacy.Json.{
  Json, null_value, bool_value, number_value, string_value, array_value, object_value, no_item,
  item, JsonList, JsonObject, no_field, field, get_field,
}
use local_first_llm_privacy.Sessions.{Session, Shuffler}
use local_first_llm_privacy.SessionStore.{SessionStore, get_or_create}
use local_first_llm_privacy.Precedence.{Span}
use local_first_llm_privacy.Cascade.{FailMode}
use local_first_llm_privacy.Sanitize.{Registry, Pools}
use local_first_llm_privacy.Bodies.{sanitize, rehydrate_body}
use local_first_llm_privacy.Rehydrate.{rehydrate}
use local_first_llm_privacy.Streaming.{Output, generate_sse}

abbrev pub Headers : Type 0
Headers = List (Text × Text)

-- What comes of an exchange: an answer, or a failure of the transport, which may be a timeout.
pub data Exchange {ℓ} (A : Type ℓ) : Type ℓ where
  answered : A → Exchange A
  timeout : Exchange A
  transport_error : Exchange A

pub record UpstreamResponse : Type 0 where
  pub status_code : ℕ
  pub headers : Headers
  pub content : Bytes

-- The headers and the chunks of text of an opened stream.
pub record UpstreamStream : Type 0 where
  pub stream_headers : Headers
  pub chunks : List Text

pub data Reply : Type 0 where
  response : ℕ → Headers → Bytes → Reply
  event_stream : Headers → List Output → Reply
  http_exception : ℕ → Reply
  upstream_failure : ℕ → Reply
  -- Any other exception that leaves the handler.
  failed : Error → Reply
  undecodable_body : Reply

unfoldable pub translate_upstream_connection_failure : Bool → Reply
translate_upstream_connection_failure true = upstream_failure 504
translate_upstream_connection_failure false = upstream_failure 502

-- `_HOP_BY_HOP_HEADERS`.
abbrev pub hop_by_hop_headers : List Text
hop_by_hop_headers =
    (b'c' ∷ b'o' ∷ b'n' ∷ b'n' ∷ b'e' ∷ b'c' ∷ b't' ∷ b'i' ∷ b'o' ∷ b'n' ∷ [])
    ∷ (b'k' ∷ b'e' ∷ b'e' ∷ b'p' ∷ b'-' ∷ b'a' ∷ b'l' ∷ b'i' ∷ b'v' ∷ b'e' ∷ [])
    ∷ (b'p' ∷ b'r' ∷ b'o' ∷ b'x' ∷ b'y' ∷ b'-' ∷ b'a' ∷ b'u' ∷ b't' ∷ b'h' ∷ b'e' ∷ b'n' ∷ b't'
        ∷ b'i' ∷ b'c' ∷ b'a' ∷ b't' ∷ b'e' ∷ [])
    ∷ (b'p' ∷ b'r' ∷ b'o' ∷ b'x' ∷ b'y' ∷ b'-' ∷ b'a' ∷ b'u' ∷ b't' ∷ b'h' ∷ b'o' ∷ b'r' ∷ b'i'
        ∷ b'z' ∷ b'a' ∷ b't' ∷ b'i' ∷ b'o' ∷ b'n' ∷ [])
    ∷ (b't' ∷ b'e' ∷ [])
    ∷ (b't' ∷ b'r' ∷ b'a' ∷ b'i' ∷ b'l' ∷ b'e' ∷ b'r' ∷ b's' ∷ [])
    ∷ (b't' ∷ b'r' ∷ b'a' ∷ b'n' ∷ b's' ∷ b'f' ∷ b'e' ∷ b'r' ∷ b'-' ∷ b'e' ∷ b'n' ∷ b'c' ∷ b'o'
        ∷ b'd' ∷ b'i' ∷ b'n' ∷ b'g' ∷ [])
    ∷ (b'u' ∷ b'p' ∷ b'g' ∷ b'r' ∷ b'a' ∷ b'd' ∷ b'e' ∷ [])
    ∷ []

abbrev pub content_length : Text
content_length =
    b'c' ∷ b'o' ∷ b'n' ∷ b't' ∷ b'e' ∷ b'n' ∷ b't' ∷ b'-' ∷ b'l' ∷ b'e' ∷ b'n' ∷ b'g' ∷ b't' ∷ b'h'
    ∷ []

-- The names that are dropped, in lower case, and the lower case of a name.
unfoldable pub forwardable_headers : (Text → Text) → List Text → Headers → Headers
forwardable_headers lower drop [] = []
forwardable_headers lower drop (h ∷ headers) =
    let rest = forwardable_headers lower drop headers in
    if any (text_eq (lower h.0)) drop then rest else h ∷ rest

abbrev pub stream_key : Text
stream_key = b's' ∷ b't' ∷ b'r' ∷ b'e' ∷ b'a' ∷ b'm' ∷ []

-- `bool(value)`, with `nonzero` for a number.
unfoldable pub truth : (Text → Bool) → Json → Bool
truth nonzero null_value = false
truth nonzero (bool_value b) = b
truth nonzero (number_value n) = nonzero n
truth nonzero (string_value s) = not (is_nil s)
truth nonzero (array_value no_item) = false
truth nonzero (array_value (item v items)) = true
truth nonzero (object_value no_field) = false
truth nonzero (object_value (field k v fields)) = true

-- `bool(body.get("stream", False))`.
unfoldable pub wants_stream : (Text → Bool) → Json → Bool
wants_stream nonzero (object_value fields) = elim (get_field stream_key fields) [
  | none ↦ false
  | some value ↦ truth nonzero value
]
wants_stream nonzero _ = false

unfoldable pub put_session : List Session → ℕ → Session → List Session
put_session [] ref session = []
put_session (s ∷ heap) zero session = session ∷ heap
put_session (s ∷ heap) (suc ref) session = s ∷ put_session heap ref session

-- The code that the handler calls and that is not part of the repository.
pub record Environment : Type 0 where
  pub loads : Text → Result Json
  -- `json.loads` of bytes, and `str.encode` to UTF-8.
  pub loads_content : Bytes → Result Json
  pub encode : Text → Result Bytes
  pub dumps : Json → Text
  pub limit : ℕ
  pub lower : Text → Text
  pub nonzero : Text → Bool
  pub post : Json → Exchange UpstreamResponse
  pub open_stream : Json → Exchange UpstreamStream

-- The two calls of the network, with the list of the bodies that they send.
unfoldable pub call_post : Environment → Json → Exchange UpstreamResponse × List Json
call_post env body = (env.post body, body ∷ [])

unfoldable pub call_stream : Environment → Json → Exchange UpstreamStream × List Json
call_stream env body = (env.open_stream body, body ∷ [])

module _ (env : Environment) (domains : Registry) (key : Bytes) where
  unfoldable pub rehydrated_content : UpstreamResponse → Session → Result Bytes
  rehydrated_content upstream session =
      if upstream.status_code / 100 == 2
      then (caught (env.loads_content upstream.content) >>= λ decoded. elim decoded [
        | some (object_value fields) ↦
            rehydrate_body env.loads env.dumps env.limit domains key (object_value fields) session
            >>= λ body. env.encode (env.dumps body)
        | some _ ↦ ok upstream.content
        | none ↦ ok upstream.content
      ])
      else ok upstream.content

  -- With the bodies that are sent.
  unfoldable pub forward_non_streaming : Json → Session → Reply × List Json
  forward_non_streaming body session =
      let (exchange, sent) : Exchange UpstreamResponse × List Json = call_post env body in
      (
        elim exchange [
          | timeout ↦ translate_upstream_connection_failure true
          | transport_error ↦ translate_upstream_connection_failure false
          | answered upstream ↦ elim (rehydrated_content upstream session) [
            | raise e ↦ failed e
            | ok content ↦
                response upstream.status_code
                  (forwardable_headers env.lower (hop_by_hop_headers ++ (content_length ∷ []))
                    upstream.headers)
                  content
          ]
        ],
        sent,
      )

  unfoldable pub start_streaming : ℕ → Json → Session → Reply × List Json
  start_streaming lookahead body session =
      let (exchange, sent) : Exchange UpstreamStream × List Json = call_stream env body in
      (
        elim exchange [
          | timeout ↦ translate_upstream_connection_failure true
          | transport_error ↦ translate_upstream_connection_failure false
          | answered stream ↦
              elim (generate_sse env.loads lookahead (λ text. rehydrate domains key text session)
                stream.chunks) [
                  | raise e ↦ failed e
                  | ok outs ↦
                      event_stream
                        (forwardable_headers env.lower hop_by_hop_headers stream.stream_headers)
                        outs
                ]
        ],
        sent,
      )

-- What a call leaves: the reply, the bodies that were sent upstream, the store and the generator.
pub record Handled (Rng : Type 0) : Type 0 where
  pub reply : Reply
  pub sent : List Json
  pub store : SessionStore
  pub rng : Rng

module _ {Rng : Type 0} (env : Environment) (random : Shuffler Rng) (pools : Pools)
    (domains : Registry) (key : Bytes) (tier1 : List (Text → List Span))
    (tier2 : List (Text → Result (List Span))) (mode : FailMode) (lookahead : ℕ) where
  -- The exchange for a sanitized body: one post, or one opened stream.
  unfoldable pub forward : Json → Session → Reply × List Json
  forward body session =
      if wants_stream env.nonzero body
      then start_streaming env domains key lookahead body session
      else forward_non_streaming env domains key body session

  -- From the session on, which stands at `ref` in the store's heap.
  unfoldable pub handle_body : JsonObject → SessionStore → ℕ → Session → ℕ → Rng → Handled Rng
  handle_body fields store ref session now rng =
      let (out, session', rng') : Result Json × Session × Rng =
        sanitize env.loads env.dumps env.limit random pools domains key tier1 tier2 mode
          (object_value fields) now session rng in
      let store' = record store { heap = put_session store.heap ref session' } in
      elim out [
        | raise e ↦ record { reply = failed e; sent = []; store = store'; rng = rng' }
        | ok body ↦
            let (reply, sent) : Reply × List Json = forward body session' in
            record { reply = reply; sent = sent; store = store'; rng = rng' }
      ]

  -- The header, the decoded body (none if it does not decode), and the two readings of the clock.
  unfoldable pub chat_completions :
      Option Text → Option Json → SessionStore → ℕ → ℕ → Rng → Handled Rng
  chat_completions none body store seen now rng = record {
    reply = http_exception 400;
    sent = [];
    store = store;
    rng = rng;
  }
  chat_completions (some []) body store seen now rng = record {
    reply = http_exception 400;
    sent = [];
    store = store;
    rng = rng;
  }
  chat_completions (some (c ∷ sid)) body store seen now rng =
      let (ref, opened) : ℕ × SessionStore = get_or_create store (c ∷ sid) seen in
      elim body [
        | none ↦ record { reply = undecodable_body; sent = []; store = opened; rng = rng }
        | some (object_value fields) ↦ elim (get_elem? opened.heap ref) [
          | none ↦ record { reply = failed key_error; sent = []; store = opened; rng = rng }
          | some session ↦ handle_body fields opened ref session now rng
        ]
        | some _ ↦ record { reply = http_exception 400; sent = []; store = opened; rng = rng }
      ]

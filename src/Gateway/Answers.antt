-- ===== src/Gateway/Answers.antt =====
-- What the client is answered, by what came of the exchange (src/proxy/routes.py).
use local_first_llm_privacy.Common.{
  ℕ, List, [], ◌∷◌, ok, raise, Error, Result-cases, inl, inr, ◌≡◌, refl, Bool-cases, ◌⊎◌, ◌++◌, ◌/◌,
  ◌==◌, true, false,
}
use local_first_llm_privacy.Common.Bytes.{Bytes}
use local_first_llm_privacy.Json.{Json}
use local_first_llm_privacy.Sessions.{Session}
use local_first_llm_privacy.Sanitize.{Registry}
use local_first_llm_privacy.Gateway.{
  Environment, Exchange, answered, timeout, transport_error, UpstreamResponse, UpstreamStream,
  Reply, response, event_stream, upstream_failure, failed, forwardable_headers, hop_by_hop_headers,
  content_length, wants_stream, rehydrated_content, forward_non_streaming, start_streaming,
  call_post, call_stream, translate_upstream_connection_failure,
}
use local_first_llm_privacy.Rehydrate.{rehydrate}
use local_first_llm_privacy.Streaming.{Output, generate_sse}

-- What the client is answered for a body that was sent, by what came back for it.
pub data Answers (env : Environment) (domains : Registry) (key : Bytes) (lookahead : ℕ)
    (body : Json) (session : Session) (reply : Reply) : Type 0 where
  posted_in_vain :
      wants_stream env.nonzero body ≡ false
      → ((env.post body ≡ timeout) × (reply ≡ upstream_failure 504))
        ⊎ ((env.post body ≡ transport_error) × (reply ≡ upstream_failure 502))
      → Answers env domains key lookahead body session reply
  -- Content of any status but 2xx is passed on as it is.
  passed_on :
      {upstream : UpstreamResponse}
      → wants_stream env.nonzero body ≡ false
      → env.post body ≡ answered upstream
      → (upstream.status_code / 100 == 2) ≡ false
      → reply
        ≡ response upstream.status_code
            (forwardable_headers env.lower
              (hop_by_hop_headers ++ (content_length ∷ []))
              upstream.headers)
            upstream.content
      → Answers env domains key lookahead body session reply
  posted :
      {upstream : UpstreamResponse} {content : Bytes}
      → wants_stream env.nonzero body ≡ false
      → env.post body ≡ answered upstream
      → (upstream.status_code / 100 == 2) ≡ true
      → rehydrated_content env domains key upstream session ≡ ok content
      → reply
        ≡ response upstream.status_code
            (forwardable_headers env.lower
              (hop_by_hop_headers ++ (content_length ∷ []))
              upstream.headers)
            content
      → Answers env domains key lookahead body session reply
  not_rehydrated :
      {upstream : UpstreamResponse} {e : Error}
      → wants_stream env.nonzero body ≡ false
      → env.post body ≡ answered upstream
      → (upstream.status_code / 100 == 2) ≡ true
      → rehydrated_content env domains key upstream session ≡ raise e
      → reply ≡ failed e
      → Answers env domains key lookahead body session reply
  opened_in_vain :
      wants_stream env.nonzero body ≡ true
      → ((env.open_stream body ≡ timeout) × (reply ≡ upstream_failure 504))
        ⊎ ((env.open_stream body ≡ transport_error) × (reply ≡ upstream_failure 502))
      → Answers env domains key lookahead body session reply
  streamed :
      {stream : UpstreamStream} {outs : List Output}
      → wants_stream env.nonzero body ≡ true
      → env.open_stream body ≡ answered stream
      → generate_sse env.loads lookahead (λ text. rehydrate domains key text session) stream.chunks
        ≡ ok outs
      → reply
        ≡ event_stream (forwardable_headers env.lower hop_by_hop_headers stream.stream_headers) outs
      → Answers env domains key lookahead body session reply
  stream_failed :
      {stream : UpstreamStream} {e : Error}
      → wants_stream env.nonzero body ≡ true
      → env.open_stream body ≡ answered stream
      → generate_sse env.loads lookahead (λ text. rehydrate domains key text session) stream.chunks
        ≡ raise e
      → reply ≡ failed e
      → Answers env domains key lookahead body session reply

module _ (env : Environment) (domains : Registry) (key : Bytes) (lookahead : ℕ) where
  abbrev pub Answered : Json → Session → Reply × List Json → Type 0
  Answered body session out =
      Answers env domains key lookahead body session out.0 × (out.1 ≡ body ∷ [])

  verbatim :
      (upstream : UpstreamResponse) (session : Session)
      → (upstream.status_code / 100 == 2) ≡ false
      → rehydrated_content env domains key upstream session ≡ ok upstream.content
  unfolding rehydrated_content
  verbatim upstream session other = rw other refl

  pub forward_non_streaming-Answered :
      (body : Json) (session : Session)
      → wants_stream env.nonzero body ≡ false
      → Answered body session (forward_non_streaming env domains key body session)
  unfolding forward_non_streaming call_post translate_upstream_connection_failure
  forward_non_streaming-Answered body session plain = by_exchange (env.post body) refl
    where
      by_exchange :
          (x : Exchange UpstreamResponse)
          → env.post body ≡ x
          → Answered body session (forward_non_streaming env domains key body session)
      by_exchange timeout e =
          (posted_in_vain plain (inl (e, rw (forward_non_streaming, e) refl)), refl)
      by_exchange transport_error e =
          (posted_in_vain plain (inr (e, rw (forward_non_streaming, e) refl)), refl)
      by_exchange (answered upstream) e = elim (Bool-cases (upstream.status_code / 100 == 2)) [
        | inr other ↦ (
          passed_on {upstream = upstream} plain e other
              (rw (forward_non_streaming, e, verbatim upstream session other) refl),
          refl,
        )
        | inl good ↦ elim (Result-cases (rehydrated_content env domains key upstream session)) [
          | inl (content, r) ↦ (
            posted {upstream = upstream} {content = content} plain e good r
                (rw (forward_non_streaming, e, r) refl),
            refl,
          )
          | inr (x, r) ↦ (
            not_rehydrated {upstream = upstream} {e = x} plain e good r
                (rw (forward_non_streaming, e, r) refl),
            refl,
          )
        ]
      ]

  pub start_streaming-Answered :
      (body : Json) (session : Session)
      → wants_stream env.nonzero body ≡ true
      → Answered body session (start_streaming env domains key lookahead body session)
  unfolding start_streaming call_stream translate_upstream_connection_failure
  start_streaming-Answered body session streams = by_exchange (env.open_stream body) refl
    where
      by_exchange :
          (x : Exchange UpstreamStream)
          → env.open_stream body ≡ x
          → Answered body session (start_streaming env domains key lookahead body session)
      by_exchange timeout e = (opened_in_vain streams (inl (e, rw (start_streaming, e) refl)), refl)
      by_exchange transport_error e =
          (opened_in_vain streams (inr (e, rw (start_streaming, e) refl)), refl)
      by_exchange (answered stream) e =
          elim (Result-cases (
            generate_sse env.loads lookahead (λ text. rehydrate domains key text session)
              stream.chunks)) [
                | inl (outs, r) ↦ (
                  streamed {stream = stream} {outs = outs} streams e r
                      (rw (start_streaming, e, r) refl),
                  refl,
                )
                | inr (x, r) ↦ (
                  stream_failed {stream = stream} {e = x} streams e r
                      (rw (start_streaming, e, r) refl),
                  refl,
                )
              ]

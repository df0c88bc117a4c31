-- ===== src/Sanitize/Splice.antt =====
-- What the sanitizing of a region keeps (src/pipeline/sanitize.py).
use local_first_llm_privacy.Common.{
  ℕ, leb, Bool, true, false, List, [], ◌∷◌, all, is_nil, none, is_some, Bool-cases, inl, inr,
  Result-cases, Result, ok, raise, Error, ok-injective, get, put, get-put, has, ◌≡◌, refl, sym, ap,
  subst, ◌∙◌, arith,
}
use local_first_llm_privacy.Common.Chars.{Text}
use local_first_llm_privacy.Common.Bytes.{Bytes}
use local_first_llm_privacy.Common.Sorting.{sort, all-sort}
use local_first_llm_privacy.Sessions.{
  EntityType, KnownSurrogate, Session, Shuffler, allocate_or_lookup_name, record_surrogate,
  lookup_surrogate,
}
use local_first_llm_privacy.Sessions.Names.{IsConsistent}
use local_first_llm_privacy.Sessions.Allocation.{
  same, recorded, allocated, Later-IsConsistent, allocate-Assigned,
}
use local_first_llm_privacy.Cascade.{ResolvedSpan}
use local_first_llm_privacy.Sanitize.{
  Registry, Pools, is_name_type, get_candidates, engine_encrypt, last_first, surrogate_for,
  sanitize_loop, sanitize_region,
}

module _ {Rng : Type 0} (random : Shuffler Rng) (pools : Pools) (domains : Registry)
    (key : Bytes) where
  loop-ingress :
      (text : Text) (now : ℕ) (spans : List ResolvedSpan) (new_text : Text) (changed : Bool)
      (session : Session) (rng : Rng)
      → all (λ r. r.is_ingress_surrogate) spans ≡ true
      → sanitize_loop random pools domains key text now spans new_text changed session rng
        ≡ (ok (new_text, changed), session, rng)
  unfolding sanitize_loop
  loop-ingress text now [] new_text changed session rng h = refl
  loop-ingress text now (r ∷ spans) new_text changed session rng h =
      let here : r.is_ingress_surrogate ≡ true = ground arith in
      let rest : all (λ r. r.is_ingress_surrogate) spans ≡ true = ground arith in
      rw here (loop-ingress text now spans new_text changed session rng rest)

  -- A region all of whose spans are surrogates that the session minted stays as it is: nothing is
  -- encrypted again, no name is drawn, and the session is the same.
  pub sanitize_region-ingress :
      (detect_spans : Text → Session → Result (List ResolvedSpan)) (text : Text) (now : ℕ)
      (spans : List ResolvedSpan) (session : Session) (rng : Rng)
      → detect_spans text session ≡ ok spans
      → all (λ r. r.is_ingress_surrogate) spans ≡ true
      → sanitize_region random pools domains key detect_spans text now session rng
        ≡ (ok none, session, rng)
  unfolding sanitize_region last_first
  sanitize_region-ingress detect_spans text now spans session rng found h =
      let le : ResolvedSpan → ResolvedSpan → Bool = λ a b. leb b.span.start a.span.start in
      let sorted = all-sort le (λ r. r.is_ingress_surrogate) spans ∙ h in
      elim (Bool-cases (is_nil spans)) [
        | inl e ↦ rw (sanitize_region, found, e) refl
        | inr e ↦
            rw
              (
                sanitize_region,
                found,
                e,
                loop-ingress text now (sort le spans) text false session rng sorted,
              )
              refl
      ]

  -- What a call leaves behind: its surrogate, if it returned one, is known.
  abbrev Known : Text → Result Text × Session × Rng → Type 0
  Known surrogate called =
      called.0 ≡ ok surrogate
      → (is_some (lookup_surrogate called.1 surrogate) ≡ true) × IsConsistent called.1

  raise-Known :
      (e : Error) (session : Session) (rng : Rng) (surrogate : Text)
      → Known surrogate (raise e, session, rng)
  raise-Known e session rng surrogate returned = absurd (ground (arith, returned))

  recorded-Known :
      (session : Session) (rng : Rng) (now : ℕ) (kind : EntityType) (s surrogate : Text)
      → IsConsistent session
      → Known surrogate (ok s, record_surrogate session s kind now, rng)
  unfolding record_surrogate lookup_surrogate
  recorded-Known session rng now kind s surrogate h returned =
      let e : s ≡ surrogate = ok-injective returned in
      let entry : KnownSurrogate = record { entity_type = kind; created_at = now } in
      (
        ap (λ x. is_some (get x (put s entry session.known_surrogates))) (sym e)
            ∙ ap is_some (get-put s entry session.known_surrogates),
        Later-IsConsistent random (recorded s kind now same) h,
      )

  allocated-Known :
      (session : Session) (rng : Rng) (now : ℕ) (kind : EntityType) (value surrogate : Text)
      (candidates : List Text)
      → IsConsistent session
      → Known surrogate (allocate_or_lookup_name random session value kind candidates rng now)
  unfolding lookup_surrogate has
  allocated-Known session rng now kind value surrogate candidates h returned =
      let h' = Later-IsConsistent random (allocated value kind candidates rng now same) h in
      let assigned =
        allocate-Assigned random session value surrogate kind candidates rng now returned in
      (h'.known value surrogate (h'.back value surrogate assigned), h')

  -- A surrogate that the call returns for a value, by encryption or from the name map, is from then
  -- on a known surrogate of the session, and the session's name maps stay inverse to each other.
  pub surrogate_for-known :
      (session : Session) (rng : Rng) (now : ℕ) (kind : EntityType) (value surrogate : Text)
      → IsConsistent session
      → (surrogate_for random pools domains key session rng now kind value).0 ≡ ok surrogate
      → let session' = (surrogate_for random pools domains key session rng now kind value).1 in
        (is_some (lookup_surrogate session' surrogate) ≡ true) × IsConsistent session'
  unfolding surrogate_for
  surrogate_for-known session rng now kind value surrogate h =
      elim (Bool-cases (is_name_type kind)) [
        | inl e ↦ elim (Result-cases (get_candidates pools kind)) [
          | inl (candidates, c) ↦
              let call : surrogate_for random pools domains key session rng now kind value
                  ≡ allocate_or_lookup_name random session value kind candidates rng now =
                rw (surrogate_for, e, c) refl in
              subst (Known surrogate) (sym call)
                (allocated-Known session rng now kind value surrogate candidates h)
          | inr (x, c) ↦
              let call : surrogate_for random pools domains key session rng now kind value
                  ≡ (raise x, session, rng) =
                rw (surrogate_for, e, c) refl in
              subst (Known surrogate) (sym call) (raise-Known x session rng surrogate)
        ]
        | inr e ↦ elim (Result-cases (engine_encrypt domains kind value key)) [
          | inl (s, c) ↦
              let call : surrogate_for random pools domains key session rng now kind value
                  ≡ (ok s, record_surrogate session s kind now, rng) =
                rw (surrogate_for, e, c) refl in
              subst (Known surrogate) (sym call) (recorded-Known session rng now kind s surrogate h)
          | inr (x, c) ↦
              let call : surrogate_for random pools domains key session rng now kind value
                  ≡ (raise x, session, rng) =
                rw (surrogate_for, e, c) refl in
              subst (Known surrogate) (sym call) (raise-Known x session rng surrogate)
        ]
      ]

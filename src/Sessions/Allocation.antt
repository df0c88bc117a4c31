-- ===== src/Sessions/Allocation.antt =====
-- Allocating surrogate names over the life of a session (src/session/session.py).
use local_first_llm_privacy.Common.{
  ℕ, Bool, true, false, none, some, List, [], ◌∷◌, ◌≡◌, refl, sym, ap, ◌∙◌, inl, inr, arith,
  Bool-cases, Option-cases, ok, raise, get, has, text_eq, text_eq_refl, text_eq-cases, get-put,
  get-put_other, any, not, ltb, ◌+◌, ok-injective, name_list_exhausted_error,
}
use local_first_llm_privacy.Common.Chars.{Text}
use local_first_llm_privacy.Sessions.{
  EntityType, Session, new_session, touch_if_alive, record_surrogate, first_free, commit, Shuffler,
  allocate_or_lookup_name, lookup_real_name,
}
use local_first_llm_privacy.Sessions.Names.{
  IsConsistent, commit-IsConsistent, first_free-get, has-put,
}

-- Shuffling changes no membership.
abbrev pub IsShuffle : {Rng : Type 0} → Shuffler Rng → Type 0
IsShuffle {Rng} random =
    (rng : Rng) (candidates : List Text) (p : Text → Bool)
    → any p (random.shuffle rng candidates).0 ≡ any p candidates

is_free : Session → Text → Bool
is_free s c = not (has c s.name_reverse)

first_free-some :
    (taken : List (Text × Text)) (candidates : List Text)
    → any (λ c. not (has c taken)) candidates ≡ true
    → (c : Text) × (first_free taken candidates ≡ some c)
      × (any (λ c'. text_eq c c') candidates ≡ true)
unfolding first_free
first_free-some taken [] h = absurd (ground (arith, h))
first_free-some taken (x ∷ candidates) h = elim (Bool-cases (has x taken)) [
  | inl e ↦
      let rest : any (λ c. not (has c taken)) candidates ≡ true = rw e at h in
      let (c, found, here) = first_free-some taken candidates rest in
      (c, rw e found, ground (arith, here))
  | inr e ↦ (x, rw e refl, ground (arith, text_eq_refl x))
]

first_free-none :
    (taken : List (Text × Text)) (candidates : List Text)
    → any (λ c. not (has c taken)) candidates ≡ false
    → first_free taken candidates ≡ none
unfolding first_free
first_free-none taken [] h = refl
first_free-none taken (x ∷ candidates) h = elim (Bool-cases (has x taken)) [
  | inl e ↦
      let rest : any (λ c. not (has c taken)) candidates ≡ false = rw e at h in
      rw e (first_free-none taken candidates rest)
  | inr e ↦ let bad : true ≡ false = rw e at h in absurd (ground (arith, bad))
]

module _ {Rng : Type 0} (random : Shuffler Rng) where
  allocate-existing :
      (s : Session) (r c : Text) (kind : EntityType) (candidates : List Text) (rng : Rng) (now : ℕ)
      → get r s.name_forward ≡ some c
      → allocate_or_lookup_name random s r kind candidates rng now ≡ (ok c, s, rng)
  unfolding allocate_or_lookup_name
  allocate-existing s r c kind candidates rng now h = rw (allocate_or_lookup_name, h) refl

  allocate-new :
      (s : Session) (r c : Text) (kind : EntityType) (candidates : List Text) (rng : Rng) (now : ℕ)
      → get r s.name_forward ≡ none
      → first_free s.name_reverse (random.shuffle rng candidates).0 ≡ some c
      → allocate_or_lookup_name random s r kind candidates rng now
        ≡ (ok c, commit s r kind now c, (random.shuffle rng candidates).1)
  unfolding allocate_or_lookup_name
  allocate-new s r c kind candidates rng now new found =
      rw (allocate_or_lookup_name, new, found) refl

  allocate-exhausted :
      (s : Session) (r : Text) (kind : EntityType) (candidates : List Text) (rng : Rng) (now : ℕ)
      → get r s.name_forward ≡ none
      → first_free s.name_reverse (random.shuffle rng candidates).0 ≡ none
      → allocate_or_lookup_name random s r kind candidates rng now
        ≡ (raise name_list_exhausted_error, s, (random.shuffle rng candidates).1)
  unfolding allocate_or_lookup_name
  allocate-exhausted s r kind candidates rng now new found =
      rw (allocate_or_lookup_name, new, found) refl

  -- For a value that has no surrogate yet: if a candidate is free, the call returns one of the
  -- candidates, which was free, and records it; if none is, it raises NameListExhaustedError and leaves
  -- the session as it was.
  pub allocate_or_lookup_name-fresh :
      (s : Session) (r : Text) (kind : EntityType) (candidates : List Text) (rng : Rng) (now : ℕ)
      → IsShuffle random
      → get r s.name_forward ≡ none
      → let called = allocate_or_lookup_name random s r kind candidates rng now in
        (any (λ c. not (has c s.name_reverse)) candidates ≡ true
          → (c : Text) × (called.0 ≡ ok c)
            × (called.1 ≡ commit s r kind now c)
            × (any (λ c'. text_eq c c') candidates ≡ true)
            × (get c s.name_reverse ≡ none))
        × (any (λ c. not (has c s.name_reverse)) candidates ≡ false
            → (called.0 ≡ raise name_list_exhausted_error) × (called.1 ≡ s))
  allocate_or_lookup_name-fresh s r kind candidates rng now permutes new =
      let shuffled = (random.shuffle rng candidates).0 in
      (
        λ free.
            let (c, found, here) =
              first_free-some s.name_reverse shuffled
                (permutes rng candidates (λ c. not (has c s.name_reverse)) ∙ free) in
            let e = allocate-new s r c kind candidates rng now new found in
            (
              c,
              ap (λ x. x.0) e,
              ap (λ x. x.1) e,
              sym (permutes rng candidates (λ c'. text_eq c c')) ∙ here,
              first_free-get s.name_reverse shuffled c found,
            ),
        λ taken.
            let found =
              first_free-none s.name_reverse shuffled
                (permutes rng candidates (λ c. not (has c s.name_reverse)) ∙ taken) in
            let e = allocate-exhausted s r kind candidates rng now new found in
            (ap (λ x. x.0) e, ap (λ x. x.1) e),
      )

  -- The sessions that a session becomes by calls of its methods, in any order and from any number
  -- of requests.
  pub data Later (s : Session) : Session → Type 0 where
    same : Later s s
    touched : {s' : Session} (now ttl : ℕ) → Later s s' → Later s (touch_if_alive s' now ttl).1
    recorded :
        {s' : Session} (surrogate : Text) (kind : EntityType) (now : ℕ)
        → Later s s'
        → Later s (record_surrogate s' surrogate kind now)
    allocated :
        {s' : Session} (r : Text) (kind : EntityType) (candidates : List Text) (rng : Rng) (now : ℕ)
        → Later s s'
        → Later s (allocate_or_lookup_name random s' r kind candidates rng now).1

  -- What a call keeps, whichever way it ends.
  allocate-keeps :
      (P : Session → Type 0) (s : Session) (r : Text) (kind : EntityType) (candidates : List Text)
      (rng : Rng) (now : ℕ)
      → P s
      → ((c : Text)
          → get r s.name_forward ≡ none
          → get c s.name_reverse ≡ none
          → P (commit s r kind now c))
      → P (allocate_or_lookup_name random s r kind candidates rng now).1
  allocate-keeps P s r kind candidates rng now h step = elim (Option-cases (get r s.name_forward)) [
    | inr (c, e) ↦ rw (allocate-existing s r c kind candidates rng now e) h
    | inl new ↦ elim (Option-cases (first_free s.name_reverse (random.shuffle rng candidates).0)) [
      | inl found ↦ rw (allocate-exhausted s r kind candidates rng now new found) h
      | inr (c, found) ↦
          rw (allocate-new s r c kind candidates rng now new found)
            (step c new (first_free-get s.name_reverse _ c found))
    ]
  ]

  new_session-IsConsistent : (sid : Text) (created : ℕ) → IsConsistent (new_session sid created)
  unfolding new_session get has
  new_session-IsConsistent sid created = record {
    back = λ r c h. absurd (ground (arith, h));
    forth = λ r c h. absurd (ground (arith, h));
    known = λ r c h. absurd (ground (arith, h));
  }

  touch-keeps :
      (P : Session → Type 0) (s : Session) (now ttl : ℕ)
      → P s
      → P (record s { last_accessed_at = now })
      → P (touch_if_alive s now ttl).1
  unfolding touch_if_alive
  touch-keeps P s now ttl expired alive = elim (Bool-cases (ltb (s.last_accessed_at + ttl) now)) [
    | inl e ↦ rw (touch_if_alive, e) expired
    | inr e ↦ rw (touch_if_alive, e) alive
  ]

  pub Later-IsConsistent : {s s' : Session} → Later s s' → IsConsistent s → IsConsistent s'
  unfolding record_surrogate
  Later-IsConsistent same h = h
  Later-IsConsistent (touched {s' = s'} now ttl later) h =
      let h' = Later-IsConsistent later h in
      touch-keeps IsConsistent s' now ttl h'
        (record { back = h'.back; forth = h'.forth; known = h'.known })
  Later-IsConsistent (recorded {s' = s'} c kind now later) h =
      let h' = Later-IsConsistent later h in
      record {
        back = h'.back;
        forth = h'.forth;
        known = λ r c' e. has-put c' c _ s'.known_surrogates (h'.known r c' e);
      }
  Later-IsConsistent (allocated {s' = s'} r kind candidates rng now later) h =
      let h' = Later-IsConsistent later h in
      allocate-keeps IsConsistent s' r kind candidates rng now h'
        (λ c new free. commit-IsConsistent s' r c kind now h' new free)

  -- In every session that calls of its methods lead to from a new one, the two name maps are inverse
  -- to each other and every surrogate name is a known surrogate.
  pub reachable-IsConsistent :
      (sid : Text) (created : ℕ) (s : Session) → Later (new_session sid created) s → IsConsistent s
  reachable-IsConsistent sid created s later =
      Later-IsConsistent later (new_session-IsConsistent sid created)

  abbrev pub Assigned : Text → Text → Session → Type 0
  Assigned r c s = get r s.name_forward ≡ some c

  commit-Assigned :
      (s : Session) (r c r' c' : Text) (kind : EntityType) (now : ℕ)
      → Assigned r c s
      → get r' s.name_forward ≡ none
      → Assigned r c (commit s r' kind now c')
  unfolding commit
  commit-Assigned s r c r' c' kind now h new = elim (text_eq-cases r r') [
    | inl e ↦
        let bad : none ≡ some c = sym new ∙ ap (λ x. get x s.name_forward) (sym e) ∙ h in
        absurd (ground (arith, bad))
    | inr apart ↦ get-put_other r r' c' s.name_forward apart ∙ h
  ]

  -- No method takes an assignment back.
  Later-Assigned : {s s' : Session} (r c : Text) → Later s s' → Assigned r c s → Assigned r c s'
  unfolding record_surrogate
  Later-Assigned r c same h = h
  Later-Assigned r c (touched {s' = s'} now ttl later) h =
      let h' = Later-Assigned r c later h in touch-keeps (Assigned r c) s' now ttl h' h'
  Later-Assigned r c (recorded c' kind now later) h = Later-Assigned r c later h
  Later-Assigned r c (allocated {s' = s'} r' kind candidates rng now later) h =
      let h' = Later-Assigned r c later h in
      allocate-keeps (Assigned r c) s' r' kind candidates rng now h'
        (λ c' new free. commit-Assigned s' r c r' c' kind now h' new)

  pub allocate-Assigned :
      (s : Session) (r c : Text) (kind : EntityType) (candidates : List Text) (rng : Rng) (now : ℕ)
      → (allocate_or_lookup_name random s r kind candidates rng now).0 ≡ ok c
      → Assigned r c (allocate_or_lookup_name random s r kind candidates rng now).1
  unfolding commit
  allocate-Assigned s r c kind candidates rng now returned =
      elim (Option-cases (get r s.name_forward)) [
        | inr (c', e) ↦
            let call = allocate-existing s r c' kind candidates rng now e in
            let c'-c : ok c' ≡ ok c = sym (ap (λ x. x.0) call) ∙ returned in
            ap (λ x. get r x.1.name_forward) call ∙ e ∙ ap (λ x. some x) (ok-injective c'-c)
        | inl new ↦
            elim (Option-cases (first_free s.name_reverse (random.shuffle rng candidates).0)) [
              | inl found ↦
                  let call = allocate-exhausted s r kind candidates rng now new found in
                  let bad : raise name_list_exhausted_error ≡ ok c =
                    sym (ap (λ x. x.0) call) ∙ returned in
                  absurd (ground (arith, bad))
              | inr (c', found) ↦
                  let call = allocate-new s r c' kind candidates rng now new found in
                  let c'-c : ok c' ≡ ok c = sym (ap (λ x. x.0) call) ∙ returned in
                  ap (λ x. get r x.1.name_forward) call
                  ∙ get-put r c' s.name_forward
                  ∙ ap (λ x. some x) (ok-injective c'-c)
            ]
      ]

  -- Once a call has returned a surrogate for a value, every later call for the value, with whatever
  -- candidates and type, returns the same surrogate, changes nothing and draws no random number; and
  -- the surrogate is looked up as the value.
  pub allocate_or_lookup_name-stable :
      (s s' : Session) (r c : Text) (kind kind' : EntityType) (candidates candidates' : List Text)
      (rng rng' : Rng) (now now' : ℕ)
      → IsConsistent s
      → (allocate_or_lookup_name random s r kind candidates rng now).0 ≡ ok c
      → Later (allocate_or_lookup_name random s r kind candidates rng now).1 s'
      → (allocate_or_lookup_name random s' r kind' candidates' rng' now' ≡ (ok c, s', rng'))
        × (lookup_real_name s' c ≡ some r)
  unfolding lookup_real_name
  allocate_or_lookup_name-stable s s' r c kind kind' candidates candidates' rng rng' now now' h
        returned later =
      let assigned =
        Later-Assigned r c later (allocate-Assigned s r c kind candidates rng now returned) in
      let h' =
        Later-IsConsistent later
          (Later-IsConsistent (allocated r kind candidates rng now same) h) in
      (allocate-existing s' r c kind' candidates' rng' now' assigned, h'.back r c assigned)

  -- Two values that calls in one session, any calls apart, give the same surrogate are the same value.
  pub allocate_or_lookup_name-injective :
      (s s' : Session) (r r' c : Text) (kind kind' : EntityType)
      (candidates candidates' : List Text) (rng rng' : Rng) (now now' : ℕ)
      → IsConsistent s
      → (allocate_or_lookup_name random s r kind candidates rng now).0 ≡ ok c
      → Later (allocate_or_lookup_name random s r kind candidates rng now).1 s'
      → (allocate_or_lookup_name random s' r' kind' candidates' rng' now').0 ≡ ok c
      → r ≡ r'
  allocate_or_lookup_name-injective s s' r r' c kind kind' candidates candidates' rng rng' now now'
        h returned later returned' =
      let last = allocated r' kind' candidates' rng' now' later in
      let first =
        Later-Assigned r c last (allocate-Assigned s r c kind candidates rng now returned) in
      let second = allocate-Assigned s' r' c kind' candidates' rng' now' returned' in
      let h' =
        Later-IsConsistent last (Later-IsConsistent (allocated r kind candidates rng now same) h) in
      let e : some r ≡ some r' = sym (h'.back r c first) ∙ h'.back r' c second in cc

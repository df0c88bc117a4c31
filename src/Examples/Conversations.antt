-- ===== src/Examples/Conversations.antt =====
-- The theorems about sessions and detected spans at concrete inputs.
use local_first_llm_privacy.Common.{
  ℕ, ◌+◌, ◌≤◌, Bool, true, false, ◌&&◌, not, any, all, List, [], ◌∷◌, ◌++◌, length, none, some,
  Result, ok, raise, get, put, has, text_eq, name_list_exhausted_error, pos, ◌≡◌, refl, arith,
  any-append,
}
use local_first_llm_privacy.Common.Chars.{Text}
use local_first_llm_privacy.Common.Sorting.{is_sorted}
use local_first_llm_privacy.Sessions.{
  Session, person, org, new_session, Shuffler, allocate_or_lookup_name, commit, lookup_real_name,
  first_free,
}
use local_first_llm_privacy.Sessions.Names.{IsConsistent}
use local_first_llm_privacy.Sessions.Allocation.{
  IsShuffle, same, allocated, reachable-IsConsistent, allocate_or_lookup_name-fresh,
  allocate_or_lookup_name-stable, allocate_or_lookup_name-injective,
}
use local_first_llm_privacy.SessionStore.{SessionStore, new_store, settle, get_or_create}
use local_first_llm_privacy.SessionStore.Capacity.{start, settled, reachable-IsBounded}
use local_first_llm_privacy.Precedence.{Span, start_le, resolve, spans_overlap}
use local_first_llm_privacy.Precedence.Resolution.{
  is_disjoint, outranks, resolve-is_disjoint, resolve-covers,
}

-- A generator that counts its calls and moves the first candidate to the end.
rotate : List Text → List Text
rotate [] = []
rotate (c ∷ candidates) = candidates ++ (c ∷ [])

rotating : Shuffler ℕ
rotating = record { shuffle = λ rng candidates. (rotate candidates, rng + 1) }

any-rotate :
    (p : Text → Bool) (candidates : List Text) → any p (rotate candidates) ≡ any p candidates
unfolding rotate
any-rotate p [] = refl
any-rotate p (c ∷ candidates) = ground (arith, any-append p candidates (c ∷ []))

rotating-IsShuffle : IsShuffle rotating
unfolding rotating
rotating-IsShuffle rng candidates p = any-rotate p candidates

abbrev mia : Text
mia = b'm' ∷ b'i' ∷ b'a' ∷ []

abbrev tom : Text
tom = b't' ∷ b'o' ∷ b'm' ∷ []

abbrev ann : Text
ann = b'a' ∷ b'n' ∷ b'n' ∷ []

abbrev pool : List Text
pool = ann ∷ tom ∷ []

abbrev fresh_session : Session
unfolding new_session
fresh_session = new_session mia 5

fresh_session-IsConsistent : IsConsistent fresh_session
unfolding new_session fresh_session
fresh_session-IsConsistent = reachable-IsConsistent rotating mia 5 fresh_session same

-- The session after Mia was given a name.
abbrev first_call : Result Text × Session × ℕ
unfolding allocate_or_lookup_name first_free rotating rotate has get text_eq commit
first_call = allocate_or_lookup_name rotating fresh_session mia person pool 0 7

reachable-IsConsistent_example : IsConsistent first_call.1
unfolding allocate_or_lookup_name first_call new_session fresh_session
reachable-IsConsistent_example =
    reachable-IsConsistent rotating mia 5 first_call.1 (allocated mia person pool 0 7 same)

allocate_or_lookup_name-fresh_example :
    let called = allocate_or_lookup_name rotating fresh_session mia person pool 0 7 in
    (any (λ c. not (has c fresh_session.name_reverse)) pool ≡ true
      → (c : Text) × (called.0 ≡ ok c)
        × (called.1 ≡ commit fresh_session mia person 7 c)
        × (any (λ c'. text_eq c c') pool ≡ true)
        × (get c fresh_session.name_reverse ≡ none))
    × (any (λ c. not (has c fresh_session.name_reverse)) pool ≡ false
        → (called.0 ≡ raise name_list_exhausted_error) × (called.1 ≡ fresh_session))
unfolding new_session get
allocate_or_lookup_name-fresh_example =
    allocate_or_lookup_name-fresh rotating fresh_session mia person pool 0 7 rotating-IsShuffle refl

allocate_or_lookup_name-stable_example :
    (allocate_or_lookup_name rotating first_call.1 mia org (ann ∷ []) 3 9
      ≡ (ok tom, first_call.1, 3))
    × (lookup_real_name first_call.1 tom ≡ some mia)
unfolding first_call allocate_or_lookup_name first_free rotating rotate has get text_eq
    fresh_session
allocate_or_lookup_name-stable_example =
    allocate_or_lookup_name-stable rotating fresh_session first_call.1 mia tom person org pool
      (ann ∷ []) 0 3 7 9 fresh_session-IsConsistent refl same

allocate_or_lookup_name-injective_example : mia ≡ mia
unfolding first_call allocate_or_lookup_name first_free rotating rotate has get text_eq
    fresh_session put
allocate_or_lookup_name-injective_example =
    allocate_or_lookup_name-injective rotating fresh_session first_call.1 mia mia tom person org
      pool (ann ∷ []) 0 3 7 9 fresh_session-IsConsistent refl same refl

single_store : SessionStore
single_store = record { ttl = 10; max_sessions = 1; sessions = []; heap = [] }

crowded_store : SessionStore
unfolding settle single_store
crowded_store = (settle (settle single_store mia none 1).1 tom none 2).1

reachable-IsBounded_example :
    (length crowded_store.sessions ≤ crowded_store.max_sessions)
    × ((sid : Text) (now : ℕ)
        → length (get_or_create crowded_store sid now).1.sessions
          ≤ (get_or_create crowded_store sid now).1.max_sessions)
unfolding crowded_store new_store single_store
reachable-IsBounded_example =
    reachable-IsBounded 10 (pos 1) single_store crowded_store refl
      (settled tom none 2 (settled mia none 1 start))

span : ℕ → ℕ → ℕ → Span
span s e tier = record { start = s; end = e; entity_type = person; tier = tier }

overlapping : List (List Span)
overlapping = (span 4 9 1 ∷ []) ∷ (span 0 5 2 ∷ span 8 12 2 ∷ []) ∷ (span 20 22 2 ∷ []) ∷ []

resolve-is_disjoint_example :
    (is_disjoint (resolve overlapping) ≡ true) × (is_sorted start_le (resolve overlapping) ≡ true)
resolve-is_disjoint_example = resolve-is_disjoint overlapping

resolve-covers_example :
    all (all (λ s. any (λ k. spans_overlap s k && outranks k s) (resolve overlapping))) overlapping
    ≡ true
unfolding overlapping span
resolve-covers_example = resolve-covers overlapping refl

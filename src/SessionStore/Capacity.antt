-- ===== src/SessionStore/Capacity.antt =====
-- The bound on the number of sessions (src/session/store.py), under any interleaving of calls.
use local_first_llm_privacy.Common.{
  ℕ, zero, suc, ◌+◌, ◌≤◌, leb, true, List, [], ◌∷◌, length, drop, get_elem?, Option, none, some,
  get, put, has, remove, text_eq, Bool-cases, Option-cases, inl, inr, ◌≡◌, refl, ap, arith,
  length-append, length-drop, is_some, ok, ℤ, ok-injective, pos, negsuc,
}
use local_first_llm_privacy.Common.Chars.{Text}
use local_first_llm_privacy.SessionStore.{
  SessionStore, new_store, move_to_end, find, touch, is_other, make_room, settle, get_or_create,
}

length-remove :
    (k : Text) (v : ℕ) (d : List (Text × ℕ)) → get k d ≡ some v → length (remove k d) + 1 ≡ length d
unfolding get remove
length-remove k v [] h = absurd (ground (arith, h))
length-remove k v ((k', v') ∷ d) h = elim (Bool-cases (text_eq k k')) [
  | inl e ↦ rw e (omega arith)
  | inr e ↦ let h' : get k d ≡ some v = rw e at h in rw e (omega (arith, length-remove k v d h'))
]

length-move_to_end : (k : Text) (d : List (Text × ℕ)) → length (move_to_end k d) ≡ length d
unfolding move_to_end
length-move_to_end k d = elim (Option-cases (get k d)) [
  | inl e ↦ rw (move_to_end, e) refl
  | inr (v, e) ↦
      rw (move_to_end, e)
        (omega (arith, length-append (remove k d) ((k, v) ∷ []), length-remove k v d e))
]

length-put-old :
    (k : Text) (v : ℕ) (d : List (Text × ℕ)) → has k d ≡ true → length (put k v d) ≡ length d
unfolding put get has
length-put-old k v [] h = absurd (ground (arith, h))
length-put-old k v ((k', v') ∷ d) h = elim (Bool-cases (text_eq k k')) [
  | inl e ↦ rw e refl
  | inr e ↦ let h' : is_some (get k d) ≡ true = rw e at h in rw e (ap suc (length-put-old k v d h'))
]

length-put : (k : Text) (v : ℕ) (d : List (Text × ℕ)) → length (put k v d) ≤ length d + 1
unfolding put
length-put k v [] = omega arith
length-put k v ((k', v') ∷ d) = elim (Bool-cases (text_eq k k')) [
  | inl e ↦ rw e (omega arith)
  | inr e ↦ rw e (omega (arith, length-put k v d))
]

pub record IsBounded (st : SessionStore) : Type 0 where
  pub positive : 1 ≤ st.max_sessions
  pub bounded : length st.sessions ≤ st.max_sessions

-- What a full store drops makes the room that a new entry takes.
length-make_room :
    (st : SessionStore) (sid : Text) (fresh : ℕ)
    → IsBounded st
    → length (put sid fresh (make_room st sid)) ≤ st.max_sessions
unfolding make_room
length-make_room st sid fresh h =
    let b = h.bounded in
    let p = h.positive in
    elim (Bool-cases (has sid st.sessions)) [
      | inl old ↦ rw old (omega (arith, length-put-old sid fresh st.sessions old, b))
      | inr new ↦ elim (Bool-cases (leb st.max_sessions (length st.sessions))) [
        | inl full ↦
            rw (new, full)
              (omega
                (arith, length-put sid fresh (drop 1 st.sessions), length-drop 1 st.sessions, b, p))
        | inr roomy ↦
            let spare : length st.sessions + 1 ≤ st.max_sessions = ground arith in
            rw (new, roomy) (omega (arith, length-put sid fresh st.sessions, spare))
      ]
    ]

settle-IsBounded :
    (st : SessionStore) (sid : Text) (seen : Option ℕ) (now : ℕ)
    → IsBounded st
    → IsBounded (settle st sid seen now).1
unfolding settle
settle-IsBounded st sid seen now h =
    let b = h.bounded in
    elim (Bool-cases (is_other (get sid st.sessions) seen)) [
      | inl e ↦
          rw (settle, e)
            (record {
              positive = h.positive;
              bounded = omega (arith, length-move_to_end sid st.sessions, b);
            })
      | inr e ↦
          let fresh = length st.heap in
          rw (settle, e)
            (record {
              positive = h.positive;
              bounded = omega (
                arith,
                length-move_to_end sid (put sid fresh (make_room st sid)),
                length-make_room st sid fresh h,
              );
            })
    ]

-- The stores that a store becomes by the locked steps of any calls, in any order.
pub data Steps (st : SessionStore) : SessionStore → Type 0 where
  start : Steps st st
  found : {st' : SessionStore} (sid : Text) → Steps st st' → Steps st (find st' sid).1
  touched : {st' : SessionStore} (ref now : ℕ) → Steps st st' → Steps st (touch st' ref now).1
  settled :
      {st' : SessionStore} (sid : Text) (seen : Option ℕ) (now : ℕ)
      → Steps st st'
      → Steps st (settle st' sid seen now).1

touch-IsBounded : (st : SessionStore) (ref now : ℕ) → IsBounded st → IsBounded (touch st ref now).1
unfolding touch
touch-IsBounded st ref now h = elim (Option-cases (get_elem? st.heap ref)) [
  | inl e ↦ rw (touch, e) h
  | inr (s, e) ↦ rw (touch, e) (record { positive = h.positive; bounded = h.bounded })
]

find-IsBounded : (st : SessionStore) (sid : Text) → IsBounded st → IsBounded (find st sid).1
unfolding find
find-IsBounded st sid h =
    let b = h.bounded in
    record { positive = h.positive; bounded = omega (arith, length-move_to_end sid st.sessions, b) }

Steps-IsBounded : {st st' : SessionStore} → Steps st st' → IsBounded st → IsBounded st'
Steps-IsBounded start h = h
Steps-IsBounded (found {st' = st'} sid steps) h = find-IsBounded st' sid (Steps-IsBounded steps h)
Steps-IsBounded (touched {st' = st'} ref now steps) h =
    touch-IsBounded st' ref now (Steps-IsBounded steps h)
Steps-IsBounded (settled {st' = st'} sid seen now steps) h =
    settle-IsBounded st' sid seen now (Steps-IsBounded steps h)

new_store-IsBounded : (ttl : ℕ) (n : ℤ) (st : SessionStore) → new_store ttl n ≡ ok st → IsBounded st
unfolding new_store
new_store-IsBounded ttl (negsuc n) st h = absurd (ground (arith, h))
new_store-IsBounded ttl (pos zero) st h = absurd (ground (arith, h))
new_store-IsBounded ttl (pos (suc n)) st h =
    let e = ok-injective h in rw (← e) (record { positive = omega arith; bounded = omega arith })

-- A whole call is one, two or three of the steps.
get_or_create-Steps :
    {st st' : SessionStore} (sid : Text) (now : ℕ)
    → Steps st st'
    → Steps st (get_or_create st' sid now).1
unfolding get_or_create find
get_or_create-Steps {st} {st'} sid now steps =
    let after = found sid steps in
    elim (Option-cases (get sid st'.sessions)) [
      | inl e ↦ rw (get_or_create, e) (settled sid none now after)
      | inr (ref, e) ↦
          let later = touched ref now after in
          elim (Bool-cases (touch (find st' sid).1 ref now).0) [
            | inl alive ↦ rw (get_or_create, e, alive) later
            | inr expired ↦ rw (get_or_create, e, expired) (settled sid (some ref) now later)
          ]
    ]

-- A store never holds more than its maximum of sessions: not between any two locked steps of any
-- interleaving of calls, nor after a further whole call, once it was created.
pub reachable-IsBounded :
    (ttl : ℕ) (n : ℤ) (st st' : SessionStore)
    → new_store ttl n ≡ ok st
    → Steps st st'
    → (length st'.sessions ≤ st'.max_sessions)
      × ((sid : Text) (now : ℕ)
          → length (get_or_create st' sid now).1.sessions
            ≤ (get_or_create st' sid now).1.max_sessions)
reachable-IsBounded ttl n st st' created steps =
    let h = new_store-IsBounded ttl n st created in
    (
      (Steps-IsBounded steps h).bounded,
      λ sid now. (Steps-IsBounded (get_or_create-Steps sid now steps) h).bounded,
    )

-- ===== src/SessionStore.antt =====
-- The session registry (src/session/store.py). A `Session` object is a reference into a heap, so two
-- references can be to two sessions of one id. The store's lock makes each locked block one step; a
-- call of `get_or_create` is up to three steps, and the steps of several calls interleave.
pub mod Capacity
use local_first_llm_privacy.Common.{
  ℕ, zero, suc, ◌+◌, leb, ltb, ◌==◌, if◌then◌else◌, Bool, true, false, ◌&&◌, not, List, [], ◌∷◌,
  ◌++◌, length, drop, get_elem?, Option, none, some, get, put, has, remove, Result, ok, raise,
  value_error, ℤ, pos, negsuc,
}
use local_first_llm_privacy.Common.Chars.{Text}
use local_first_llm_privacy.Sessions.{Session, new_session, touch_if_alive}

abbrev pub default_max_sessions : ℕ
default_max_sessions = 10000

pub record SessionStore : Type 0 where
  pub ttl : ℕ
  pub max_sessions : ℕ
  -- An ordered dict, the least recently used entry first.
  pub sessions : List (Text × ℕ)
  pub heap : List Session

unfoldable pub new_store : ℕ → ℤ → Result SessionStore
new_store ttl (negsuc n) = raise value_error
new_store ttl (pos zero) = raise value_error
new_store ttl (pos (suc n)) =
    ok (record { ttl = ttl; max_sessions = suc n; sessions = []; heap = [] })

unfoldable pub move_to_end : Text → List (Text × ℕ) → List (Text × ℕ)
move_to_end sid sessions = elim (get sid sessions) [
  | none ↦ sessions
  | some ref ↦ remove sid sessions ++ (sid, ref) ∷ []
]

-- The object behind the reference is changed in place.
unfoldable pub set_elem : ℕ → Session → List Session → List Session
set_elem ref s [] = []
set_elem zero s (s' ∷ heap) = s ∷ heap
set_elem (suc ref) s (s' ∷ heap) = s' ∷ set_elem ref s heap

-- The first locked block.
unfoldable pub find : SessionStore → Text → Option ℕ × SessionStore
find st sid = (get sid st.sessions, record st { sessions = move_to_end sid st.sessions })

-- `session.touch_if_alive(now, self._ttl)`, under the session's own lock.
unfoldable pub touch : SessionStore → ℕ → ℕ → Bool × SessionStore
touch st ref now = elim (get_elem? st.heap ref) [
  | none ↦ (false, st)
  | some s ↦
      let (alive, s') : Bool × Session = touch_if_alive s now st.ttl in
      (alive, record st { heap = set_elem ref s' st.heap })
]

-- `current is not None and current is not session`.
unfoldable pub is_other : Option ℕ → Option ℕ → Bool
is_other none seen = false
is_other (some current) none = true
is_other (some current) (some ref) = not (current == ref)

abbrev pub ref_or : Option ℕ → ℕ → ℕ
ref_or none d = d
ref_or (some ref) d = ref

-- The entries, less the least recently used one where a new id finds the store full.
unfoldable pub make_room : SessionStore → Text → List (Text × ℕ)
make_room st sid =
    if not (has sid st.sessions) && leb st.max_sessions (length st.sessions)
    then drop 1 st.sessions
    else st.sessions

-- The second locked block.
unfoldable pub settle : SessionStore → Text → Option ℕ → ℕ → ℕ × SessionStore
settle st sid seen now =
    let fresh = length st.heap in
    if is_other (get sid st.sessions) seen
    then (ref_or (get sid st.sessions) fresh, record st { sessions = move_to_end sid st.sessions })
    else (
      fresh,
      record st {
        sessions = move_to_end sid (put sid fresh (make_room st sid));
        heap = st.heap ++ new_session sid now ∷ [];
      },
    )

unfoldable pub get_or_create : SessionStore → Text → ℕ → ℕ × SessionStore
get_or_create st sid now =
    let (seen, found) : Option ℕ × SessionStore = find st sid in
    elim seen [
      | none ↦ settle found sid none now
      | some ref ↦
          let (alive, touched) : Bool × SessionStore = touch found ref now in
          if alive then (ref, touched) else settle touched sid (some ref) now
    ]

-- ===== src/Sessions.antt =====
-- One conversation's state (src/session/session.py, src/session/known_surrogate.py). Every method
-- runs under the session's lock from its first line to its last, so a method is one step: it takes the
-- session and returns its result with the session as it left it. A time is a number of microseconds.
pub mod Allocation
pub mod Names
use local_first_llm_privacy.Common.{
  ℕ, ◌+◌, ltb, if◌then◌else◌, Bool, true, false, List, [], ◌∷◌, Option, none, some, Result, ok,
  raise, name_list_exhausted_error, get, put, has,
}
use local_first_llm_privacy.Common.Chars.{Text}

pub data EntityType : Type 0 where
  aadhaar : EntityType
  pan : EntityType
  ifsc : EntityType
  upi : EntityType
  vehicle_reg : EntityType
  card : EntityType
  email : EntityType
  phone : EntityType
  person : EntityType
  org : EntityType
  address : EntityType

pub record KnownSurrogate : Type 0 where
  pub entity_type : EntityType
  pub created_at : ℕ

pub record Session : Type 0 where
  pub session_id : Text
  pub last_accessed_at : ℕ
  pub known_surrogates : List (Text × KnownSurrogate)
  pub name_forward : List (Text × Text)
  pub name_reverse : List (Text × Text)

unfoldable pub new_session : Text → ℕ → Session
new_session sid created = record {
  session_id = sid;
  last_accessed_at = created;
  known_surrogates = [];
  name_forward = [];
  name_reverse = [];
}

-- `now - last_accessed_at > ttl`, with the summand moved to the other side.
unfoldable pub touch_if_alive : Session → ℕ → ℕ → Bool × Session
touch_if_alive s now ttl =
    if ltb (s.last_accessed_at + ttl) now
    then (false, s)
    else (true, record s { last_accessed_at = now })

unfoldable pub record_surrogate : Session → Text → EntityType → ℕ → Session
record_surrogate s surrogate kind now = record s {
  known_surrogates =
      put surrogate (record { entity_type = kind; created_at = now }) s.known_surrogates;
}

unfoldable pub lookup_surrogate : Session → Text → Option KnownSurrogate
lookup_surrogate s surrogate = get surrogate s.known_surrogates

unfoldable pub known_surrogate_snapshot : Session → List (Text × KnownSurrogate)
known_surrogate_snapshot s = s.known_surrogates

unfoldable pub lookup_real_name : Session → Text → Option Text
lookup_real_name s surrogate = get surrogate s.name_reverse

-- The loop over the shuffled candidates: the first one that no real value has.
unfoldable pub first_free : List (Text × Text) → List Text → Option Text
first_free taken [] = none
first_free taken (candidate ∷ candidates) =
    let rest = first_free taken candidates in if has candidate taken then rest else some candidate

-- The three writes of a new allocation.
unfoldable pub commit : Session → Text → EntityType → ℕ → Text → Session
commit s real_value kind now candidate = record s {
  name_forward = put real_value candidate s.name_forward;
  name_reverse = put candidate real_value s.name_reverse;
  known_surrogates =
      put candidate (record { entity_type = kind; created_at = now }) s.known_surrogates;
}

-- `random.Random` is a state and its `shuffle`.
pub record Shuffler (Rng : Type 0) : Type 0 where
  pub shuffle : Rng → List Text → List Text × Rng

module _ {Rng : Type 0} (random : Shuffler Rng) where
  unfoldable pub allocate_or_lookup_name :
      Session → Text → EntityType → List Text → Rng → ℕ → Result Text × Session × Rng
  allocate_or_lookup_name s real_value kind candidates rng now =
      elim (get real_value s.name_forward) [
        | some existing ↦ (ok existing, s, rng)
        | none ↦
            let (shuffled, rng') : List Text × Rng = random.shuffle rng candidates in
            elim (first_free s.name_reverse shuffled) [
              | some candidate ↦ (ok candidate, commit s real_value kind now candidate, rng')
              | none ↦ (raise name_list_exhausted_error, s, rng')
            ]
      ]

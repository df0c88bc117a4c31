-- ===== src/Common/Results.antt =====
-- Exceptions as values: the outcome of a fallible Python call, and its `do` notation.
-- The error kinds are those that the gateway's own modules raise (core/exceptions.py and the
-- builtin exceptions of the modelled code).
use mathlib.Core.Path.{◌≡◌, refl}
use mathlib.Core.Logic.{◌⊎◌, inl, inr}
use mathlib.Core.Bool.{Bool, true, false}
use mathlib.Core.Option.{Option, some, none}
use local_first_llm_privacy.Common.Tests.{if◌then◌else◌, Bool-cases}

pub data Error : Type 0 where
  value_error : Error
  json_decode_error : Error
  overflow_error : Error
  index_error : Error
  recursion_error : Error
  zero_division_error : Error
  key_error : Error
  runtime_error : Error
  surrogate_domain_error : Error
  name_list_exhausted_error : Error
  rehydration_error : Error
  detection_error : Error
  fail_closed_error : Error
  upstream_error : Error

pub data Result {ℓ} (A : Type ℓ) : Type ℓ where
  ok : A → Result A
  raise : Error → Result A

-- `raise` leaves the rest of the function out.
abbrev pub and_then {ℓ κ} : {A : Type ℓ} {B : Type κ} → (A → Result B) → Result A → Result B
and_then k (raise e) = raise e
and_then k (ok a) = k a

infixl 5 ◌>>=◌ ◌>>◌
abbrev pub ◌>>=◌ {ℓ κ} : {A : Type ℓ} {B : Type κ} → Result A → (A → Result B) → Result B
r >>= k = and_then k r

abbrev pub ◌>>◌ {ℓ} : {B : Type ℓ} → Result (Unit {0}) → Result B → Result B
check >> rest = check >>= λ _. rest

-- `if not b: raise e`.
abbrev pub ensure : Bool → Error → Result (Unit {0})
ensure true e = ok tt
ensure false e = raise e

-- `except json.JSONDecodeError`, which is one of the errors.
abbrev pub is_decode_error : Error → Bool
is_decode_error json_decode_error = true
is_decode_error _ = false

-- `except UpstreamError`.
abbrev pub is_upstream_error : Error → Bool
is_upstream_error upstream_error = true
is_upstream_error _ = false

-- A call under `try` with the first handler: nothing when it is entered, while any other error passes.
unfoldable pub caught {ℓ} : {A : Type ℓ} → Result A → Result (Option A)
caught (ok a) = ok (some a)
caught (raise e) = if is_decode_error e then ok none else raise e

pub caught-cases {ℓ} :
    {A : Type ℓ} (r : Result A)
    → ((a : A) × (r ≡ ok a) × (caught r ≡ ok (some a)))
      ⊎ ((caught r ≡ ok none)
          ⊎ ((e : Error) × (r ≡ raise e) × (is_decode_error e ≡ false) × (caught r ≡ raise e)))
unfolding caught
caught-cases (ok a) = inl (a, refl, refl)
caught-cases (raise e) = elim (Bool-cases (is_decode_error e)) [
  | inl d ↦ inr (inl (rw d refl))
  | inr d ↦ inr (inr (e, refl, d, rw d refl))
]

pub decoded-cases {ℓ} :
    {A : Type ℓ} (r : Result (Option A))
    → (r ≡ ok none) ⊎ (((a : A) × (r ≡ ok (some a))) ⊎ ((e : Error) × (r ≡ raise e)))
decoded-cases (ok none) = inl refl
decoded-cases (ok (some a)) = inr (inl (a, refl))
decoded-cases (raise e) = inr (inr (e, refl))

-- A call that returned had its first part return.
pub >>=-eq-ok {ℓ κ} :
    {A : Type ℓ} {B : Type κ} (r : Result A) (k : A → Result B) {b : B}
    → (r >>= k) ≡ ok b
    → (a : A) × (r ≡ ok a) × (k a ≡ ok b)
>>=-eq-ok (raise e) k returned = cc
>>=-eq-ok (ok a) k returned = (a, refl, returned)

pub Result-cases {ℓ} :
    {A : Type ℓ} (m : Result A) → ((a : A) × (m ≡ ok a)) ⊎ ((e : Error) × (m ≡ raise e))
Result-cases (ok a) = inl (a, refl)
Result-cases (raise e) = inr (e, refl)

pub ok-injective {ℓ} : {A : Type ℓ} {a b : A} → ok a ≡ ok b → a ≡ b
ok-injective h = cc

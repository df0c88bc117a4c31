-- ===== src/Domains/Positions.antt =====
-- Characters at fixed positions of a value (src/surrogate/domains/pan.py and ifsc.py): `value[i] for i in
-- positions`, and the list of one-character strings that is filled and joined.
use local_first_llm_privacy.Common.{
  ℕ, zero, suc, ◌+◌, ◌-◌, ◌<◌, leb, Bool, true, ◌&&◌, List, [], ◌∷◌, Result, ok, raise, ◌>>=◌,
  index_error, value_error, ◌≡◌, arith,
}
use local_first_llm_privacy.Common.Chars.{Text}

unfoldable pub char_at : Text → ℕ → Result ℕ
char_at [] i = raise index_error
char_at (c ∷ s) zero = ok c
char_at (c ∷ s) (suc i) = char_at s i

unfoldable pub chars_at : Text → List ℕ → Result (List ℕ)
chars_at value [] = ok []
chars_at value (i ∷ positions) =
    char_at value i >>= λ c. chars_at value positions >>= λ cs. ok (c ∷ cs)

-- `chars[i] = s`.
unfoldable pub set_at : List Text → ℕ → Text → Result (List Text)
set_at [] i s = raise index_error
set_at (t ∷ chars) zero s = ok (s ∷ chars)
set_at (t ∷ chars) (suc i) s = set_at chars i s >>= λ rest. ok (t ∷ rest)

-- The loop over `zip(positions, values, strict=True)`.
unfoldable pub place : List Text → List ℕ → List Text → Result (List Text)
place chars [] [] = ok chars
place chars (i ∷ positions) (s ∷ values) =
    set_at chars i s >>= λ chars'. place chars' positions values
place chars _ _ = raise value_error

-- `"A" <= c <= "Z"`.
abbrev pub is_upper : ℕ → Bool
is_upper c = leb b'A' c && leb c b'Z'

-- `chr(ord("A") + v)`.
abbrev pub letter : ℕ → Text
letter v = (b'A' + v) ∷ []

pub is_upper-letter : (v : ℕ) → v < 26 → is_upper (b'A' + v) ≡ true
is_upper-letter v h = ground arith

pub letter_value : (v : ℕ) → (b'A' + v) - b'A' ≡ v
letter_value v = omega arith

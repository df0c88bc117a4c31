-- ===== src/MixedRadix.antt =====
-- src/surrogate/mixed_radix.py: positional encoding with a radix for each position. `zip(strict=True)`
-- raises on lists of different lengths, `%` by zero raises. `decode` fills its list from the right.
pub mod Roundtrip
use local_first_llm_privacy.Common.{
  ℕ, ◌+◌, ◌*◌, ◌/◌, ◌%◌, List, [], ◌∷◌, reverse, ◌==◌, not, Result, ok, raise, ensure, value_error,
  zero_division_error, ◌>>=◌, ◌>>◌,
}

unfoldable pub encode_loop : ℕ → List ℕ → List ℕ → Result ℕ
encode_loop value [] [] = ok value
encode_loop value (symbol ∷ symbols) (radix ∷ radixes) =
    encode_loop (value * radix + symbol) symbols radixes
encode_loop value _ _ = raise value_error

unfoldable pub encode : List ℕ → List ℕ → Result ℕ
unfolding encode_loop
encode symbols radixes = encode_loop 0 symbols radixes

-- The radixes from the last to the first, and the symbols written so far.
unfoldable pub decode_loop : ℕ → List ℕ → List ℕ → Result (List ℕ)
decode_loop value [] symbols = ok symbols
decode_loop value (radix ∷ rest) symbols =
    ensure (not (radix == 0)) zero_division_error
    >> decode_loop (value / radix) rest ((value % radix) ∷ symbols)

unfoldable pub decode : ℕ → List ℕ → Result (List ℕ)
unfolding decode_loop
decode value radixes = decode_loop value (reverse radixes) []

unfoldable pub size_loop : ℕ → List ℕ → ℕ
size_loop size [] = size
size_loop size (radix ∷ radixes) = size_loop (size * radix) radixes

unfoldable pub domain_size : List ℕ → ℕ
unfolding size_loop
domain_size radixes = size_loop 1 radixes

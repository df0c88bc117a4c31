-- ===== src/Domains.antt =====
-- What the surrogate domains of src/surrogate/domains share: reading a text of digits and writing a
-- list of numbers, `[int(c) for c in s]` and `"".join(str(d) for d in ds)`.
pub mod Ascii
pub mod CheckDigit
pub mod Repair
pub mod Aadhaar
pub mod Card
pub mod Phone
pub mod Positions
pub mod Pan
pub mod Ifsc
use local_first_llm_privacy.Common.{List, [], ◌∷◌, ◌++◌, ℕ, Result, ok, ◌>>=◌}
use local_first_llm_privacy.Common.Chars.{Text, int_of_char, str}

unfoldable pub ints : Text → Result (List ℕ)
ints [] = ok []
ints (c ∷ s) = do d ← int_of_char c; ds ← ints s; ok (d ∷ ds)

unfoldable pub join_str : List ℕ → Text
join_str [] = []
join_str (d ∷ ds) = str d ++ join_str ds

-- The digits as a text, followed by their check digit.
unfoldable pub with_check_digit : (Text → Result Text) → List ℕ → Result Text
unfolding join_str
with_check_digit generate digits = do
  let payload_str = join_str digits
  check ← generate payload_str
  ok (payload_str ++ check)

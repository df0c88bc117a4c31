-- ===== src/Checksum.antt =====
-- src/detect/tier1/checksum.py: the Verhoeff check digit (Aadhaar) and the Luhn check digit
-- (payment cards), over the code points of a `str`. `enumerate(reversed(s))` is a recursion on the
-- reversed text with the counter `i`. A digit character that `int` refuses raises out of the loop.
pub mod Tables
pub mod Verhoeff
pub mod VerhoeffErrors
pub mod Luhn
pub mod LuhnErrors
use local_first_llm_privacy.Common.{
  ℕ, suc, ◌+◌, ◌-◌, ◌*◌, ◌%◌, List, [], ◌∷◌, reverse, Bool, true, false, ◌||◌, not, length, get_or,
  ltb, ◌==◌, if◌then◌else◌, Result, ok, raise, value_error, ◌>>=◌,
}
use local_first_llm_privacy.Common.Chars.{Text, is_digit, int_of_char, str}

-- `_VERHOEFF_D_TABLE`: the multiplication of the dihedral group D5.
abbrev pub verhoeff_d_table : List (List ℕ)
verhoeff_d_table =
    (0 ∷ 1 ∷ 2 ∷ 3 ∷ 4 ∷ 5 ∷ 6 ∷ 7 ∷ 8 ∷ 9 ∷ [])
    ∷ (1 ∷ 2 ∷ 3 ∷ 4 ∷ 0 ∷ 6 ∷ 7 ∷ 8 ∷ 9 ∷ 5 ∷ [])
    ∷ (2 ∷ 3 ∷ 4 ∷ 0 ∷ 1 ∷ 7 ∷ 8 ∷ 9 ∷ 5 ∷ 6 ∷ [])
    ∷ (3 ∷ 4 ∷ 0 ∷ 1 ∷ 2 ∷ 8 ∷ 9 ∷ 5 ∷ 6 ∷ 7 ∷ [])
    ∷ (4 ∷ 0 ∷ 1 ∷ 2 ∷ 3 ∷ 9 ∷ 5 ∷ 6 ∷ 7 ∷ 8 ∷ [])
    ∷ (5 ∷ 9 ∷ 8 ∷ 7 ∷ 6 ∷ 0 ∷ 4 ∷ 3 ∷ 2 ∷ 1 ∷ [])
    ∷ (6 ∷ 5 ∷ 9 ∷ 8 ∷ 7 ∷ 1 ∷ 0 ∷ 4 ∷ 3 ∷ 2 ∷ [])
    ∷ (7 ∷ 6 ∷ 5 ∷ 9 ∷ 8 ∷ 2 ∷ 1 ∷ 0 ∷ 4 ∷ 3 ∷ [])
    ∷ (8 ∷ 7 ∷ 6 ∷ 5 ∷ 9 ∷ 3 ∷ 2 ∷ 1 ∷ 0 ∷ 4 ∷ [])
    ∷ (9 ∷ 8 ∷ 7 ∷ 6 ∷ 5 ∷ 4 ∷ 3 ∷ 2 ∷ 1 ∷ 0 ∷ [])
    ∷ []

-- `_VERHOEFF_P_TABLE`: the digit permutation of each position modulo 8.
abbrev pub verhoeff_p_table : List (List ℕ)
verhoeff_p_table =
    (0 ∷ 1 ∷ 2 ∷ 3 ∷ 4 ∷ 5 ∷ 6 ∷ 7 ∷ 8 ∷ 9 ∷ [])
    ∷ (1 ∷ 5 ∷ 7 ∷ 6 ∷ 2 ∷ 8 ∷ 3 ∷ 0 ∷ 9 ∷ 4 ∷ [])
    ∷ (5 ∷ 8 ∷ 0 ∷ 3 ∷ 7 ∷ 9 ∷ 6 ∷ 1 ∷ 4 ∷ 2 ∷ [])
    ∷ (8 ∷ 9 ∷ 1 ∷ 6 ∷ 0 ∷ 4 ∷ 3 ∷ 5 ∷ 2 ∷ 7 ∷ [])
    ∷ (9 ∷ 4 ∷ 5 ∷ 3 ∷ 1 ∷ 2 ∷ 6 ∷ 8 ∷ 7 ∷ 0 ∷ [])
    ∷ (4 ∷ 2 ∷ 8 ∷ 6 ∷ 5 ∷ 7 ∷ 3 ∷ 9 ∷ 0 ∷ 1 ∷ [])
    ∷ (2 ∷ 7 ∷ 9 ∷ 3 ∷ 8 ∷ 0 ∷ 6 ∷ 4 ∷ 1 ∷ 5 ∷ [])
    ∷ (7 ∷ 0 ∷ 4 ∷ 6 ∷ 9 ∷ 1 ∷ 3 ∷ 2 ∷ 5 ∷ 8 ∷ [])
    ∷ []

-- `_VERHOEFF_INV_TABLE`.
abbrev pub verhoeff_inv_table : List ℕ
verhoeff_inv_table = 0 ∷ 4 ∷ 3 ∷ 2 ∷ 1 ∷ 5 ∷ 6 ∷ 7 ∷ 8 ∷ 9 ∷ []

-- `table[i][j]`; every index that the loops use is in range.
unfoldable pub d_at : ℕ → ℕ → ℕ
d_at i j = get_or (get_or verhoeff_d_table i []) j 0

unfoldable pub p_at : ℕ → ℕ → ℕ
p_at i j = get_or (get_or verhoeff_p_table i []) j 0

unfoldable pub inv_at : ℕ → ℕ
inv_at i = get_or verhoeff_inv_table i 0

-- The loop of `_verhoeff_checksum` (offset 0) and of `verhoeff_generate_check_digit` (offset 1).
unfoldable pub verhoeff_loop : ℕ → ℕ → ℕ → Text → Result ℕ
verhoeff_loop offset i checksum [] = ok checksum
verhoeff_loop offset i checksum (char ∷ rest) = int_of_char char >>= λ digit.
    verhoeff_loop offset (suc i) (d_at checksum (p_at ((i + offset) % 8) digit)) rest

unfoldable pub verhoeff_checksum : Text → Result ℕ
unfolding verhoeff_loop
verhoeff_checksum digits = verhoeff_loop 0 0 0 (reverse digits)

unfoldable pub verhoeff_is_valid : Text → Result Bool
unfolding verhoeff_checksum
verhoeff_is_valid number =
    if not (is_digit number)
    then ok false
    else (verhoeff_checksum number >>= λ checksum. ok (checksum == 0))

unfoldable pub verhoeff_generate_check_digit : Text → Result Text
unfolding verhoeff_loop
verhoeff_generate_check_digit payload =
    if not (is_digit payload)
    then raise value_error
    else (verhoeff_loop 1 0 0 (reverse payload) >>= λ checksum. ok (str (inv_at checksum)))

-- `if i % 2 == parity: digit *= 2; if digit > 9: digit -= 9`.
unfoldable pub luhn_weight : ℕ → ℕ → ℕ → ℕ
luhn_weight parity i digit =
    if i % 2 == parity then (if ltb 9 (digit * 2) then digit * 2 - 9 else digit * 2) else digit

-- The loop of `luhn_is_valid` (parity 1) and of `luhn_generate_check_digit` (parity 0).
unfoldable pub luhn_loop : ℕ → ℕ → ℕ → Text → Result ℕ
luhn_loop parity i total [] = ok total
luhn_loop parity i total (char ∷ rest) =
    int_of_char char >>= λ digit. luhn_loop parity (suc i) (total + luhn_weight parity i digit) rest

unfoldable pub luhn_is_valid : Text → Result Bool
unfolding luhn_loop
luhn_is_valid number =
    if not (is_digit number) || ltb (length number) 2
    then ok false
    else (luhn_loop 1 0 0 (reverse number) >>= λ total. ok (total % 10 == 0))

unfoldable pub luhn_generate_check_digit : Text → Result Text
unfolding luhn_loop
luhn_generate_check_digit payload =
    if not (is_digit payload)
    then raise value_error
    else (luhn_loop 0 0 0 (reverse payload) >>= λ total. ok (str ((10 - total % 10) % 10)))

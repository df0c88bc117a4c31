-- ===== src/Common/Chars.antt =====
-- Python's `str` as a list of code points, with the parts of the standard library that the
-- gateway uses on it: `str.isdigit`, `int` of one character, `str` of a number.
use Prim.Native.Nat.{ℕ, zero, suc, ◌+◌, ◌-◌, ◌/◌, ◌%◌, ◌<◌}
use mathlib.Core.Path.{◌≡◌, refl, ap, ◌∙◌}
use mathlib.Core.Logic.{inl, inr}
use mathlib.Core.Bool.{Bool, true, false, ◌&&◌, ◌||◌, not}
use mathlib.Core.List.{List, [], ◌∷◌, ◌++◌, reverse, reverse-cons}
use mathlib.Core.Option.{Option, none, some}
use native.Mathlib.Omega.{arith}
use local_first_llm_privacy.Common.Tests.{ltb, leb, if◌then◌else◌, Option-cases}
use local_first_llm_privacy.Common.Lists.{is_nil, all, all-append, append-eq-nil}
use local_first_llm_privacy.Common.Results.{Result, ok, raise, value_error}

abbrev pub Text : Type 0
Text = List ℕ

-- The first code point of each run of ten decimal digits (general category Nd) of Unicode 14, the version of Python 3.11.
abbrev decimal_starts : List ℕ
decimal_starts =
    0x30 ∷ 0x660 ∷ 0x6f0 ∷ 0x7c0 ∷ 0x966 ∷ 0x9e6 ∷ 0xa66 ∷ 0xae6 ∷ 0xb66 ∷ 0xbe6 ∷ 0xc66 ∷ 0xce6
    ∷ 0xd66 ∷ 0xde6 ∷ 0xe50 ∷ 0xed0 ∷ 0xf20 ∷ 0x1040 ∷ 0x1090 ∷ 0x17e0 ∷ 0x1810 ∷ 0x1946 ∷ 0x19d0
    ∷ 0x1a80 ∷ 0x1a90 ∷ 0x1b50 ∷ 0x1bb0 ∷ 0x1c40 ∷ 0x1c50 ∷ 0xa620 ∷ 0xa8d0 ∷ 0xa900 ∷ 0xa9d0
    ∷ 0xa9f0 ∷ 0xaa50 ∷ 0xabf0 ∷ 0xff10 ∷ 0x104a0 ∷ 0x10d30 ∷ 0x11066 ∷ 0x110f0 ∷ 0x11136 ∷ 0x111d0
    ∷ 0x112f0 ∷ 0x11450 ∷ 0x114d0 ∷ 0x11650 ∷ 0x116c0 ∷ 0x11730 ∷ 0x118e0 ∷ 0x11950 ∷ 0x11c50
    ∷ 0x11d50 ∷ 0x11da0 ∷ 0x16a60 ∷ 0x16ac0 ∷ 0x16b50 ∷ 0x1d7ce ∷ 0x1d7d8 ∷ 0x1d7e2 ∷ 0x1d7ec
    ∷ 0x1d7f6 ∷ 0x1e140 ∷ 0x1e2f0 ∷ 0x1e950 ∷ 0x1fbf0 ∷ []

-- The other characters of `Numeric_Type=Digit`: superscripts, subscripts, circled digits and the
-- like. `str.isdigit` accepts them and `int` refuses them.
abbrev digit_ranges : List (ℕ × ℕ)
digit_ranges =
    (0xb2, 0xb4)
    ∷ (0xb9, 0xba)
    ∷ (0x1369, 0x1372)
    ∷ (0x19da, 0x19db)
    ∷ (0x2070, 0x2071)
    ∷ (0x2074, 0x207a)
    ∷ (0x2080, 0x208a)
    ∷ (0x2460, 0x2469)
    ∷ (0x2474, 0x247d)
    ∷ (0x2488, 0x2491)
    ∷ (0x24ea, 0x24eb)
    ∷ (0x24f5, 0x24fe)
    ∷ (0x24ff, 0x2500)
    ∷ (0x2776, 0x277f)
    ∷ (0x2780, 0x2789)
    ∷ (0x278a, 0x2793)
    ∷ (0x10a40, 0x10a44)
    ∷ (0x10e60, 0x10e69)
    ∷ (0x11052, 0x1105b)
    ∷ (0x1f100, 0x1f10b)
    ∷ []

find_decimal : List ℕ → ℕ → Option ℕ
find_decimal [] c = none
find_decimal (s ∷ rest) c = if leb s c && ltb c (s + 10) then some (c - s) else find_decimal rest c

in_ranges : List (ℕ × ℕ) → ℕ → Bool
in_ranges [] c = false
in_ranges ((lo, hi) ∷ rest) c = (leb lo c && ltb c hi) || in_ranges rest c

-- The value of a decimal digit of any script.
unfoldable pub decimal_value : ℕ → Option ℕ
unfolding find_decimal
decimal_value c = find_decimal decimal_starts c

-- `int(c)` of a text of one character.
unfoldable pub int_of_char : ℕ → Result ℕ
int_of_char c = elim (decimal_value c) [ none ↦ raise value_error | some d ↦ ok d ]

-- `c.isdigit()` of a text of one character.
unfoldable pub is_digit_char : ℕ → Bool
unfolding in_ranges
is_digit_char c = elim (decimal_value c) [ none ↦ in_ranges digit_ranges c | some d ↦ true ]

-- `s.isdigit()`: every character is a digit, and there is one.
unfoldable pub is_digit : Text → Bool
is_digit s = not (is_nil s) && all is_digit_char s

-- The characters that `int` reads, and `s.isdecimal()`: there is one, and all are such.
unfoldable pub is_decimal_char : ℕ → Bool
is_decimal_char c = elim (decimal_value c) [ none ↦ false | some d ↦ true ]

unfoldable pub is_decimal : Text → Bool
is_decimal s = not (is_nil s) && all is_decimal_char s

-- `str(n)`, with the number itself as fuel: it has at most that many digits.
str_fuel : ℕ → ℕ → Text
str_fuel zero n = (b'0' + n % 10) ∷ []
str_fuel (suc f) n =
    let rest = str_fuel f (n / 10) ++ (b'0' + n % 10) ∷ [] in
    if ltb n 10 then (b'0' + n) ∷ [] else rest

unfoldable pub str : ℕ → Text
unfolding str_fuel
str n = str_fuel n n

find_decimal-lt : (l : List ℕ) (c d : ℕ) → find_decimal l c ≡ some d → d < 10
unfolding find_decimal
find_decimal-lt [] c d h = ground arith
find_decimal-lt (s ∷ rest) c d h = ground (arith, find_decimal-lt rest c d)

pub decimal_value-lt : (c d : ℕ) → decimal_value c ≡ some d → d < 10
unfolding decimal_value
decimal_value-lt c d h = find_decimal-lt decimal_starts c d h

-- The ASCII digits come first.
pub decimal_value-ascii : (d : ℕ) → d < 10 → decimal_value (b'0' + d) ≡ some d
unfolding decimal_value
decimal_value-ascii d h = ground arith

pub int_of_char-lt : (c d : ℕ) → int_of_char c ≡ ok d → d < 10
unfolding int_of_char
int_of_char-lt c d h = ground (arith, decimal_value-lt c d)

pub int_of_char-ascii : (d : ℕ) → d < 10 → int_of_char (b'0' + d) ≡ ok d
unfolding int_of_char
int_of_char-ascii d h = rw (decimal_value-ascii d h, int_of_char)

pub is_digit_char-ascii : (d : ℕ) → d < 10 → is_digit_char (b'0' + d) ≡ true
unfolding is_digit_char
is_digit_char-ascii d h = rw (decimal_value-ascii d h, is_digit_char)

-- A character that lies beside every run is in none.
find_decimal-none :
    (starts : List ℕ) (c : ℕ)
    → leb b'A' c ≡ true
    → leb c b'Z' ≡ true
    → all (λ s. leb (s + 10) b'A' || ltb b'Z' s) starts ≡ true
    → find_decimal starts c ≡ none
unfolding find_decimal
find_decimal-none [] c low high h = refl
find_decimal-none (s ∷ starts) c low high h =
    let beside : (leb s c && ltb c (s + 10)) ≡ false = ground (arith, h, low, high) in
    rw (find_decimal, beside) (find_decimal-none starts c low high (ground (arith, h)))

in_ranges-false :
    (ranges : List (ℕ × ℕ)) (c : ℕ)
    → leb c b'Z' ≡ true
    → all (λ r. ltb b'Z' r.0) ranges ≡ true
    → in_ranges ranges c ≡ false
unfolding in_ranges
in_ranges-false [] c high h = refl
in_ranges-false ((lo, hi) ∷ ranges) c high h =
    let beside : (leb lo c && ltb c hi) ≡ false = ground (arith, h, high) in
    let rest = in_ranges-false ranges c high (ground (arith, h)) in ground (arith, beside, rest)

-- No capital letter is a digit.
pub is_digit_char-upper : (d : ℕ) → d < 26 → is_digit_char (b'A' + d) ≡ false
unfolding is_digit_char decimal_value
is_digit_char-upper d h =
    let low : leb b'A' (b'A' + d) ≡ true = ground arith in
    let high : leb (b'A' + d) b'Z' ≡ true = ground arith in
    let outside = find_decimal-none decimal_starts (b'A' + d) low high refl in
    rw (is_digit_char, decimal_value, outside) (in_ranges-false digit_ranges (b'A' + d) high refl)

pub is_digit_char-of_decimal : (c d : ℕ) → decimal_value c ≡ some d → is_digit_char c ≡ true
unfolding is_digit_char
is_digit_char-of_decimal c d h = rw (h, is_digit_char)

pub str-digit : (d : ℕ) → d < 10 → str d ≡ (b'0' + d) ∷ []
unfolding str
str-digit zero h = refl
str-digit (suc d) h = ground arith

pub is_digit-append :
    (s t : Text) → is_digit s ≡ true → all is_digit_char t ≡ true → is_digit (s ++ t) ≡ true
unfolding is_digit
is_digit-append [] t hs ht = cc
is_digit-append (c ∷ s) t hs ht = ground (arith, all-append is_digit_char s t)

pub int_of_char-is_decimal_char :
    (c : ℕ) → is_decimal_char c ≡ true → (d : ℕ) × (int_of_char c ≡ ok d)
unfolding int_of_char is_decimal_char
int_of_char-is_decimal_char c h = elim (Option-cases (decimal_value c)) [
  | inl e ↦ absurd (ground arith)
  | inr (d, e) ↦ (d, rw (e, int_of_char))
]

pub int_of_char-not-is_decimal_char :
    (c : ℕ) → is_decimal_char c ≡ false → int_of_char c ≡ raise value_error
unfolding int_of_char is_decimal_char
int_of_char-not-is_decimal_char c h = ground arith

pub is_digit_char-is_decimal_char : (c : ℕ) → is_decimal_char c ≡ true → is_digit_char c ≡ true
unfolding is_digit_char is_decimal_char
is_digit_char-is_decimal_char c h = ground arith

pub all-is_digit_char : (s : Text) → all is_decimal_char s ≡ true → all is_digit_char s ≡ true
all-is_digit_char [] h = refl
all-is_digit_char (c ∷ s) h = ground (arith, all-is_digit_char s, is_digit_char-is_decimal_char c)

pub is_digit-is_decimal : (s : Text) → is_decimal s ≡ true → is_digit s ≡ true
unfolding is_digit is_decimal
is_digit-is_decimal s h = ground (arith, all-is_digit_char s)

pub is_decimal_char-ascii : (d : ℕ) → d < 10 → is_decimal_char (b'0' + d) ≡ true
unfolding is_decimal_char
is_decimal_char-ascii d h = rw (decimal_value-ascii d h, is_decimal_char)

pub all-reverse {ℓ} : {A : Type ℓ} (p : A → Bool) (s : List A) → all p (reverse s) ≡ all p s
all-reverse p [] = refl
all-reverse p (c ∷ s) =
    ap (all p) (reverse-cons c s)
    ∙ ground (arith, all-append p (reverse s) (c ∷ []), all-reverse p s)

pub is_digit_char-of_int : (c : ℕ) {d : ℕ} → int_of_char c ≡ ok d → is_digit_char c ≡ true
unfolding int_of_char is_digit_char
is_digit_char-of_int c h = ground arith

pub is_digit-substitution :
    (pre post : Text) (a b : ℕ)
    → is_digit_char a ≡ true
    → is_digit_char b ≡ true
    → is_digit (pre ++ a ∷ post) ≡ is_digit (pre ++ b ∷ post)
unfolding is_digit
is_digit-substitution pre post a b ha hb = rw (
  append-eq-nil pre a post,
  append-eq-nil pre b post,
  all-append is_digit_char pre (a ∷ post),
  all-append is_digit_char pre (b ∷ post),
  ha,
  hb,
)

pub is_digit-transposition :
    (pre post : Text) (a b : ℕ) → is_digit (pre ++ a ∷ b ∷ post) ≡ is_digit (pre ++ b ∷ a ∷ post)
unfolding is_digit
is_digit-transposition pre post a b = ground (
  arith,
  append-eq-nil pre a (b ∷ post),
  append-eq-nil pre b (a ∷ post),
  all-append is_digit_char pre (a ∷ b ∷ post),
  all-append is_digit_char pre (b ∷ a ∷ post),
)

-- ===== src/Domains/Ascii.antt =====
-- Texts of ASCII digits and lists of numbers below 10 stand for one another.
use local_first_llm_privacy.Common.{
  ℕ, suc, ◌+◌, ◌-◌, ◌<◌, ◌≡◌, refl, ap, ◌∙◌, sym, List, [], ◌∷◌, Bool, true, ◌&&◌, arith, ok,
  length, all, leb,
}
use local_first_llm_privacy.Common.Chars.{
  Text, int_of_char, int_of_char-ascii, str-digit, is_decimal, is_decimal_char,
  is_decimal_char-ascii,
}
use local_first_llm_privacy.Ff1.Digits.{Below}
use local_first_llm_privacy.Domains.{ints, join_str}

abbrev pub is_ascii_digit : ℕ → Bool
is_ascii_digit c = leb b'0' c && leb c b'9'

pub ascii_char : (c : ℕ) → is_ascii_digit c ≡ true → (c ≡ b'0' + (c - b'0')) × (c - b'0' < 10)
ascii_char c h = ground arith

-- A text of ASCII digits is read as digits below 10, and writing them gives the text back.
pub ints-ascii :
    (s : Text)
    → all is_ascii_digit s ≡ true
    → (ds : List ℕ) × (ints s ≡ ok ds) × (length ds ≡ length s) × Below 10 ds × (join_str ds ≡ s)
unfolding ints join_str
ints-ascii [] h = ([], refl, refl, tt, refl)
ints-ascii (c ∷ s) h =
    let (e, low) = ascii_char c (ground arith) in
    let (ds, read, len, below, back) = ints-ascii s (ground arith) in
    let d = c - b'0' in
    let int : int_of_char c ≡ ok d = ap int_of_char e ∙ int_of_char-ascii d low in
    (
      d ∷ ds,
      rw (int, read),
      ap suc len,
      (low, below),
      rw (str-digit d low, back) (ap (λ x. x ∷ s) (sym e)),
    )

-- Digits below 10 are written as so many ASCII digits, and reading them gives the list back.
pub join_str-ascii :
    (ds : List ℕ)
    → Below 10 ds
    → (all is_ascii_digit (join_str ds) ≡ true)
      × (length (join_str ds) ≡ length ds)
      × (ints (join_str ds) ≡ ok ds)
unfolding ints join_str
join_str-ascii [] h = (refl, refl, refl)
join_str-ascii (d ∷ ds) h =
    let (ascii, len, read) = join_str-ascii ds h.1 in
    let digit : is_ascii_digit (b'0' + d) ≡ true = ascii_digit d h.0 in
    rw (str-digit d h.0) (ground arith, ap suc len, rw (int_of_char-ascii d h.0, read))
  where
    ascii_digit : (d : ℕ) → d < 10 → is_ascii_digit (b'0' + d) ≡ true
    ascii_digit d h = ground arith

pub all-is_decimal_char : (s : Text) → all is_ascii_digit s ≡ true → all is_decimal_char s ≡ true
all-is_decimal_char [] h = refl
all-is_decimal_char (c ∷ s) h =
    let (e, low) = ascii_char c (ground arith) in
    let decimal : is_decimal_char c ≡ true =
      ap is_decimal_char e ∙ is_decimal_char-ascii (c - b'0') low in
    ground (arith, all-is_decimal_char s)

pub is_decimal-ascii : (s : Text) → 0 < length s → all is_ascii_digit s ≡ true → is_decimal s ≡ true
unfolding is_decimal
is_decimal-ascii [] long h = absurd (omega arith)
is_decimal-ascii (c ∷ s) long h = ground (arith, all-is_decimal_char (c ∷ s) h)

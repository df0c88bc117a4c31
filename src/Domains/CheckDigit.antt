-- ===== src/Domains/CheckDigit.antt =====
-- The check digit that makes a payload valid is the generated one and no other, for both schemes.
use native.Mathlib.Decide.{ℕ_discrete}
use local_first_llm_privacy.Common.{
  ℕ, zero, suc, ◌+◌, ◌<◌, Bool, ◌≡◌, ◌≢◌, ◌↔◌, refl, ap, ◌∙◌, sym, List, [], ◌∷◌, ◌++◌, true, false,
  ok, Result, length, take, arith,
}
use local_first_llm_privacy.Common.Chars.{Text, is_decimal, int_of_char, int_of_char-ascii}
use local_first_llm_privacy.Checksum.{
  verhoeff_is_valid, verhoeff_generate_check_digit, luhn_is_valid, luhn_generate_check_digit,
}
use local_first_llm_privacy.Checksum.Verhoeff.{verhoeff_is_valid-generate_check_digit}
use local_first_llm_privacy.Checksum.VerhoeffErrors.{verhoeff_is_valid-substitution}
use local_first_llm_privacy.Checksum.Luhn.{luhn_is_valid-generate_check_digit}
use local_first_llm_privacy.Checksum.LuhnErrors.{luhn_is_valid-substitution}

pub take-append-last {ℓ} :
    {A : Type ℓ} (n : ℕ) (xs : List A)
    → length xs ≡ suc n
    → (x : A) × (xs ≡ take n xs ++ x ∷ []) × (length (take n xs) ≡ n)
take-append-last zero (x ∷ []) h = (x, refl, refl)
take-append-last (suc n) (x ∷ y ∷ xs) h =
    let (z, e, len) = take-append-last n (y ∷ xs) (omega arith) in (z, ap (◌∷◌ x) e, ap suc len)
take-append-last n xs h = absurd (omega arith)

-- A check digit scheme: what its two functions promise of each other.
pub record IsScheme (is_valid : Text → Result Bool) (generate : Text → Result Text) : Type 0 where
  pub generated :
      (payload : Text)
      → is_decimal payload ≡ true
      → (k : ℕ) × (k < 10)
        × (generate payload ≡ ok ((b'0' + k) ∷ []))
        × (is_valid (payload ++ (b'0' + k) ∷ []) ≡ ok true)
  pub detects :
      (pre post : Text) (a b x y : ℕ)
      → int_of_char a ≡ ok x
      → int_of_char b ≡ ok y
      → x ≢ y
      → is_valid (pre ++ a ∷ post) ≡ ok true
      → is_valid (pre ++ b ∷ post) ≡ ok false

pub verhoeff-IsScheme : IsScheme verhoeff_is_valid verhoeff_generate_check_digit
verhoeff-IsScheme = record {
  generated = verhoeff_is_valid-generate_check_digit;
  detects = λ pre post a b x y. verhoeff_is_valid-substitution pre post a b;
}

pub luhn-IsScheme : IsScheme luhn_is_valid luhn_generate_check_digit
luhn-IsScheme = record {
  generated = luhn_is_valid-generate_check_digit;
  detects = λ pre post a b x y. luhn_is_valid-substitution pre post a b;
}

module _ {is_valid : Text → Result Bool} {generate : Text → Result Text}
    (s : IsScheme is_valid generate) where
  -- An ASCII digit behind a payload validates exactly if it is the generated one.
  pub check_digit_unique :
      (payload : Text) (k d : ℕ)
      → k < 10
      → d < 10
      → is_valid (payload ++ (b'0' + k) ∷ []) ≡ ok true
      → (is_valid (payload ++ (b'0' + d) ∷ []) ≡ ok true) ↔ (k ≡ d)
  check_digit_unique payload k d hk hd valid = elim (ℕ_discrete k d) [
    | yes e ↦ (λ _. e, λ _. rw e at valid)
    | no differ ↦
        let rejected =
          s.detects payload [] (b'0' + k) (b'0' + d) k d (int_of_char-ascii k hk)
            (int_of_char-ascii d hd) differ valid in
        (λ v. absurd (true-ne-false (sym v ∙ rejected)), λ e. absurd (differ e))
  ]
    where
      true-ne-false : ok true ≡ ok false → ⊥
      true-ne-false h = cc

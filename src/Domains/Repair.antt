-- ===== src/Domains/Repair.antt =====
-- FF1 on the payload and a check digit repaired on each side: what holds for Aadhaar and for cards.
use local_first_llm_privacy.Common.{
  ℕ, suc, ◌+◌, ◌-◌, ◌/◌, ◌≤◌, ◌<◌, ◌≡◌, ◌↔◌, ap, ◌∙◌, sym, List, [], ◌∷◌, ◌++◌, Bool, true, ok,
  Result, length, length-append, take, take-append, all, all-append, all-take, length-take, subst,
  arith, ok-injective,
}
use local_first_llm_privacy.Common.Chars.{Text, is_decimal}
use local_first_llm_privacy.Common.Bytes.{Bytes}
use local_first_llm_privacy.Crypto.{Crypto, IsCipher, HasBitLengths}
use local_first_llm_privacy.Ff1.{ff1_encrypt, ff1_decrypt}
use local_first_llm_privacy.Ff1.Digits.{Below}
use local_first_llm_privacy.Ff1.Roundtrip.{IsAccepted, ff1_decrypt-ff1_encrypt}
use local_first_llm_privacy.Domains.{ints, join_str, with_check_digit}
use local_first_llm_privacy.Domains.Ascii.{
  is_ascii_digit, ints-ascii, join_str-ascii, is_decimal-ascii, ascii_char,
}
use local_first_llm_privacy.Domains.CheckDigit.{IsScheme, take-append-last, check_digit_unique}

module _ {is_valid : Text → Result Bool} {generate : Text → Result Text}
    (s : IsScheme is_valid generate) where
  -- Digits with their check digit form a valid text of ASCII digits, from which the digits are read back.
  pub with_check_digit_total :
      (ds : List ℕ)
      → 0 < length ds
      → Below 10 ds
      → (text : Text) × (with_check_digit generate ds ≡ ok text)
        × (all is_ascii_digit text ≡ true)
        × (length text ≡ suc (length ds))
        × (is_valid text ≡ ok true)
        × (ints (take (length ds) text) ≡ ok ds)
  unfolding with_check_digit
  with_check_digit_total ds long low =
      let (ascii, len, read) = join_str-ascii ds low in
      let (k, hk, gen, valid) =
        s.generated (join_str ds) (is_decimal-ascii (join_str ds) (omega (arith, len)) ascii) in
      let digit : is_ascii_digit (b'0' + k) ≡ true = ground arith in
      let whole : length (join_str ds ++ (b'0' + k) ∷ []) ≡ suc (length ds) =
        omega (arith, length-append (join_str ds) ((b'0' + k) ∷ []), len) in
      let cut : take (length ds) (join_str ds ++ (b'0' + k) ∷ []) ≡ join_str ds =
        rw (← len) (take-append (join_str ds) ((b'0' + k) ∷ [])) in
      (
        join_str ds ++ (b'0' + k) ∷ [],
        rw gen,
        ground (arith, all-append is_ascii_digit (join_str ds) ((b'0' + k) ∷ [])),
        whole,
        valid,
        rw cut read,
      )

  repaired_parts :
      (p : Text) (x : ℕ) (ds : List ℕ)
      → is_decimal p ≡ true
      → is_ascii_digit x ≡ true
      → join_str ds ≡ p
      → (with_check_digit generate ds ≡ ok (p ++ x ∷ [])) ↔ (is_valid (p ++ x ∷ []) ≡ ok true)
  unfolding with_check_digit
  repaired_parts p x ds decimal digit same =
      let (k, hk, gen, valid) = s.generated p decimal in
      let (e, hd) = ascii_char x digit in
      let calc : with_check_digit generate ds ≡ ok (p ++ (b'0' + k) ∷ []) = rw (same, gen) in
      let unique = check_digit_unique s p k (x - b'0') hk hd valid in
      let ends : is_valid (p ++ x ∷ []) ≡ is_valid (p ++ (b'0' + (x - b'0')) ∷ []) =
        ap (λ c. is_valid (p ++ c ∷ [])) e in
      (
        λ h. ap is_valid (sym (ok-injective (sym calc ∙ h))) ∙ valid,
        λ v.
            calc
            ∙ ap (λ d. ok (p ++ (b'0' + d) ∷ [])) (unique.0 (sym ends ∙ v))
            ∙ ap (λ c. ok (p ++ c ∷ [])) (sym e),
      )

  -- The payload of a value with its repaired check digit is the value exactly if the value was valid.
  repaired_iff :
      (value : Text) (n : ℕ) (ds : List ℕ)
      → length value ≡ suc n
      → 0 < n
      → all is_ascii_digit value ≡ true
      → join_str ds ≡ take n value
      → (with_check_digit generate ds ≡ ok value) ↔ (is_valid value ≡ ok true)
  repaired_iff value n ds len pos ascii same =
      let (x, split, cut) = take-append-last n value len in
      let whole : all is_ascii_digit (take n value ++ x ∷ []) ≡ true =
        ap (all is_ascii_digit) (sym split) ∙ ascii in
      let cases = all-append is_ascii_digit (take n value) (x ∷ []) in
      subst (λ v. (with_check_digit generate ds ≡ ok v) ↔ (is_valid v ≡ ok true)) (sym split)
        (repaired_parts (take n value) x ds
          (is_decimal-ascii (take n value) (omega (arith, cut)) (ground arith)) (ground arith) same)

  module _ (c : Crypto) (key : Bytes) (cipher : IsCipher c key) (lengths : HasBitLengths c)
      (tweak : Bytes) (short : length tweak < 4294967296) where
    -- Permuting the payload of a text of ASCII digits and repairing its last digit gives a valid text
    -- of as many ASCII digits; the inverse gives back the value exactly if the value was valid.
    pub repair_roundtrip :
        (value : Text) (n : ℕ)
        → length value ≡ suc n
        → 2 ≤ n
        → n ≤ 64
        → all is_ascii_digit value ≡ true
        → (ds : List ℕ) × (out : List ℕ) × (surrogate : Text) × (ints (take n value) ≡ ok ds)
          × (ff1_encrypt c key tweak 10 ds ≡ ok out)
          × (with_check_digit generate out ≡ ok surrogate)
          × (all is_ascii_digit surrogate ≡ true)
          × (length surrogate ≡ suc n)
          × (is_valid surrogate ≡ ok true)
          × (ints (take n surrogate) ≡ ok out)
          × (ff1_decrypt c key tweak 10 out ≡ ok ds)
          × ((with_check_digit generate ds ≡ ok value) ↔ (is_valid value ≡ ok true))
    repair_roundtrip value n len low high ascii =
        let payload : all is_ascii_digit (take n value) ≡ true =
          all-take is_ascii_digit n value ascii in
        let (ds, read, dlen, below, back) = ints-ascii (take n value) payload in
        let size : length ds ≡ n = omega (arith, dlen, length-take n value) in
        let accepted : IsAccepted 10 tweak ds = record {
          radix_low = omega arith;
          radix_high = omega arith;
          long = omega (arith, size);
          short = omega (arith, size);
          tweak_short = short;
          low = below;
        } in
        let (out, run, olen, olow, inv) =
          ff1_decrypt-ff1_encrypt c key tweak 10 ds cipher
            (lengths (length ds - length ds / 2) 10 (omega arith) (omega arith)
              (omega (arith, size)))
            accepted in
        let osize : length out ≡ n = olen ∙ size in
        let (text, made, tascii, tlen, valid, tread) =
          with_check_digit_total out (omega (arith, osize)) olow in
        (
          ds,
          out,
          text,
          read,
          run,
          made,
          tascii,
          tlen ∙ ap suc osize,
          valid,
          ap (λ m. ints (take m text)) (sym osize) ∙ tread,
          inv,
          repaired_iff value n ds len (omega arith) ascii back,
        )

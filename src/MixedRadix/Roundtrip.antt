-- ===== src/MixedRadix/Roundtrip.antt =====
-- `encode` and `decode` are inverse between the symbol lists in range and the numbers below
-- `domain_size`.
use local_first_llm_privacy.Common.{
  ℕ, zero, suc, ◌+◌, ◌*◌, ◌/◌, ◌%◌, ◌≤◌, ◌<◌, ◌≡◌, refl, ap, ◌∙◌, sym, List, [], ◌∷◌, ◌++◌, reverse,
  arith, ok, ◌==◌, false, append_assoc, append-nil, div-digit, mod-digit,
}
use mathlib.Core.List.{reverse-cons}
use native.Mathlib.Nat.{le_refl, le_trans}
use local_first_llm_privacy.MixedRadix.{
  encode_loop, encode, decode_loop, decode, size_loop, domain_size,
}

-- Every symbol is below the radix of its position.
abbrev pub InRange : List ℕ → List ℕ → Type 0
InRange [] [] = Unit
InRange (s ∷ ss) (r ∷ rs) = (s < r) × InRange ss rs
InRange _ _ = ⊥

abbrev pub AllPositive : List ℕ → Type 0
AllPositive [] = Unit
AllPositive (r ∷ rs) = (0 < r) × AllPositive rs

reverse-cons-append {ℓ} :
    {A : Type ℓ} (x : A) (xs q : List A) → reverse (x ∷ xs) ++ q ≡ reverse xs ++ x ∷ q
reverse-cons-append x xs q =
    ap (λ l. l ++ q) (reverse-cons x xs) ∙ append_assoc (reverse xs) (x ∷ []) q

size_loop_mono : (a b : ℕ) (rs : List ℕ) → a ≤ b → size_loop a rs ≤ size_loop b rs
unfolding size_loop
size_loop_mono a b [] h = h
size_loop_mono a b (r ∷ rs) h = size_loop_mono (a * r) (b * r) rs (grind arith)

-- One step of decoding on a value with a digit at its end.
decode_loop_digit :
    (v s r : ℕ) (q acc : List ℕ)
    → s < r
    → decode_loop (v * r + s) (r ∷ q) acc ≡ decode_loop v q (s ∷ acc)
unfolding decode_loop
decode_loop_digit v s r q acc h =
    let nz : (r == 0) ≡ false = ground arith in rw (nz, div-digit v s r h, mod-digit v s r h)

-- Decoding what was encoded leaves the start value for the radixes that follow.
decode_loop-encode_loop :
    (v : ℕ) (ss rs q acc : List ℕ)
    → InRange ss rs
    → (w : ℕ) × (encode_loop v ss rs ≡ ok w)
      × (decode_loop w (reverse rs ++ q) acc ≡ decode_loop v q (ss ++ acc))
      × (w < size_loop (v + 1) rs)
unfolding encode_loop size_loop
decode_loop-encode_loop v [] [] q acc h = (v, refl, refl, omega arith)
decode_loop-encode_loop v (s ∷ ss) (r ∷ rs) q acc h =
    let (w, enc, dec, bound) = decode_loop-encode_loop (v * r + s) ss rs (r ∷ q) acc h.1 in
    (
      w,
      enc,
      rw (reverse-cons-append r rs q) (dec ∙ decode_loop_digit v s r q (ss ++ acc) h.0),
      le_trans bound (size_loop_mono (v * r + s + 1) ((v + 1) * r) rs (grind arith)),
    )
decode_loop-encode_loop v [] (r ∷ rs) q acc h = absurd h
decode_loop-encode_loop v (s ∷ ss) [] q acc h = absurd h

-- For symbols in range, `encode` returns a number below `domain_size`, and `decode` takes it back to
-- the symbols.
pub decode-encode :
    (symbols radixes : List ℕ)
    → InRange symbols radixes
    → (value : ℕ) × (encode symbols radixes ≡ ok value)
      × (value < domain_size radixes)
      × (decode value radixes ≡ ok symbols)
unfolding encode decode domain_size decode_loop
decode-encode symbols radixes h =
    let (w, enc, dec, bound) = decode_loop-encode_loop 0 symbols radixes [] [] h in
    let one : 0 + 1 ≡ 1 = refl in
    (
      w,
      enc,
      bound,
      ap (λ l. decode_loop w l []) (sym (append-nil (reverse radixes)))
          ∙ dec
          ∙ ap ok (append-nil symbols),
    )

-- Decoding any number yields symbols in range, and encoding them after what is left yields the number.
encode_loop-decode_loop :
    (w : ℕ) (rs q acc : List ℕ)
    → AllPositive rs
    → (top : ℕ) × (ss : List ℕ) × (decode_loop w (reverse rs ++ q) acc
        ≡ decode_loop top q (ss ++ acc))
      × (encode_loop top ss rs ≡ ok w)
      × InRange ss rs
      × (size_loop top rs ≤ w)
unfolding encode_loop size_loop
encode_loop-decode_loop w [] q acc h = (w, [], refl, refl, tt, le_refl w)
encode_loop-decode_loop w (r ∷ rs) q acc h =
    let (top, ss, dec, enc, range, bound) = encode_loop-decode_loop w rs (r ∷ q) acc h.1 in
    let low : top % r < r = grind arith in
    let whole : top / r * r + top % r ≡ top = grind arith in
    (
      top / r,
      (top % r) ∷ ss,
      rw (reverse-cons-append r rs q) (
          dec
          ∙ ap (λ t. decode_loop t (r ∷ q) (ss ++ acc)) (sym whole)
          ∙ decode_loop_digit (top / r) (top % r) r q (ss ++ acc) low),
      rw whole enc,
      (low, range),
      le_trans (size_loop_mono (top / r * r) top rs (omega (arith, whole))) bound,
    )

no_rest :
    (top value : ℕ) (rs : List ℕ) → size_loop top rs ≤ value → value < size_loop 1 rs → top ≡ 0
no_rest zero value rs low high = refl
no_rest (suc top) value rs low high =
    absurd (omega (arith, size_loop_mono 1 (suc top) rs (omega arith)))

-- For positive radixes and a number below `domain_size`, `decode` returns symbols in range, and
-- `encode` takes them back to the number.
pub encode-decode :
    (value : ℕ) (radixes : List ℕ)
    → AllPositive radixes
    → value < domain_size radixes
    → (symbols : List ℕ) × (decode value radixes ≡ ok symbols)
      × InRange symbols radixes
      × (encode symbols radixes ≡ ok value)
unfolding encode decode domain_size
encode-decode value radixes pos h =
    let (top, ss, dec, enc, range, bound) = encode_loop-decode_loop value radixes [] [] pos in
    let none_left : top ≡ 0 = no_rest top value radixes bound h in
    (
      ss,
      ap (λ l. decode_loop value l []) (sym (append-nil (reverse radixes)))
          ∙ dec
          ∙ ap ok (append-nil ss),
      range,
      rw (← none_left) enc,
    )

-- ===== src/Chunking.antt =====
-- Cutting a text into a given number of pieces (src/core/chunking.py).
use local_first_llm_privacy.Common.{
  ℕ, zero, suc, ◌+◌, ◌-◌, ◌*◌, ◌/◌, ◌%◌, ◌≤◌, ltb, if◌then◌else◌, length, take, drop, List, ◌∷◌, [],
  ◌++◌, concat, Result, ok, raise, value_error, ℤ, pos, negsuc, ◌≡◌, refl, ap, sym, ◌∙◌, arith,
  take-append-drop,
}
use local_first_llm_privacy.Common.Chars.{Text}

-- The size of the piece `i`.
unfoldable pub piece_size : ℕ → ℕ → ℕ → ℕ
piece_size base remainder i = base + (if ltb i remainder then 1 else 0)

-- The last `left` turns of the loop, from the turn `i` and the position `start` on.
unfoldable pub chunk_loop : Text → ℕ → ℕ → ℕ → ℕ → ℕ → List Text
chunk_loop text base remainder zero i start = []
chunk_loop text base remainder (suc left) i start =
    let size = piece_size base remainder i in
    take size (drop start text) ∷ chunk_loop text base remainder left (i + 1) (start + size)

unfoldable pub split_into_n_chunks : Text → ℤ → Result (List Text)
split_into_n_chunks text (negsuc n) = raise value_error
split_into_n_chunks text (pos zero) = raise value_error
split_into_n_chunks text (pos (suc n)) =
    ok (chunk_loop text (length text / suc n) (length text % suc n) (suc n) 0 0)

drop_nil : (n : ℕ) → drop {A = ℕ} n [] ≡ []
drop_nil zero = refl
drop_nil (suc n) = refl

rest_covered :
    (base remainder left i start n : ℕ)
    → start + (suc left * base + (remainder - i)) ≡ n
    → start + piece_size base remainder i + (left * base + (remainder - (i + 1))) ≡ n
unfolding piece_size
rest_covered base remainder left i start n covered =
    let e : suc left * base ≡ base + left * base = grind arith in ground arith

pub drop-drop : (a b : ℕ) (s : Text) → drop b (drop a s) ≡ drop (a + b) s
drop-drop zero b s = ap (λ n. drop n s) (omega arith)
drop-drop (suc a) b [] = drop_nil b ∙ sym (drop_nil (suc a + b))
drop-drop (suc a) b (c ∷ s) =
    let e : suc a + b ≡ suc (a + b) = omega arith in rw e (drop-drop a b s)

drop-length : (s : Text) → drop (length s) s ≡ []
drop-length [] = refl
drop-length (c ∷ s) = drop-length s

-- What the last `left` turns have to cover: a base for each, and one more for the turns before
-- `remainder`.
chunk_loop_cover :
    (text : Text) (base remainder left i start : ℕ)
    → remainder ≤ i + left
    → start + (left * base + (remainder - i)) ≡ length text
    → concat (chunk_loop text base remainder left i start) ≡ drop start text
unfolding chunk_loop
chunk_loop_cover text base remainder zero i start enough covered =
    let e : start ≡ length text = omega arith in
    sym (drop-length text) ∙ ap (λ n. drop n text) (sym e)
chunk_loop_cover text base remainder (suc left) i start enough covered =
    let size = piece_size base remainder i in
    let split : start + size + (left * base + (remainder - (i + 1))) ≡ length text =
      rest_covered base remainder left i start (length text) covered in
    let enough' : remainder ≤ (i + 1) + left = omega arith in
    ap (λ rest. take size (drop start text) ++ rest)
      (chunk_loop_cover text base remainder left (i + 1) (start + size) enough' split
        ∙ sym (drop-drop start size text))
    ∙ take-append-drop size (drop start text)

chunk_loop_count :
    (text : Text) (base remainder left i start : ℕ)
    → length (chunk_loop text base remainder left i start) ≡ left
unfolding chunk_loop
chunk_loop_count text base remainder zero i start = refl
chunk_loop_count text base remainder (suc left) i start =
    ap suc (chunk_loop_count text base remainder left (i + 1) (start + piece_size base remainder i))

-- For a positive count the call returns, with exactly that many pieces, and the pieces put together
-- are the text; for any other count it raises ValueError.
pub split_into_n_chunks-concat :
    (text : Text) (n : ℕ)
    → ((pieces : List Text) × (split_into_n_chunks text (pos (suc n)) ≡ ok pieces)
        × (concat pieces ≡ text)
        × (length pieces ≡ suc n))
      × (split_into_n_chunks text (pos 0) ≡ raise value_error)
      × (split_into_n_chunks text (negsuc n) ≡ raise value_error)
unfolding split_into_n_chunks
split_into_n_chunks-concat text n =
    let base = length text / suc n in
    let remainder = length text % suc n in
    (
      (
        chunk_loop text base remainder (suc n) 0 0,
        refl,
        chunk_loop_cover text base remainder (suc n) 0 0 (omega arith) (grind arith),
        chunk_loop_count text base remainder (suc n) 0 0,
      ),
      refl,
      refl,
    )

-- ===== src/Checksum/Tables.antt =====
-- The laws of the Verhoeff tables that the check digit rests on, by evaluation over all entries.
use local_first_llm_privacy.Common.{
  ℕ, zero, suc, ◌+◌, ◌%◌, ◌<◌, ◌≡◌, refl, Bool, true, ◌&&◌, ◌||◌, not, arith, ◌==◌, ltb, ==_iff,
}
use local_first_llm_privacy.Checksum.{d_at, p_at, inv_at}

-- The test `p` of the entries `0 … n - 1` of a row.
row : (ℕ → Bool) → ℕ → Bool
row p zero = true
row p (suc n) = row p n && p n

row_entry : (p : ℕ → Bool) (n x : ℕ) → x < n → row p n ≡ true → p x ≡ true
unfolding row
row_entry p zero x lt h = absurd (omega arith)
row_entry p (suc n) x lt h = ground (arith, row_entry p n x)

all_below : ℕ → (ℕ → Bool) → Bool
all_below n p = row p n

entry : (n : ℕ) (p : ℕ → Bool) (x : ℕ) → all_below n p ≡ true → x < n → p x ≡ true
unfolding all_below
entry n p x h lt = row_entry p n x lt h

-- Two nested checks at once.
below2 :
    (n m : ℕ) (p : ℕ → ℕ → Bool) (x y : ℕ)
    → all_below n (λ a. all_below m (p a)) ≡ true
    → x < n
    → y < m
    → p x y ≡ true
below2 n m p x y h hx hy = entry m (p x) y (entry n _ x h hx) hy

below3 :
    (n m k : ℕ) (p : ℕ → ℕ → ℕ → Bool) (x y z : ℕ)
    → all_below n (λ a. all_below m (λ b. all_below k (p a b))) ≡ true
    → x < n
    → y < m
    → z < k
    → p x y z ≡ true
below3 n m k p x y z h hx hy hz =
    entry k (p x y) z (below2 n m (λ a b. all_below k (p a b)) x y h hx hy) hz

d_table_bound : all_below 10 (λ a. all_below 10 (λ b. ltb (d_at a b) 10)) ≡ true
unfolding all_below row d_at
d_table_bound = refl

p_table_bound : all_below 8 (λ i. all_below 10 (λ b. ltb (p_at i b) 10)) ≡ true
unfolding all_below row p_at
p_table_bound = refl

d_table_assoc :
    all_below 10
      (λ a. all_below 10 (λ b. all_below 10 (λ c. d_at (d_at a b) c == d_at a (d_at b c))))
    ≡ true
unfolding all_below row d_at
d_table_assoc = refl

d_table_left :
    all_below 10
      (λ a. all_below 10 (λ b. all_below 10 (λ c. not (d_at a b == d_at a c) || (b == c))))
    ≡ true
unfolding all_below row d_at
d_table_left = refl

d_table_right :
    all_below 10
      (λ a. all_below 10 (λ b. all_below 10 (λ c. not (d_at a c == d_at b c) || (a == b))))
    ≡ true
unfolding all_below row d_at
d_table_right = refl

p_table_injective :
    all_below 8
      (λ i. all_below 10 (λ b. all_below 10 (λ c. not (p_at i b == p_at i c) || (b == c))))
    ≡ true
unfolding all_below row p_at
p_table_injective = refl

inv_table_bound : all_below 10 (λ a. ltb (inv_at a) 10 && (d_at (inv_at a) a == 0)) ≡ true
unfolding all_below row inv_at d_at
inv_table_bound = refl

p_table_first : all_below 10 (λ a. (p_at 0 a == a) && (d_at 0 a == a) && (d_at a 0 == a)) ≡ true
unfolding all_below row p_at d_at
p_table_first = refl

-- Swapping two different digits in neighbouring positions changes their product.
swap_table :
    all_below 8 (λ i. all_below 10 (λ a. all_below 10 (λ b.
      (a == b)
      || not (d_at (p_at i a) (p_at ((i + 1) % 8) b) == d_at (p_at i b) (p_at ((i + 1) % 8) a)))))
    ≡ true
unfolding all_below row p_at d_at
swap_table = refl

pub d_at-lt : (a b : ℕ) → a < 10 → b < 10 → d_at a b < 10
d_at-lt a b ha hb = ground (arith, below2 10 10 (λ a b. ltb (d_at a b) 10) a b d_table_bound ha hb)

pub p_at-lt : (i b : ℕ) → b < 10 → p_at (i % 8) b < 10
p_at-lt i b hb =
    ground (arith, below2 8 10 (λ i b. ltb (p_at i b) 10) (i % 8) b p_table_bound (omega arith) hb)

pub d_at_assoc : (a b c : ℕ) → a < 10 → b < 10 → c < 10 → d_at (d_at a b) c ≡ d_at a (d_at b c)
d_at_assoc a b c ha hb hc =
    (==_iff _ _).0 (
      below3 10 10 10 (λ a b c. d_at (d_at a b) c == d_at a (d_at b c)) a b c d_table_assoc ha hb
        hc)

pub d_at_left_cancel : (a b c : ℕ) → a < 10 → b < 10 → c < 10 → d_at a b ≡ d_at a c → b ≡ c
d_at_left_cancel a b c ha hb hc e = ground (
  arith,
  below3 10 10 10 (λ a b c. not (d_at a b == d_at a c) || (b == c)) a b c d_table_left ha hb hc,
)

pub d_at_right_cancel : (a b c : ℕ) → a < 10 → b < 10 → c < 10 → d_at a c ≡ d_at b c → a ≡ b
d_at_right_cancel a b c ha hb hc e = ground (
  arith,
  below3 10 10 10 (λ a b c. not (d_at a c == d_at b c) || (a == b)) a b c d_table_right ha hb hc,
)

pub p_at_injective : (i b c : ℕ) → b < 10 → c < 10 → p_at (i % 8) b ≡ p_at (i % 8) c → b ≡ c
p_at_injective i b c hb hc e = ground (
  arith,
  below3 8 10 10 (λ i b c. not (p_at i b == p_at i c) || (b == c)) (i % 8) b c p_table_injective
      (omega arith) hb hc,
)

pub inv_at-lt : (a : ℕ) → a < 10 → (inv_at a < 10) × (d_at (inv_at a) a ≡ 0)
inv_at-lt a ha =
    ground
      (arith, entry 10 (λ a. ltb (inv_at a) 10 && (d_at (inv_at a) a == 0)) a inv_table_bound ha)

pub first_position : (a : ℕ) → a < 10 → (p_at 0 a ≡ a) × (d_at 0 a ≡ a) × (d_at a 0 ≡ a)
first_position a ha = ground (
  arith,
  entry 10 (λ a. (p_at 0 a == a) && (d_at 0 a == a) && (d_at a 0 == a)) a p_table_first ha,
)

pub swap_injective :
    (i a b : ℕ)
    → a < 10
    → b < 10
    → d_at (p_at (i % 8) a) (p_at ((i + 1) % 8) b) ≡ d_at (p_at (i % 8) b) (p_at ((i + 1) % 8) a)
    → a ≡ b
swap_injective i a b ha hb e =
    let r : (i + 1) % 8 ≡ (i % 8 + 1) % 8 = omega arith in
    ground (
      arith,
      r,
      below3 8 10 10
          (λ i a b.
            (a == b)
            || not
                (d_at (p_at i a) (p_at ((i + 1) % 8) b) == d_at (p_at i b) (p_at ((i + 1) % 8) a)))
          (i % 8) a b swap_table (omega arith) ha hb,
    )

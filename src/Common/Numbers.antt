-- ===== src/Common/Numbers.antt =====
-- Numbers in positional notation, and powers.
use Prim.Native.Nat.{ℕ, zero, suc, ◌+◌, ◌*◌, ◌/◌, ◌%◌, ◌^◌, ◌<◌, ◌≤◌}
use mathlib.Core.Path.{◌≡◌, refl}
use native.Mathlib.Omega.{arith}
use native.Mathlib.Nat.{pow-le-pow_right}
use native.Mathlib.Numerals.{towards_suc}

pub div-digit : (v s r : ℕ) → s < r → (v * r + s) / r ≡ v
div-digit v s r h = grind arith

pub mod-digit : (v s r : ℕ) → s < r → (v * r + s) % r ≡ s
mod-digit v s r h = grind arith

-- Eight bits are a byte.
pub pow-256 : (b : ℕ) → 2 ^ (8 * b) ≡ 256 ^ b
pow-256 zero = refl
pow-256 (suc b) =
    let e : 8 * suc b ≡ 8 * b + 8 = omega arith in
    rw e (simp towards_suc (omega (arith, pow-256 b)))

pub pow-le-256 : (bits b : ℕ) → bits ≤ 8 * b → 2 ^ bits ≤ 256 ^ b
pow-le-256 bits b h = rw (← pow-256 b) (pow-le-pow_right (omega arith) h)

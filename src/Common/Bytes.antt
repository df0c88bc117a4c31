-- ===== src/Common/Bytes.antt =====
-- `bytes` as a list of numbers: `int.to_bytes(length, "big")` and `int.from_bytes(b, "big")`.
use Prim.Native.Nat.{ℕ, zero, suc, ◌+◌, ◌*◌, ◌/◌, ◌%◌, ◌^◌, ◌<◌}
use mathlib.Core.Path.{◌≡◌}
use mathlib.Core.List.{List, [], ◌∷◌}
use native.Mathlib.Omega.{arith}
use local_first_llm_privacy.Common.Tests.{ltb, if◌then◌else◌, lt→ltb}
use local_first_llm_privacy.Common.Lists.{length}
use local_first_llm_privacy.Common.Results.{Result, ok, raise, overflow_error}

abbrev pub Bytes : Type 0
Bytes = List ℕ

bytes_loop : ℕ → ℕ → Bytes → Bytes
bytes_loop n zero out = out
bytes_loop n (suc k) out = bytes_loop (n / 256) k ((n % 256) ∷ out)

unfoldable pub to_bytes : ℕ → ℕ → Result Bytes
unfolding bytes_loop
to_bytes n len = if ltb n (256 ^ len) then ok (bytes_loop n len []) else raise overflow_error

from_bytes_loop : ℕ → Bytes → ℕ
from_bytes_loop value [] = value
from_bytes_loop value (b ∷ rest) = from_bytes_loop (value * 256 + b) rest

unfoldable pub from_bytes : Bytes → ℕ
unfolding from_bytes_loop
from_bytes bytes = from_bytes_loop 0 bytes

length-bytes_loop : (n k : ℕ) (out : Bytes) → length (bytes_loop n k out) ≡ k + length out
unfolding bytes_loop
length-bytes_loop n zero out = omega arith
length-bytes_loop n (suc k) out = omega (arith, length-bytes_loop (n / 256) k ((n % 256) ∷ out))

-- A number that fits is written in exactly the given number of bytes.
pub to_bytes_total :
    (n len : ℕ) → n < 256 ^ len → (out : Bytes) × (to_bytes n len ≡ ok out) × (length out ≡ len)
unfolding to_bytes
to_bytes_total n len h =
    (bytes_loop n len [], rw (lt→ltb n (256 ^ len) h), omega (arith, length-bytes_loop n len []))

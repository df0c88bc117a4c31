-- ===== src/Crypto.antt =====
-- What the surrogate engine takes from outside the repository: the block cipher of the package
-- `cryptography`, and the floating-point rounding of `math.ceil(v * math.log2(radix))`.
use local_first_llm_privacy.Common.{ℕ, ◌*◌, ◌%◌, ◌^◌, ◌≤◌, ◌≡◌, length, Result, ok}
use local_first_llm_privacy.Common.Bytes.{Bytes}

pub record Crypto : Type 0 where
  -- `Cipher(AES(key), CBC(iv)).encryptor()`, `update(data) + finalize()`.
  pub aes_cbc : Bytes → Bytes → Bytes → Result Bytes
  -- `Cipher(AES(key), ECB()).encryptor()`, `update(data) + finalize()`.
  pub aes_ecb : Bytes → Bytes → Result Bytes
  -- `math.ceil(v * math.log2(radix))`.
  pub ceil_log2 : ℕ → ℕ → ℕ

-- The documented behaviour of the cipher under a key that it accepts: whole blocks go in, and as
-- many bytes come out.
pub record IsCipher (c : Crypto) (key : Bytes) : Type 0 where
  pub cbc_total :
      (iv text : Bytes)
      → length iv ≡ 16
      → length text % 16 ≡ 0
      → (out : Bytes) × (c.aes_cbc key iv text ≡ ok out) × (length out ≡ length text)
  pub ecb_total :
      (block : Bytes)
      → length block % 16 ≡ 0
      → (out : Bytes) × (c.aes_ecb key block ≡ ok out) × (length out ≡ length block)

-- What a rounded logarithm must be for a list of `v` digits: no smaller than the bits needed, and no
-- larger than 16 bits for each digit.
pub record IsBitLength (c : Crypto) (v radix : ℕ) : Type 0 where
  pub enough : radix ^ v ≤ 2 ^ c.ceil_log2 v radix
  pub bounded : c.ceil_log2 v radix ≤ 16 * v

-- The product `v * math.log2(radix)` is exact enough for the radixes and lengths of the gateway's
-- own domains.
abbrev pub HasBitLengths : Crypto → Type 0
HasBitLengths c = (v radix : ℕ) → 2 ≤ radix → radix ≤ 10 → v ≤ 64 → IsBitLength c v radix

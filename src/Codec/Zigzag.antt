-- ===== src/Codec/Zigzag.antt =====
-- The zigzag numbering of signed integers in `read_varint` and `write_varint`: 0, -1, 1, -2, 2, ...
use endweave.Prelude.{ℕ, ◌+◌, ◌*◌, ◌/◌, ◌^◌, ◌<◌, ◌≡◌, arith, ℤ, pos, negsuc, mask}
use endweave.Prelude.Bits.{bit_xor-zero}
use endweave.Codec.Reader.{unzigzag}
use endweave.Codec.Writer.{zigzag}

-- The place of an integer in that order.
abbrev pub place : ℤ → ℕ
place (pos n) = n * 2
place (negsuc n) = n * 2 + 1

pub unzigzag-place : (v : ℤ) → unzigzag (place v) ≡ v
unzigzag-place (pos n) = ground (arith, bit_xor-zero ((n * 2) / 2))
unzigzag-place (negsuc n) = ground (arith, bit_xor-zero ((n * 2 + 1) / 2))

-- A number of 32 bits, and of 64 bits.
abbrev pub IsInt : ℕ → ℤ → Type 0
IsInt half (pos n) = n < half
IsInt half (negsuc n) = n < half

pub zigzag_32 : (v : ℤ) → IsInt (2 ^ 31) v → zigzag (2 ^ 31) v ≡ pos (place v)
zigzag_32 (pos n) h = ground (arith, bit_xor-zero (n * 2))
zigzag_32 (negsuc n) h = ground (arith, bit_xor-zero (n * 2 + 1))

pub zigzag_64 : (v : ℤ) → IsInt (2 ^ 63) v → zigzag (2 ^ 63) v ≡ pos (place v)
zigzag_64 (pos n) h = ground (arith, bit_xor-zero (n * 2))
zigzag_64 (negsuc n) h = ground (arith, bit_xor-zero (n * 2 + 1))

pub zigzag_wrapped :
    (v : ℤ) → IsInt (2 ^ 31) v → zigzag (2 ^ 31) (pos (mask v (2 ^ 32))) ≡ zigzag (2 ^ 31) v
zigzag_wrapped (pos n) h = ground arith
zigzag_wrapped (negsuc n) h = ground arith

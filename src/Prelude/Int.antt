-- ===== src/Prelude/Int.antt =====
-- Python's integers over the native numbers, under the library's names (its ℤ stands on the unary ℕ),
-- with the bit operations of Python, which read a negative number as an endless two's complement.
use Prim.Native.Nat.{ℕ, suc, ◌+◌, ◌-◌, ◌*◌, ◌/◌, ◌%◌, ◌≤◌, bit_xor}
use mathlib.Core.Bool.{Bool, false}
use endweave.Prelude.Tests.{ltb, leb, if◌then◌else◌, ◌==◌}

-- `negsuc n` is -(n + 1).
pub data ℤ : Type 0 where
  pos : ℕ → ℤ
  negsuc : ℕ → ℤ

abbrev pub pos_part : ℤ → ℕ
pos_part (pos n) = n
pos_part (negsuc n) = 0

abbrev pub neg_part : ℤ → ℕ
neg_part (pos n) = 0
neg_part (negsuc n) = suc n

-- a - b, as an integer.
abbrev pub sub_ℕ : ℕ → ℕ → ℤ
sub_ℕ a b = if leb b a then pos (a - b) else negsuc (b - a - 1)

infixl 65 ◌+ℤ◌ ◌-ℤ◌
infix 50 ◌≤ℤ◌
abbrev pub ◌+ℤ◌ : ℤ → ℤ → ℤ
a +ℤ b = sub_ℕ (pos_part a + pos_part b) (neg_part a + neg_part b)

abbrev pub ◌-ℤ◌ : ℤ → ℤ → ℤ
a -ℤ b = sub_ℕ (pos_part a + neg_part b) (neg_part a + pos_part b)

abbrev pub ◌≤ℤ◌ : ℤ → ℤ → Type 0
a ≤ℤ b = pos_part a + neg_part b ≤ pos_part b + neg_part a

-- a <= b and a < b, as tests
abbrev pub leb_ℤ : ℤ → ℤ → Bool
leb_ℤ a b = leb (pos_part a + neg_part b) (pos_part b + neg_part a)

abbrev pub ltb_ℤ : ℤ → ℤ → Bool
ltb_ℤ a b = ltb (pos_part a + neg_part b) (pos_part b + neg_part a)

abbrev pub eqb_ℤ : ℤ → ℤ → Bool
eqb_ℤ (pos a) (pos b) = a == b
eqb_ℤ (negsuc a) (negsuc b) = a == b
eqb_ℤ _ _ = false

-- `v & (m - 1)` for a power of two `m`: the remainder of the division that rounds down.
abbrev pub mask : ℤ → ℕ → ℕ
mask (pos n) m = n % m
mask (negsuc n) m = m - 1 - n % m

-- `v << 1`
abbrev pub shl_one : ℤ → ℤ
shl_one (pos n) = pos (n * 2)
shl_one (negsuc n) = negsuc (n * 2 + 1)

-- `v >> k` is the division by m = 2 ** k that rounds down.
abbrev pub shr : ℤ → ℕ → ℤ
shr (pos n) m = pos (n / m)
shr (negsuc n) m = negsuc (n / m)

-- `-n` of a natural number
abbrev pub neg : ℕ → ℤ
neg n = sub_ℕ 0 n

-- `a ^ b`: the complement of `n` is -(n + 1).
abbrev pub xor_ℤ : ℤ → ℤ → ℤ
xor_ℤ (pos a) (pos b) = pos (bit_xor a b)
xor_ℤ (pos a) (negsuc b) = negsuc (bit_xor a b)
xor_ℤ (negsuc a) (pos b) = negsuc (bit_xor a b)
xor_ℤ (negsuc a) (negsuc b) = pos (bit_xor a b)

-- ===== src/Prelude/Bits.antt =====
-- `|` and `^` of Python at variables: what the varint codec of codec/reader.py and codec/writer.py
-- relies on.
use Prim.Native.Nat.{ℕ, zero, suc, ◌+◌, ◌*◌, ◌/◌, ◌%◌, ◌^◌, ◌≤◌, ◌<◌, max, digits, differ}
use Prim.Native.Nat.{bit_or, bit_xor, bit_or-bitwise, bit_xor-bitwise}
use mathlib.Core.Path.{◌≡◌, refl, ap, ◌∙◌}
use native.Mathlib.Nat.{pow-suc, le_refl}
use native.Mathlib.Omega.{arith}

mul-pow-suc : (q s : ℕ) → q * 2 ^ suc s ≡ (q * 2 ^ s) * 2
mul-pow-suc q s = omega (arith, ap (λ (t : ℕ). q * t) (pow-suc 2 s))

or_digits : (n a s q : ℕ) → a ≤ n → a < 2 ^ s → digits (λ b. b) max n a (q * 2 ^ s) ≡ a + q * 2 ^ s
or_digits zero a s q le lt = omega arith
or_digits (suc n) zero s q le lt = omega arith
or_digits (suc n) (suc a) zero q le lt = absurd (omega arith)
or_digits (suc n) (suc a) (suc s) q le lt =
    let half : (q * 2 ^ suc s) / 2 ≡ q * 2 ^ s = omega (arith, mul-pow-suc q s) in
    rw half (
      omega (
        arith,
        mul-pow-suc q s,
        pow-suc 2 s,
        or_digits n (suc a / 2) s q (omega arith) (omega (arith, pow-suc 2 s)),
      ))

-- Fields that do not overlap are added.
pub bit_or-shift : (a s q : ℕ) → a < 2 ^ s → bit_or a (q * 2 ^ s) ≡ a + q * 2 ^ s
bit_or-shift a s q h = bit_or-bitwise a (q * 2 ^ s) ∙ or_digits a a s q (le_refl a) h

differ-zero : (x : ℕ) → differ x 0 ≡ x
differ-zero zero = refl
differ-zero (suc x) = refl

xor_digits : (n a : ℕ) → a ≤ n → digits (λ b. b) differ n a 0 ≡ a
xor_digits zero a h = omega arith
xor_digits (suc n) zero h = refl
xor_digits (suc n) (suc a) h =
    omega (arith, differ-zero (suc a % 2), xor_digits n (suc a / 2) (omega arith))

pub bit_xor-zero : (a : ℕ) → bit_xor a 0 ≡ a
bit_xor-zero a = bit_xor-bitwise a 0 ∙ xor_digits a a (le_refl a)

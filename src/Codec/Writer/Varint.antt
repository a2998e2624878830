-- ===== src/Codec/Writer/Varint.antt =====
-- codec/writer.py: the bytes of `write_uvarint` and `write_uvarint64`.
use native.Mathlib.Nat.{pow-suc}
use endweave.Prelude.{
  ℕ, zero, suc, ◌+◌, ◌/◌, ◌%◌, ◌^◌, ◌<◌, ◌≤◌, ◌≡◌, List, [], ◌∷◌, arith, ltb, ◌==◌, true, false,
  Bool-cases, inl, inr, mask, ℤ,
}
use endweave.Prelude.Bits.{bit_or-shift}
use endweave.Codec.Leb128.{groups, groups_small, groups_large}
use endweave.Codec.Writer.{write_bytes, uvarint_loop, uvarint, write_uvarint, write_uvarint64}
use endweave.Codec.Writer.View.{Writes, Writes-write_bytes, Writes-then}

last_round : (fuel v : ℕ) → v < 128 → Writes (uvarint_loop (suc fuel) v) (v ∷ [])
unfolding uvarint_loop
last_round fuel v h = rw (test, small) (Writes-write_bytes (v ∷ []))
  where
    test : (v / 128 == 0) ≡ true
    test = ground arith

    small : v % 128 ≡ v
    small = omega arith

inner_round :
    (fuel v : ℕ) (bs : List ℕ)
    → 128 ≤ v
    → Writes (uvarint_loop fuel (v / 128)) bs
    → Writes (uvarint_loop (suc fuel) v) ((v % 128 + 128) ∷ bs)
unfolding uvarint_loop
inner_round fuel v bs h more =
    rw (test, bit_or-shift (v % 128) 7 1 (omega arith))
      (Writes-then (write_bytes ((v % 128 + 128) ∷ [])) _ (Writes-write_bytes _) more)
  where
    test : (v / 128 == 0) ≡ false
    test = ground arith

Writes-uvarint_loop : (k v : ℕ) → v < 128 ^ suc k → Writes (uvarint_loop (suc k) v) (groups k v)
Writes-uvarint_loop zero v h = rw (groups_small 0 v (omega arith)) (last_round 0 v (omega arith))
Writes-uvarint_loop (suc k) v h = elim (Bool-cases (ltb v 128)) [
  | inl small ↦ rw (groups_small (suc k) v (ground arith)) (last_round (suc k) v (ground arith))
  | inr large ↦ rw (groups_large k v (ground arith)) (
      inner_round (suc k) v (groups k (v / 128)) (ground arith)
        (Writes-uvarint_loop k (v / 128) (omega (arith, pow-suc 128 (suc k)))))
]

Writes-uvarint : (k v : ℕ) → v < 128 ^ suc k → Writes (uvarint (suc k) v) (groups k v)
unfolding uvarint
Writes-uvarint k v h = elim (Bool-cases (ltb v 128)) [
  | inl small ↦ rw (small, groups_small k v (ground arith)) (Writes-write_bytes (v ∷ []))
  | inr large ↦ rw large (Writes-uvarint_loop k v h)
]

pub mask-lt : (m : ℕ) (v : ℤ) → 0 < m → mask v m < m
mask-lt m v h = ground arith

-- For any integer the groups of seven bits of its low 32 bits are written.
pub Writes-write_uvarint : (v : ℤ) → Writes (write_uvarint v) (groups 4 (mask v (2 ^ 32)))
unfolding write_uvarint
Writes-write_uvarint v = Writes-uvarint 4 (mask v (2 ^ 32)) (omega (arith, mask-lt (2 ^ 32) v))

pub Writes-write_uvarint64 : (v : ℤ) → Writes (write_uvarint64 v) (groups 9 (mask v (2 ^ 64)))
unfolding write_uvarint64
Writes-write_uvarint64 v = Writes-uvarint 9 (mask v (2 ^ 64)) (omega (arith, mask-lt (2 ^ 64) v))

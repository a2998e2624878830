-- ===== src/Codec/Reader/Varint.antt =====
-- codec/reader.py: `read_uvarint` and `read_uvarint64` on the bytes of a number.
use mathlib.Core.Path.{subst}
use native.Mathlib.Nat.{pow-suc}
use endweave.Prelude.{
  ℕ, zero, suc, ◌+◌, ◌*◌, ◌/◌, ◌%◌, ◌^◌, ◌≤◌, ◌<◌, ◌≡◌, List, [], ◌∷◌, arith, ltb, leb, ◌==◌, true,
  false, Bool-cases, inl, inr,
}
use endweave.Prelude.Bits.{bit_or-shift}
use endweave.Codec.Leb128.{groups, groups_small, groups_large, split_group, shift_seven}
use endweave.Codec.Reader.{read_byte, uvarint_loop, uvarint, read_uvarint, read_uvarint64}
use endweave.Codec.Reader.View.{Reads, Reads-pure, Reads-bind, Reads-read_byte}

-- A round on the last byte.
last_round :
    (fuel limit acc shift v : ℕ)
    → v < 128
    → acc < 2 ^ shift
    → Reads (uvarint_loop (suc fuel) limit acc shift) (v ∷ []) (acc + v * 2 ^ shift)
unfolding uvarint_loop
last_round fuel limit acc shift v hv ha =
    Reads-bind read_byte _ (Reads-read_byte v)
      (rw (test, small, bit_or-shift acc shift v ha) (Reads-pure (acc + v * 2 ^ shift)))
  where
    small : v % 128 ≡ v
    small = omega arith

    test : (v / 128 % 2 == 0) ≡ true
    test = ground arith

-- A round on a byte with the top bit set.
inner_round :
    (fuel limit acc shift g v : ℕ) (bs : List ℕ)
    → g < 128
    → acc < 2 ^ shift
    → shift + 7 < limit
    → Reads (uvarint_loop fuel limit (acc + g * 2 ^ shift) (shift + 7)) bs v
    → Reads (uvarint_loop (suc fuel) limit acc shift) ((g + 128) ∷ bs) v
unfolding uvarint_loop
inner_round fuel limit acc shift g v bs hg ha hs more =
    Reads-bind read_byte _ (Reads-read_byte (g + 128))
      (rw (test, low, bit_or-shift acc shift g ha, in_limit) more)
  where
    low : (g + 128) % 128 ≡ g
    low = omega arith

    test : ((g + 128) / 128 % 2 == 0) ≡ false
    test = ground arith

    in_limit : leb limit (shift + 7) ≡ false
    in_limit = ground arith

acc_grows : (acc shift g : ℕ) → g < 128 → acc < 2 ^ shift → acc + g * 2 ^ shift < 2 ^ (shift + 7)
acc_grows acc shift g hg ha = rw (shift_seven shift) (grind arith)

Reads-uvarint_loop :
    (k limit acc shift v : ℕ)
    → v < 128 ^ suc k
    → acc < 2 ^ shift
    → shift + 7 * k < limit
    → Reads (uvarint_loop (suc k) limit acc shift) (groups k v) (acc + v * 2 ^ shift)
Reads-uvarint_loop zero limit acc shift v hv ha hs =
    rw (groups_small 0 v (omega arith)) (last_round 0 limit acc shift v (omega arith) ha)
Reads-uvarint_loop (suc k) limit acc shift v hv ha hs = elim (Bool-cases (ltb v 128)) [
  | inl small ↦
      let lt : v < 128 = ground arith in
      rw (groups_small (suc k) v lt) (last_round (suc k) limit acc shift v lt ha)
  | inr large ↦
      let ge : 128 ≤ v = ground arith in
      let sum : acc + v % 128 * 2 ^ shift + v / 128 * 2 ^ (shift + 7) ≡ acc + v * 2 ^ shift =
        omega (arith, split_group v shift) in
      rw (groups_large k v ge, ← sum)
        (inner_round (suc k) limit acc shift (v % 128) _ (groups k (v / 128)) (omega arith) ha
          (omega arith)
          (Reads-uvarint_loop k limit (acc + v % 128 * 2 ^ shift) (shift + 7) (v / 128)
            (omega (arith, pow-suc 128 (suc k))) (acc_grows acc shift (v % 128) (omega arith) ha)
            (omega arith)))
]

later_rounds :
    (k limit v : ℕ)
    → v < 128 ^ suc (suc k)
    → 7 + 7 * k < limit
    → Reads (uvarint_loop (suc k) limit (v % 128) 7) (groups k (v / 128)) v
later_rounds k limit v hv hs =
    subst (λ (t : ℕ). Reads (uvarint_loop (suc k) limit (v % 128) 7) (groups k (v / 128)) t) whole
      (Reads-uvarint_loop k limit (v % 128) 7 (v / 128) (omega (arith, pow-suc 128 (suc k)))
        (omega arith) hs)
  where
    whole : v % 128 + v / 128 * 2 ^ 7 ≡ v
    whole = omega arith

Reads-uvarint :
    (k limit v : ℕ)
    → v < 128 ^ suc (suc k)
    → 7 + 7 * k < limit
    → Reads (uvarint (suc k) limit) (groups (suc k) v) v
unfolding uvarint
Reads-uvarint k limit v hv hs = elim (Bool-cases (ltb v 128)) [
  | inl small ↦
      rw (groups_small (suc k) v (ground arith))
        (Reads-bind read_byte _ (Reads-read_byte v) (rw small (Reads-pure v)))
  | inr large ↦ rw (groups_large k v (ground arith)) (
      Reads-bind read_byte _ (Reads-read_byte (v % 128 + 128))
        (rw (test, low) (later_rounds k limit v hv hs)))
]
  where
    test : ltb (v % 128 + 128) 128 ≡ false
    test = ground arith

    low : (v % 128 + 128) % 128 ≡ v % 128
    low = omega arith

-- Any number below 2 ** 35 is read from its groups of seven bits.
pub Reads-read_uvarint : (v : ℕ) → v < 2 ^ 35 → Reads read_uvarint (groups 4 v) v
unfolding read_uvarint
Reads-read_uvarint v h = Reads-uvarint 3 35 v (omega arith) (omega arith)

-- Any number below 2 ** 70 is read from its groups of seven bits.
pub Reads-read_uvarint64 : (v : ℕ) → v < 2 ^ 70 → Reads read_uvarint64 (groups 9 v) v
unfolding read_uvarint64
Reads-read_uvarint64 v h = Reads-uvarint 8 70 v (omega arith) (omega arith)

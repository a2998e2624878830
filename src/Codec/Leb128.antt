-- ===== src/Codec/Leb128.antt =====
-- The variable-length encoding that `read_uvarint` and `write_uvarint` share, without a buffer:
-- seven bits a byte, the lowest first, the top bit set on every byte but the last.
use native.Mathlib.Nat.{pow-suc, mod-eq_of_lt}
use endweave.Prelude.{
  ℕ, zero, suc, ◌+◌, ◌*◌, ◌/◌, ◌%◌, ◌^◌, ◌≤◌, ◌<◌, ◌≡◌, refl, ap, List, [], ◌∷◌, arith, length, ltb,
  if◌then◌else◌,
}

-- The bytes of `v`, at most k + 1 of them.
unfoldable pub groups : ℕ → ℕ → List ℕ
groups zero v = v ∷ []
groups (suc k) v =
    let rest = groups k (v / 128) in if ltb v 128 then v ∷ [] else (v % 128 + 128) ∷ rest

pub groups_small : (k v : ℕ) → v < 128 → groups k v ≡ v ∷ []
unfolding groups
groups_small zero v h = refl
groups_small (suc k) v h = ground arith

pub groups_large : (k v : ℕ) → 128 ≤ v → groups (suc k) v ≡ (v % 128 + 128) ∷ groups k (v / 128)
unfolding groups
groups_large k v h = ground arith

pub length-groups : (k v : ℕ) → (1 ≤ length (groups k v)) × (length (groups k v) ≤ k + 1)
unfolding groups
length-groups zero v = omega arith
length-groups (suc k) v = ground (arith, length-groups k (v / 128))

-- The lowest group of `v` and the others, both shifted.
pub shift_seven : (s : ℕ) → 2 ^ (s + 7) ≡ 128 * 2 ^ s
shift_seven s = simp native.Mathlib.Numerals.towards_suc (omega arith)

pub split_group : (v s : ℕ) → v * 2 ^ s ≡ v % 128 * 2 ^ s + v / 128 * 2 ^ (s + 7)
split_group v s = omega (
  arith,
  ap (λ (t : ℕ). t * 2 ^ s) (native.Mathlib.Nat.div-add-mod v 128),
  ap (λ (t : ℕ). v / 128 * t) (shift_seven s),
)

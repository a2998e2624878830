-- ===== src/Protocol/MappingData/Shift.antt =====
-- protocol/mapping_data.py: shifting up and down.
use endweave.Prelude.{
  ◌≡◌, Bool, true, false, ◌&&◌, ℤ, pos, ◌+ℤ◌, leb_ℤ, ltb_ℤ, arith, if◌then◌else◌, Bool-cases, inl,
  inr,
}
use endweave.Protocol.MappingData.{IdShift, shift_up, shift_down}

-- The numbers that the newer version inserted.
abbrev pub is_inserted : IdShift → ℤ → Bool
is_inserted s v = leb_ℤ s.insert_at v && ltb_ℤ v (s.insert_at +ℤ s.count)

-- A number of the older version survives the way up and down, and no number goes up into the
-- inserted range.
pub shift_up_lossless :
    (s : IdShift) (v : ℤ)
    → leb_ℤ (pos 0) s.count ≡ true
    → (shift_down s (shift_up s v) ≡ v) × (is_inserted s (shift_up s v) ≡ false)
unfolding shift_down shift_up
shift_up_lossless s v h = (ground arith, ground arith)

-- A number of the newer version goes down and up to itself if it is not inserted; an inserted one
-- becomes the first number behind the inserted range, which was the end of the older version's list.
pub shift_down_lossy :
    (s : IdShift) (v : ℤ)
    → leb_ℤ (pos 0) s.count ≡ true
    → shift_up s (shift_down s v) ≡ (if is_inserted s v then s.insert_at +ℤ s.count else v)
unfolding shift_down shift_up
shift_down_lossy s v h = ground arith

pub shift_up_monotone :
    (s : IdShift) (v w : ℤ)
    → leb_ℤ (pos 0) s.count ≡ true
    → ltb_ℤ v w ≡ true
    → ltb_ℤ (shift_up s v) (shift_up s w) ≡ true
unfolding shift_up
shift_up_monotone s v w h lt = elim (Bool-cases (leb_ℤ s.insert_at v)) [
  | inl above ↦ elim (Bool-cases (leb_ℤ s.insert_at w)) [
    | inl a ↦ rw (above, a) (ground arith)
    | inr b ↦ absurd (ground arith)
  ]
  | inr below ↦ elim (Bool-cases (leb_ℤ s.insert_at w)) [
    | inl a ↦ rw (below, a) (ground arith)
    | inr b ↦ rw (below, b) lt
  ]
]

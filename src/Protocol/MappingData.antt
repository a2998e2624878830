-- ===== src/Protocol/MappingData.antt =====
-- protocol/mapping_data.py and protocol/mappings: how numbers shift where new ones are inserted.
pub mod Shift
use endweave.Prelude.{
  ℕ, Bool, Option, none, some, List, [], ◌∷◌, ℤ, pos, ◌+ℤ◌, ◌-ℤ◌, leb_ℤ, if◌then◌else◌,
}

pub record IdShift : Type 0 where
  pub insert_at : ℤ
  pub count : ℤ

unfoldable pub shift_up : IdShift → ℤ → ℤ
shift_up s v = if leb_ℤ s.insert_at v then v +ℤ s.count else v

unfoldable pub shift_down : IdShift → ℤ → ℤ
shift_down s v =
    if leb_ℤ (s.insert_at +ℤ s.count) v
    then v -ℤ s.count
    else if leb_ℤ s.insert_at v
    then s.insert_at
    else v

unfoldable pub cap : IdShift → ℤ → ℤ
cap s v = if leb_ℤ s.insert_at v then s.insert_at else v

abbrev pub inserted : ℤ → ℤ → IdShift
inserted count at = record { insert_at = at; count = count }

pub record MappingData : Type 0 where
  pub sound : IdShift
  pub actor_data_sound_key : ℤ
  pub actor_event : Option IdShift
  pub note_instrument : Option IdShift
  pub dropped_actor_data_keys : List ℤ

-- ===== src/Steps/Legacy.antt =====
-- protocol/v924_to_v944/handlers/block_pos.py: the legacy slots of a transaction.
use endweave.Prelude.{◌▸◌, ◌^◌, ◌<◌, List, [], ◌∷◌, length}
use endweave.Codec.FieldType.{byte}
use endweave.Codec.FieldType.Codes.{Field}
use endweave.Codec.Wrapper.Chunk.{Chunk, chain, each, same, counted}
use endweave.Codec.Wrapper.Swaps.{Swaps, Swaps-pure, Swaps-same}
use endweave.Codec.Wrapper.Flow.{Swaps-loop}
use endweave.Steps.V924ToV944.Serverbound as Down
use endweave.Steps.V944ToV924.Serverbound as Up

-- The legacy slots of a container.
pub record LegacySlots : Type 0 where
  pub container : Field byte
  pub slots : List (Field byte)
  pub few : length slots < 2 ^ 32

abbrev slot_chunk : Field byte → Chunk
slot_chunk s = chain (same s ∷ [])

slot-Swaps : (s : Field byte) → Swaps Up.slot Down.slot (slot_chunk s) tt
slot-Swaps s = Swaps-same s _ _ ▸ Swaps-pure tt

abbrev pub legacy_slots_chunk : LegacySlots → Chunk
legacy_slots_chunk l =
    chain (same l.container ∷ same (counted (length l.slots) l.few) ∷ each slot_chunk l.slots ∷ [])

legacy_slots-Swaps :
    (l : LegacySlots) → Swaps Up.legacy_slots Down.legacy_slots (legacy_slots_chunk l) tt
legacy_slots-Swaps l =
    Swaps-same l.container _ _
    ▸ Swaps-same (counted (length l.slots) l.few) _ _
    ▸ Swaps-loop Up.slot Down.slot slot_chunk slot-Swaps l.slots _ _
    ▸ Swaps-pure tt

abbrev pub legacy_chunk : (slots : List LegacySlots) → length slots < 2 ^ 32 → Chunk
legacy_chunk slots few =
    chain (same (counted (length slots) few) ∷ each legacy_slots_chunk slots ∷ [])

pub legacy-Swaps :
    (slots : List LegacySlots) (few : length slots < 2 ^ 32)
    → Swaps Up.legacy Down.legacy (legacy_chunk slots few) tt
legacy-Swaps slots few =
    Swaps-same (counted (length slots) few) _ _
    ▸ Swaps-loop Up.legacy_slots Down.legacy_slots legacy_slots_chunk legacy_slots-Swaps slots _ _
    ▸ Swaps-pure tt

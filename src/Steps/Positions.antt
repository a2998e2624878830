-- ===== src/Steps/Positions.antt =====
-- protocol/v924_to_v944/handlers/block_pos.py and protocol/v944_to_v924/handlers/block_pos.py: the
-- packets of the server, there and back.
use endweave.Codec.Leb128.{groups}
use endweave.Codec.Zigzag.{place, IsInt}
use endweave.Codec.FieldType.Variable.{Codes-var_int}
use endweave.Prelude.{
  ◌▸◌, ◌≡◌, refl, Bool-cases, inl, inr, eqb_ℤ, arith, ◌^◌, ◌<◌, List, [], ◌∷◌, length, ℤ, pos,
  if◌then◌else◌,
}
use endweave.Protocol.MappingData.{shift_up}
use endweave.Steps.Mappings.{note_instrument_v944}
use endweave.Codec.FieldType.{
  byte, var_int, uvar_int, uvar_int64, string, block_pos, network_block_pos,
}
use endweave.Codec.FieldType.Codes.{Field}
use endweave.Codec.Nbt.{compound_tag_type}
use endweave.Codec.Wrapper.Chunk.{Chunk, changed, chain, each, same, Twin, twin, counted}
use endweave.Codec.Wrapper.Swaps.{Swaps, Swaps-pure, Swaps-same, Swaps-twin}
use endweave.Codec.Wrapper.Flow.{Swaps-loop, Swaps-end}
use endweave.Codec.Wrapper.Changes.{Swaps-replace}
use endweave.Protocol.{serverbound, clientbound}
use endweave.Steps.Rounds.{Rounds, Swaps-Rounds}
use endweave.Steps.V924ToV944.Clientbound as Up
use endweave.Steps.V944ToV924.Clientbound as Down

-- A position of a block in both forms.
abbrev pub PositionTwin : Type 0
PositionTwin = Twin network_block_pos block_pos

pub first-Swaps :
    (position : PositionTwin)
    → Swaps Up.rewrite_first_net_block_to_block Down.rewrite_first_block_to_net
        (chain (twin position ∷ []))
        tt
unfolding Up.rewrite_first_net_block_to_block Down.rewrite_first_block_to_net
first-Swaps position = Swaps-twin position _ _ ▸ Swaps-pure tt

abbrev number : (v : ℤ) → IsInt (2 ^ 31) v → Field var_int
number v h = record { value = v; bytes = groups 4 (place v); coded = Codes-var_int v h }

-- The number of an event in the newer version: the instrument of a note shifts with the new ones.
abbrev pub shifted : ℤ → ℤ → ℤ
shifted type value = if eqb_ℤ type (pos 0) then shift_up note_instrument_v944 value else value

remap_event-shifted :
    (event_type event_data : ℤ)
    → Up.remap_event event_type event_data ≡ shifted event_type event_data
unfolding Up.remap_event shift_up
remap_event-shifted event_type event_data = elim (Bool-cases (eqb_ℤ event_type (pos 0))) [
  | inl note ↦ rw note refl
  | inr other ↦ rw other refl
]

remap_event-round :
    (event_type event_data : ℤ)
    → Down.remap_event event_type (shifted event_type event_data) ≡ event_data
unfolding shift_up Down.remap_event
remap_event-round event_type event_data = elim (Bool-cases (eqb_ℤ event_type (pos 0))) [
  | inl note ↦ rw note (ground arith)
  | inr other ↦ rw other refl
]

-- BlockEvent: the position, and the instrument of a note, there and back, if the number of the
-- instrument fits 32 bits after the shift.
pub tile_event_round :
    (position : PositionTwin) (type data_ : Field var_int)
    (h : IsInt (2 ^ 31) (shifted type.value data_.value))
    → Rounds Up.rewrite_tile_event Down.rewrite_tile_event (
        twin position
        ∷ same type
        ∷ changed data_.bytes (groups 4 (place (shifted type.value data_.value)))
        ∷ [])
unfolding Up.rewrite_tile_event Down.rewrite_tile_event
tile_event_round position type data_ h = Swaps-Rounds _ _ _ (
    Swaps-twin position _ _
    ▸ Swaps-same type _ _
    ▸ Swaps-end
    ▸ Swaps-replace (Up.remap_event type.value) (Down.remap_event type.value) data_ (number _ h)
        (remap_event-shifted type.value data_.value) (remap_event-round type.value data_.value))

-- AddVolumeEntity: both positions, there and back.
pub add_volume_entity_round :
    (entity : Field uvar_int) (components : Field compound_tag_type) (json name : Field string)
    (least greatest : PositionTwin)
    → Rounds Up.rewrite_add_volume_entity Down.rewrite_add_volume_entity
        (same entity ∷ same components ∷ same json ∷ same name ∷ twin least ∷ twin greatest ∷ [])
unfolding Up.rewrite_add_volume_entity Down.rewrite_add_volume_entity
add_volume_entity_round entity components json name least greatest = Swaps-Rounds _ _ _ (
    Swaps-same entity _ _
    ▸ Swaps-same components _ _
    ▸ Swaps-same json _ _
    ▸ Swaps-same name _ _
    ▸ Swaps-twin least _ _
    ▸ Swaps-twin greatest _ _
    ▸ Swaps-pure tt)

-- A changed block: its position, and four numbers.
pub record ChangedBlock : Type 0 where
  pub position : PositionTwin
  pub runtime_id : Field uvar_int
  pub update_flags : Field uvar_int
  pub entity : Field uvar_int64
  pub message : Field uvar_int

abbrev pub changed_block_chunk : ChangedBlock → Chunk
changed_block_chunk b = chain (
    twin b.position ∷ same b.runtime_id ∷ same b.update_flags ∷ same b.entity ∷ same b.message ∷ [])

changed_block-Swaps :
    (b : ChangedBlock) → Swaps Up.changed_block Down.changed_block (changed_block_chunk b) tt
unfolding Up.changed_block Down.changed_block
changed_block-Swaps b =
    Swaps-twin b.position _ _
    ▸ Swaps-same b.runtime_id _ _
    ▸ Swaps-same b.update_flags _ _
    ▸ Swaps-same b.entity _ _
    ▸ Swaps-same b.message _ _
    ▸ Swaps-pure tt

-- UpdateSubChunkBlocks: its position and that of each block of both lists, there and back.
pub update_sub_chunk_blocks_round :
    (position : PositionTwin) (standards extras : List ChangedBlock)
    (few : length standards < 2 ^ 32) (few' : length extras < 2 ^ 32)
    → Rounds Up.rewrite_update_sub_chunk_blocks Down.rewrite_update_sub_chunk_blocks (
        twin position
        ∷ same (counted (length standards) few)
        ∷ each changed_block_chunk standards
        ∷ same (counted (length extras) few')
        ∷ each changed_block_chunk extras
        ∷ [])
unfolding Up.rewrite_update_sub_chunk_blocks Down.rewrite_update_sub_chunk_blocks
update_sub_chunk_blocks_round position standards extras few few' = Swaps-Rounds _ _ _ (
    Swaps-twin position _ _
    ▸ Swaps-same (counted (length standards) few) _ _
    ▸ Swaps-loop Up.changed_block Down.changed_block changed_block_chunk changed_block-Swaps
        standards _ _
    ▸ Swaps-same (counted (length extras) few') _ _
    ▸ Swaps-loop Up.changed_block Down.changed_block changed_block_chunk changed_block-Swaps extras
        _ _
    ▸ Swaps-pure tt)

-- SetSpawnPosition: both positions, there and back.
pub set_spawn_position_round :
    (type : Field uvar_int) (position : PositionTwin) (dimension : Field var_int)
    (spawn : PositionTwin)
    → Rounds Up.rewrite_set_spawn_position Down.rewrite_set_spawn_position
        (same type ∷ twin position ∷ same dimension ∷ twin spawn ∷ [])
unfolding Up.rewrite_set_spawn_position Down.rewrite_set_spawn_position
set_spawn_position_round type position dimension spawn = Swaps-Rounds _ _ _ (
    Swaps-same type _ _
    ▸ Swaps-twin position _ _
    ▸ Swaps-same dimension _ _
    ▸ Swaps-twin spawn _ _
    ▸ Swaps-pure tt)

-- The packets whose first field alone is a position: UpdateBlock, BlockActorData,
-- UpdateBlockSynced, OpenSign.
pub first_position_round :
    (position : PositionTwin)
    → Rounds Up.rewrite_first_net_block_to_block Down.rewrite_first_block_to_net
        (twin position ∷ [])
first_position_round position = Swaps-Rounds _ _ _ (first-Swaps position)

-- LecternUpdate, in both directions: the server's version is the older one on the way up.
pub lectern_update_round :
    (page pages : Field byte) (position : PositionTwin)
    → Rounds
        (Up.rewrite_lectern_update clientbound)
        (Down.rewrite_lectern_update clientbound)
        (same page ∷ same pages ∷ twin position ∷ [])
      × Rounds
          (Down.rewrite_lectern_update serverbound)
          (Up.rewrite_lectern_update serverbound)
          (same page ∷ same pages ∷ twin position ∷ [])
unfolding Up.rewrite_lectern_update Down.rewrite_lectern_update
lectern_update_round page pages position =
    let swaps =
      Swaps-same page _ _ (Swaps-same pages _ _ ▸ Swaps-twin position _ _ ▸ Swaps-pure tt) in
    (Swaps-Rounds _ _ _ swaps, Swaps-Rounds _ _ _ swaps)

-- PlaySound: its position, there and back.
pub play_sound_round :
    (name : Field string) (position : PositionTwin)
    → Rounds Up.rewrite_play_sound Down.rewrite_play_sound (same name ∷ twin position ∷ [])
unfolding Up.rewrite_play_sound Down.rewrite_play_sound
play_sound_round name position =
    Swaps-Rounds _ _ _ (Swaps-same name _ _ ▸ Swaps-twin position _ _ ▸ Swaps-pure tt)

-- ContainerOpen: its position, there and back.
pub container_open_round :
    (id type : Field byte) (position : PositionTwin)
    → Rounds Up.rewrite_container_open Down.rewrite_container_open
        (same id ∷ same type ∷ twin position ∷ [])
unfolding Up.rewrite_container_open Down.rewrite_container_open
container_open_round id type position =
    Swaps-Rounds _ _ _
      (Swaps-same id _ _ ▸ Swaps-same type _ _ ▸ Swaps-twin position _ _ ▸ Swaps-pure tt)

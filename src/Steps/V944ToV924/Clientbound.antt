-- ===== src/Steps/V944ToV924/Clientbound.antt =====
-- protocol/v944_to_v924/handlers/block_pos.py: the positions of blocks, which v944 writes in another
-- form.
use endweave.Prelude.{◌&&◌, ◌||◌, ℤ, pos, pos_part, eqb_ℤ, leb_ℤ, ◌+ℤ◌, ◌-ℤ◌, if◌then◌else◌}
use endweave.Exec.{pure, ◌>>=◌, ◌>>◌, repeat}
use endweave.Codec.FieldType.{
  byte, bool, int_le, var_int, uvar_int, var_int64, uvar_int64, string, vec3, block_pos,
  network_block_pos, array_type,
}
use endweave.Codec.Nbt.{compound_tag_type}
use endweave.Codec.Wrapper.{read, write, map, passthrough, when}
use endweave.Protocol.{PacketHandler, Direction, serverbound, clientbound}
use endweave.Steps.Flags.{has_bit}
use endweave.Steps.Mappings.{trumpet, trumpet_shift}

unfoldable pub rewrite_first_block_to_net : PacketHandler
rewrite_first_block_to_net = do _ ← map block_pos network_block_pos; pure tt

unfoldable pub rewrite_lectern_update : Direction → PacketHandler
rewrite_lectern_update clientbound = do
  _ ← passthrough byte
  _ ← passthrough byte
  _ ← map block_pos network_block_pos
  pure tt
rewrite_lectern_update serverbound = do
  _ ← passthrough byte
  _ ← passthrough byte
  _ ← map network_block_pos block_pos
  pure tt

-- The note block's instrument, if the event is the note block's.
unfoldable pub remap_event : ℤ → ℤ → ℤ
remap_event event_type event_data =
    if eqb_ℤ event_type (pos 0) && leb_ℤ (trumpet +ℤ trumpet_shift) event_data
    then event_data -ℤ trumpet_shift
    else event_data

unfoldable pub rewrite_tile_event : PacketHandler
rewrite_tile_event = do
  _ ← map block_pos network_block_pos
  event_type ← passthrough var_int
  event_data ← read var_int
  write var_int (remap_event event_type event_data)

unfoldable pub rewrite_set_spawn_position : PacketHandler
rewrite_set_spawn_position = do
  _ ← passthrough uvar_int
  _ ← map block_pos network_block_pos
  _ ← passthrough var_int
  _ ← map block_pos network_block_pos
  pure tt

unfoldable pub rewrite_add_volume_entity : PacketHandler
rewrite_add_volume_entity = do
  _ ← passthrough uvar_int
  _ ← passthrough compound_tag_type
  _ ← passthrough string
  _ ← passthrough string
  _ ← map block_pos network_block_pos
  _ ← map block_pos network_block_pos
  pure tt

-- One round of the two loops over changed blocks.
unfoldable pub changed_block : PacketHandler
changed_block = do
  _ ← map block_pos network_block_pos
  _ ← passthrough uvar_int
  _ ← passthrough uvar_int
  _ ← passthrough uvar_int64
  _ ← passthrough uvar_int
  pure tt

unfoldable pub rewrite_update_sub_chunk_blocks : PacketHandler
rewrite_update_sub_chunk_blocks = do
  _ ← map block_pos network_block_pos
  blocks_count ← passthrough uvar_int
  _ ← repeat (pos_part blocks_count) changed_block
  extra_count ← passthrough uvar_int
  _ ← repeat (pos_part extra_count) changed_block
  pure tt

unfoldable pub rewrite_play_sound : PacketHandler
rewrite_play_sound = do _ ← passthrough string; _ ← map block_pos network_block_pos; pure tt

abbrev unique_id : PacketHandler
unique_id = do _ ← passthrough var_int64; pure tt

-- What follows the type of a tracked object: ENTITY is 0 and BLOCK_ENTITY is 1.
unfoldable pub tracked_actor : ℤ → PacketHandler
tracked_actor obj_type =
    if eqb_ℤ obj_type (pos 0)
    then unique_id
    else when (eqb_ℤ obj_type (pos 1)) rewrite_first_block_to_net

-- One round of the loop over tracked objects.
unfoldable pub tracked_object : PacketHandler
tracked_object = do obj_type ← passthrough int_le; tracked_actor obj_type

unfoldable pub decorations : PacketHandler
decorations = do
  obj_count ← passthrough uvar_int
  _ ← repeat (pos_part obj_count) tracked_object
  pure tt

abbrev map_ids : PacketHandler
map_ids = do _ ← passthrough (array_type var_int64); pure tt

abbrev scale : PacketHandler
scale = do _ ← passthrough byte; pure tt

-- The flags: TEXTURE_UPDATE is 2, DECORATION_UPDATE is 4 and CREATION is 8.
unfoldable pub rewrite_map_data : PacketHandler
rewrite_map_data = do
  _ ← passthrough var_int64
  types ← passthrough uvar_int
  _ ← passthrough byte
  _ ← passthrough bool
  _ ← passthrough block_pos
  when (has_bit types 8) map_ids
  when (has_bit types 8 || has_bit types 4 || has_bit types 2) scale
  when (has_bit types 4) decorations

unfoldable pub rewrite_update_client_input_locks : PacketHandler
rewrite_update_client_input_locks = do _ ← passthrough uvar_int; write vec3 (0, 0, 0)

unfoldable pub rewrite_container_open : PacketHandler
rewrite_container_open = do
  _ ← passthrough byte
  _ ← passthrough byte
  _ ← map block_pos network_block_pos
  pure tt

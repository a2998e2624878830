-- ===== src/Steps/V924ToV944/Serverbound.antt =====
-- protocol/v924_to_v944/handlers/block_pos.py: the packets of the client.
use endweave.Prelude.{not, pos, pos_part, eqb_ℤ}
use endweave.Exec.{pure, ◌>>=◌, ◌>>◌, repeat}
use endweave.Codec.FieldType.{
  byte, bool, var_int, uvar_int, uvar_int64, string, vec3, block_pos, network_block_pos,
}
use endweave.Codec.ItemInstance.{item_instance}
use endweave.Codec.InventoryAction.{inventory_action}
use endweave.Codec.StructureSettings.{structure_settings_v924, structure_settings_v944}
use endweave.Codec.Wrapper.{read, map, passthrough, when}
use endweave.Protocol.{PacketHandler}

unfoldable pub rewrite_first_block_to_net_block : PacketHandler
rewrite_first_block_to_net_block = do _ ← map block_pos network_block_pos; pure tt

abbrev pub slot : PacketHandler
slot = do _ ← passthrough byte; pure tt

-- One round of the loop over the legacy slots.
abbrev pub legacy_slots : PacketHandler
legacy_slots = do
  _ ← passthrough byte
  slots_len ← passthrough uvar_int
  _ ← repeat (pos_part slots_len) slot
  pure tt

abbrev pub legacy : PacketHandler
legacy = do
  slot_count ← passthrough uvar_int
  _ ← repeat (pos_part slot_count) legacy_slots
  pure tt

abbrev pub action : PacketHandler
action = do _ ← passthrough inventory_action; pure tt

unfoldable pub use_item : PacketHandler
use_item = do
  _ ← passthrough uvar_int
  _ ← passthrough uvar_int
  _ ← map block_pos network_block_pos
  _ ← passthrough var_int
  _ ← passthrough var_int
  _ ← passthrough item_instance
  _ ← passthrough vec3
  _ ← passthrough vec3
  _ ← passthrough uvar_int
  _ ← passthrough uvar_int
  _ ← read byte
  pure tt

-- ITEM_USE_TRANSACTION is 2; the bytes of other transactions stay.
unfoldable pub rewrite_inventory_transaction : PacketHandler
rewrite_inventory_transaction = do
  legacy_request_id ← passthrough var_int
  when (not (eqb_ℤ legacy_request_id (pos 0))) legacy
  transaction_type ← passthrough uvar_int
  action_count ← passthrough uvar_int
  _ ← repeat (pos_part action_count) action
  when (eqb_ℤ transaction_type (pos 2)) use_item

unfoldable pub rewrite_player_action : PacketHandler
rewrite_player_action = do
  _ ← passthrough uvar_int64
  _ ← passthrough uvar_int
  _ ← map block_pos network_block_pos
  _ ← map block_pos network_block_pos
  pure tt

unfoldable pub rewrite_structure_block_update : PacketHandler
rewrite_structure_block_update = do
  _ ← map block_pos network_block_pos
  _ ← passthrough string
  _ ← passthrough string
  _ ← passthrough bool
  _ ← passthrough bool
  _ ← passthrough var_int
  _ ← map structure_settings_v944 structure_settings_v924
  pure tt

unfoldable pub rewrite_command_block_update : PacketHandler
rewrite_command_block_update = do
  is_block ← passthrough bool
  when is_block rewrite_first_block_to_net_block

unfoldable pub rewrite_structure_template_data_request : PacketHandler
rewrite_structure_template_data_request = do
  _ ← passthrough string
  _ ← map block_pos network_block_pos
  _ ← map structure_settings_v944 structure_settings_v924
  pure tt

unfoldable pub rewrite_anvil_damage : PacketHandler
rewrite_anvil_damage = do _ ← passthrough byte; _ ← map block_pos network_block_pos; pure tt

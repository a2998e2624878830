-- ===== src/Steps/V975ToV1001/Transaction.antt =====
-- protocol/v975_to_v1001/handlers/inventory_transaction.py: the transactions of inventories.
use endweave.Prelude.{
  Bool, true, false, not, Option, none, some, ℤ, pos, pos_part, eqb_ℤ, if◌then◌else◌,
}
use endweave.Exec.{Exec, pure, raise, assertion_error, ◌>>=◌, ◌>>◌, repeat}
use endweave.Codec.FieldType.{
  FieldType, block_pos, bool, byte, int8, uvar_int, uvar_int64, var_int, vec3,
}
use endweave.Codec.ItemInstance.{item_instance, item_instance_v975}
use endweave.Codec.InventoryAction.{inventory_action, has_window, is_world}
use endweave.Codec.Wrapper.{read, write, map, passthrough, when}
use endweave.Protocol.{PacketHandler, Wrapper}
use endweave.Steps.V924ToV944.Serverbound.{legacy}

-- A number that is there only if the flag is set.
abbrev pub read_if : Bool → FieldType ℤ → Exec Wrapper (Option ℤ)
read_if true T = read T >>= λ v. pure (some v)
read_if false T = pure none

-- `assert value is not None`, and the number.
abbrev pub write_if : Bool → FieldType ℤ → Option ℤ → PacketHandler
write_if false T value = pure tt
write_if true T none = raise assertion_error
write_if true T (some v) = write T v

unfoldable pub rewrite_action : PacketHandler
rewrite_action = do
  source_type ← read uvar_int
  _ ← read bool
  has_container_id ← read bool
  window_id ← read_if has_container_id int8
  _ ← read bool
  has_flags ← read bool
  source_flags ← read_if has_flags uvar_int
  slot ← read uvar_int
  old_item ← read item_instance_v975
  new_item ← read item_instance_v975
  write inventory_action (record {
    source_type = source_type;
    window_id = window_id;
    source_flags = source_flags;
    slot = slot;
    old_item = old_item;
    new_item = new_item;
  })

unfoldable pub action_old_to_new : PacketHandler
action_old_to_new = do
  action ← read inventory_action
  write uvar_int action.source_type
  write bool true
  write bool (has_window action.source_type)
  write_if (has_window action.source_type) int8 action.window_id
  write bool true
  write bool (is_world action.source_type)
  write_if (is_world action.source_type) uvar_int action.source_flags
  write uvar_int action.slot
  write item_instance_v975 action.old_item
  write item_instance_v975 action.new_item

unfoldable pub rewrite_use_item : PacketHandler
rewrite_use_item = do
  action_type ← read var_int
  write uvar_int action_type
  trigger_type ← read byte
  write uvar_int trigger_type
  _ ← passthrough block_pos
  block_face ← read int8
  write var_int block_face
  _ ← passthrough var_int
  _ ← map item_instance_v975 item_instance
  _ ← passthrough vec3
  _ ← passthrough vec3
  _ ← passthrough uvar_int
  client_prediction ← read byte
  write uvar_int client_prediction
  _ ← passthrough byte
  pure tt

unfoldable pub rewrite_use_item_on_entity : PacketHandler
rewrite_use_item_on_entity = do
  _ ← passthrough uvar_int64
  action_type ← read var_int
  write uvar_int action_type
  _ ← passthrough var_int
  _ ← map item_instance_v975 item_instance
  _ ← passthrough vec3
  _ ← passthrough vec3
  pure tt

unfoldable pub rewrite_release_item : PacketHandler
rewrite_release_item = do
  action_type ← read var_int
  write uvar_int action_type
  _ ← passthrough var_int
  _ ← map item_instance_v975 item_instance
  _ ← passthrough vec3
  pure tt

unfoldable pub use_item_old_to_new : PacketHandler
use_item_old_to_new = do
  action_type ← read uvar_int
  write var_int action_type
  trigger_type ← read uvar_int
  write byte trigger_type
  _ ← passthrough block_pos
  block_face ← read var_int
  write int8 block_face
  _ ← passthrough var_int
  _ ← map item_instance item_instance_v975
  _ ← passthrough vec3
  _ ← passthrough vec3
  _ ← passthrough uvar_int
  client_prediction ← read uvar_int
  write byte client_prediction
  _ ← passthrough byte
  pure tt

unfoldable pub use_item_on_entity_old_to_new : PacketHandler
use_item_on_entity_old_to_new = do
  _ ← passthrough uvar_int64
  action_type ← read uvar_int
  write var_int action_type
  _ ← passthrough var_int
  _ ← map item_instance item_instance_v975
  _ ← passthrough vec3
  _ ← passthrough vec3
  pure tt

unfoldable pub release_item_old_to_new : PacketHandler
release_item_old_to_new = do
  action_type ← read uvar_int
  write var_int action_type
  _ ← passthrough var_int
  _ ← map item_instance item_instance_v975
  _ ← passthrough vec3
  pure tt

-- What follows the actions: ITEM_USE_TRANSACTION is 2, ITEM_USE_ON_ENTITY_TRANSACTION is 3 and
-- ITEM_RELEASE_TRANSACTION is 4.
abbrev pub trailing : ℤ → PacketHandler → PacketHandler → PacketHandler → PacketHandler
trailing transaction_type use_item on_entity release =
    if eqb_ℤ transaction_type (pos 2)
    then use_item
    else if eqb_ℤ transaction_type (pos 3)
    then on_entity
    else when (eqb_ℤ transaction_type (pos 4)) release

-- The loop over the legacy slots is that of `V924ToV944.Serverbound`.
unfoldable pub rewrite_inventory_transaction : PacketHandler
rewrite_inventory_transaction = do
  _ ← passthrough var_int
  has_legacy ← read bool
  when has_legacy legacy
  _ ← read bool
  transaction_type ← passthrough uvar_int
  _ ← read bool
  action_count ← passthrough uvar_int
  _ ← repeat (pos_part action_count) rewrite_action
  trailing transaction_type rewrite_use_item rewrite_use_item_on_entity rewrite_release_item

unfoldable pub rewrite_inventory_transaction_clientbound : PacketHandler
rewrite_inventory_transaction_clientbound = do
  legacy_request_id ← passthrough var_int
  write bool (not (eqb_ℤ legacy_request_id (pos 0)))
  when (not (eqb_ℤ legacy_request_id (pos 0))) legacy
  write bool true
  transaction_type ← passthrough uvar_int
  write bool true
  action_count ← passthrough uvar_int
  _ ← repeat (pos_part action_count) action_old_to_new
  trailing transaction_type use_item_old_to_new use_item_on_entity_old_to_new
      release_item_old_to_new

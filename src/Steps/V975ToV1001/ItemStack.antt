-- ===== src/Steps/V975ToV1001/ItemStack.antt =====
-- protocol/v975_to_v1001/handlers/item_stack.py: items in the newer form.
use endweave.Prelude.{pos_part}
use endweave.Exec.{pure, ◌>>=◌, ◌>>◌, repeat}
use endweave.Codec.FieldType.{bool, byte, uint_le, uvar_int, uvar_int64}
use endweave.Codec.ItemInstance.{item_instance, item_instance_v975}
use endweave.Codec.Wrapper.{map, passthrough, when}
use endweave.Protocol.{PacketHandler}

-- One round of the loops over items.
abbrev pub item : PacketHandler
item = do _ ← map item_instance item_instance_v975; pure tt

abbrev pub dynamic_id : PacketHandler
dynamic_id = do _ ← passthrough uint_le; pure tt

unfoldable pub rewrite_inventory_content : PacketHandler
rewrite_inventory_content = do
  _ ← passthrough uvar_int
  content_count ← passthrough uvar_int
  _ ← repeat (pos_part content_count) item
  _ ← passthrough byte
  has_dynamic_id ← passthrough bool
  when has_dynamic_id dynamic_id
  _ ← map item_instance item_instance_v975
  pure tt

-- `_ARMOUR_SLOT_COUNT` is 5.
unfoldable pub rewrite_mob_armour_equipment : PacketHandler
rewrite_mob_armour_equipment = do _ ← passthrough uvar_int64; _ ← repeat 5 item; pure tt

-- ===== src/Steps/V944ToV975/Waypoints.antt =====
-- protocol/v944_to_v975/handlers: locator_bar.py and item_stack.py.
use endweave.Prelude.{Bool, true, false, ℤ, pos, pos_part, eqb_ℤ, if◌then◌else◌}
use endweave.Exec.{Exec, pure, ◌>>=◌, ◌>>◌, repeat}
use endweave.Codec.FieldType.{
  FieldType, bool, byte, int_le, uint_le, uuid, uvar_int, uvar_int64, var_int, var_int64, vec3,
}
use endweave.Codec.ItemInstance.{ItemInstance, item_instance, item_instance_v975}
use endweave.Codec.Wrapper.{read, write, map, passthrough, when}
use endweave.Protocol.{PacketHandler, Direction, Wrapper, serverbound, clientbound}

-- A field that is passed on only under its flag.
abbrev pub passed : {A : Type 0} → FieldType A → PacketHandler
passed T = do _ ← passthrough T; pure tt

unfoldable pub optional : {A : Type 0} → FieldType A → PacketHandler
optional T = do present ← passthrough bool; when present (passed T)

abbrev pub world_position : PacketHandler
world_position = do _ ← passthrough vec3; _ ← passthrough var_int; pure tt

abbrev pub skip_texture : PacketHandler
skip_texture = do _ ← read uint_le; pure tt

-- One round of the loop over waypoints.
unfoldable pub waypoint : PacketHandler
waypoint = do
  _ ← passthrough uuid
  _ ← passthrough uint_le
  optional bool
  has_position ← passthrough bool
  when has_position world_position
  has_texture ← read bool
  when has_texture skip_texture
  write bool false
  write bool false
  optional int_le
  optional bool
  optional var_int64
  _ ← passthrough uvar_int
  pure tt

unfoldable pub rewrite_locator_bar : PacketHandler
rewrite_locator_bar = do count ← passthrough uvar_int; _ ← repeat (pos_part count) waypoint; pure tt

unfoldable pub rewrite_mob_equipment : Direction → PacketHandler
rewrite_mob_equipment clientbound = do
  _ ← passthrough uvar_int64
  _ ← map item_instance item_instance_v975
  _ ← map byte uvar_int
  _ ← map byte uvar_int
  _ ← map byte uvar_int
  pure tt
rewrite_mob_equipment serverbound = do
  _ ← passthrough uvar_int64
  _ ← map item_instance_v975 item_instance
  _ ← map uvar_int byte
  _ ← map uvar_int byte
  _ ← map uvar_int byte
  pure tt

abbrev pub read_id : Bool → Exec Wrapper ℤ
read_id true = read uint_le
read_id false = pure (pos 0)

-- Air is left out of the newer form.
unfoldable pub write_storage : ItemInstance → PacketHandler
write_storage storage =
    if eqb_ℤ storage.network_id (pos 0)
    then write bool false
    else (write bool true >> write item_instance_v975 storage)

unfoldable pub rewrite_inventory_slot : PacketHandler
rewrite_inventory_slot = do
  _ ← passthrough uvar_int
  _ ← passthrough uvar_int
  container_name ← read byte
  has_dynamic_id ← read bool
  dynamic_id ← read_id has_dynamic_id
  write bool true
  write byte container_name
  write bool has_dynamic_id
  when has_dynamic_id (write uint_le dynamic_id)
  storage ← read item_instance
  write_storage storage
  _ ← map item_instance item_instance_v975
  pure tt

-- ===== src/Codec/ItemInstance.antt =====
-- codec/types/item.py: the three wire formats of an item stack.
pub mod RoundTrip
pub mod Cerealized
use endweave.Prelude.{ℕ, Bool, true, false, List, [], length, ℤ, pos, eqb_ℤ, if◌then◌else◌}
use endweave.Exec.{pure, ◌>>=◌, ◌>>◌}
use endweave.Codec.Reader.{
  Read, read_varint, read_uvarint, read_ushort_le, read_short_le, read_bool, read_bytes,
}
use endweave.Codec.Writer.{
  Write, write_varint, write_uvarint, write_ushort_le, write_short_le, write_bool, write_bytes,
}
use endweave.Codec.FieldType.{FieldType, unsigned}

pub record ItemInstance : Type 0 where
  pub network_id : ℤ
  pub count : ℤ
  pub aux_value : ℤ
  pub has_net_id : Bool
  pub stack_net_id : ℤ
  pub net_id_variant : ℤ
  pub block_runtime_id : ℤ
  pub user_data : List ℕ

-- `ItemInstance(network_id=0)`
abbrev pub air : ItemInstance
air = record {
  network_id = pos 0;
  count = pos 0;
  aux_value = pos 0;
  has_net_id = false;
  stack_net_id = pos 0;
  net_id_variant = pos 0;
  block_runtime_id = pos 0;
  user_data = [];
}

abbrev pub only_if : Bool → Read ℤ → Read ℤ
only_if true m = m
only_if false m = pure (pos 0)

abbrev pub write_only_if : Bool → Write → Write
write_only_if true m = m
write_only_if false m = pure tt

abbrev pub read_user_data : Read (List ℕ)
read_user_data = do extra_len ← read_uvarint; read_bytes (pos extra_len)

abbrev pub write_user_data : List ℕ → Write
write_user_data user_data = write_uvarint (pos (length user_data)) >> write_bytes user_data

unfoldable pub read_item : Read ItemInstance
read_item = do
  network_id ← read_varint
  if eqb_ℤ network_id (pos 0) then pure air else do
    count ← unsigned read_ushort_le
    aux_value ← unsigned read_uvarint
    has_net_id ← read_bool
    stack_net_id ← only_if has_net_id read_varint
    block_runtime_id ← read_varint
    user_data ← read_user_data
    pure (record {
      network_id = network_id;
      count = count;
      aux_value = aux_value;
      has_net_id = has_net_id;
      stack_net_id = stack_net_id;
      net_id_variant = pos 0;
      block_runtime_id = block_runtime_id;
      user_data = user_data;
    })

unfoldable pub write_item : ItemInstance → Write
write_item value = do
  write_varint value.network_id
  if eqb_ℤ value.network_id (pos 0) then pure tt else do
    write_ushort_le value.count
    write_uvarint value.aux_value
    write_bool value.has_net_id
    write_only_if value.has_net_id (write_varint value.stack_net_id)
    write_varint value.block_runtime_id
    write_user_data value.user_data

-- `ITEM_INSTANCE`
abbrev pub item_instance : FieldType ItemInstance
item_instance = record { read = read_item; write = write_item }

unfoldable pub read_descriptor : Read ItemInstance
read_descriptor = do
  network_id ← read_varint
  if eqb_ℤ network_id (pos 0) then pure air else do
    count ← unsigned read_ushort_le
    aux_value ← unsigned read_uvarint
    block_runtime_id ← read_varint
    user_data ← read_user_data
    pure (record {
      network_id = network_id;
      count = count;
      aux_value = aux_value;
      has_net_id = false;
      stack_net_id = pos 0;
      net_id_variant = pos 0;
      block_runtime_id = block_runtime_id;
      user_data = user_data;
    })

unfoldable pub write_descriptor : ItemInstance → Write
write_descriptor value = do
  write_varint value.network_id
  if eqb_ℤ value.network_id (pos 0) then pure tt else do
    write_ushort_le value.count
    write_uvarint value.aux_value
    write_varint value.block_runtime_id
    write_user_data value.user_data

-- `NETWORK_ITEM_INSTANCE_DESCRIPTOR`
abbrev pub network_item_instance_descriptor : FieldType ItemInstance
network_item_instance_descriptor = record { read = read_descriptor; write = write_descriptor }

unfoldable pub read_item_v975 : Read ItemInstance
read_item_v975 = do
  network_id ← read_short_le
  count ← unsigned read_ushort_le
  aux_value ← unsigned read_uvarint
  has_net_id ← read_bool
  net_id_variant ← only_if has_net_id (unsigned read_uvarint)
  stack_net_id ← only_if has_net_id read_varint
  block_runtime_id ← unsigned read_uvarint
  user_data ← read_user_data
  pure (record {
    network_id = network_id;
    count = count;
    aux_value = aux_value;
    has_net_id = has_net_id;
    stack_net_id = stack_net_id;
    net_id_variant = net_id_variant;
    block_runtime_id = block_runtime_id;
    user_data = user_data;
  })

unfoldable pub write_item_v975 : ItemInstance → Write
write_item_v975 value = do
  write_short_le value.network_id
  write_ushort_le value.count
  write_uvarint value.aux_value
  write_bool value.has_net_id
  write_only_if value.has_net_id
      (write_uvarint value.net_id_variant >> write_varint value.stack_net_id)
  write_uvarint value.block_runtime_id
  write_user_data value.user_data

-- `ITEM_INSTANCE_V975`
abbrev pub item_instance_v975 : FieldType ItemInstance
item_instance_v975 = record { read = read_item_v975; write = write_item_v975 }

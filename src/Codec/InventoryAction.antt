-- ===== src/Codec/InventoryAction.antt =====
-- codec/types/inventory.py: the actions of an inventory transaction.
pub mod RoundTrip
use endweave.Prelude.{Bool, true, false, ◌||◌, Option, none, some, ℤ, pos, eqb_ℤ}
use endweave.Exec.{raise, assertion_error, pure, ◌>>=◌, ◌>>◌}
use endweave.Codec.Reader.{Read}
use endweave.Codec.Writer.{Write}
use endweave.Codec.FieldType.{FieldType, uvar_int, var_int}
use endweave.Codec.ItemInstance.{ItemInstance, item_instance}

pub record InventoryAction : Type 0 where
  pub source_type : ℤ
  pub window_id : Option ℤ
  pub source_flags : Option ℤ
  pub slot : ℤ
  pub old_item : ItemInstance
  pub new_item : ItemInstance

-- `InventorySourceType`: CONTAINER_INVENTORY, WORLD_INTERACTION, NON_IMPLEMENTED_FEATURE_TODO
abbrev pub has_window : ℤ → Bool
has_window source_type = eqb_ℤ source_type (pos 0) || eqb_ℤ source_type (pos 99999)

abbrev pub is_world : ℤ → Bool
is_world source_type = eqb_ℤ source_type (pos 2)

-- An optional number that is there exactly under the test.
abbrev pub read_number : Bool → FieldType ℤ → Read (Option ℤ)
read_number true T = T.read >>= λ v. pure (some v)
read_number false T = pure none

-- `assert value is not None`, and the number.
abbrev pub write_number : Bool → FieldType ℤ → Option ℤ → Write
write_number false T value = pure tt
write_number true T none = raise assertion_error
write_number true T (some v) = T.write v

-- Of the two tests of the source, an `if` and its `elif`, at most one holds.
unfoldable pub inventory_action : FieldType InventoryAction
inventory_action = record {
  read = do
    source_type ← uvar_int.read
    window_id ← read_number (has_window source_type) var_int
    source_flags ← read_number (is_world source_type) uvar_int
    slot ← uvar_int.read
    old_item ← item_instance.read
    new_item ← item_instance.read
    pure (record {
      source_type = source_type;
      window_id = window_id;
      source_flags = source_flags;
      slot = slot;
      old_item = old_item;
      new_item = new_item;
    });
  write = λ value. do
    uvar_int.write value.source_type
    write_number (has_window value.source_type) var_int value.window_id
    write_number (is_world value.source_type) uvar_int value.source_flags
    uvar_int.write value.slot
    item_instance.write value.old_item
    item_instance.write value.new_item;
}

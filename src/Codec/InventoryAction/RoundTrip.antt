-- ===== src/Codec/InventoryAction/RoundTrip.antt =====
-- codec/types/inventory.py: an action is read back from what was written.
use endweave.Prelude.{◌▸◌, ℕ, refl, Bool, true, false, Option, none, some, List, [], ◌++◌, ℤ}
use endweave.Codec.Reader.View.{Reads, Reads-pure, Reads-bind, Reads-map}
use endweave.Codec.Writer.View.{Writes, Writes-pure, Writes-then}
use endweave.Codec.FieldType.{FieldType, uvar_int, var_int}
use endweave.Codec.FieldType.Codes.{Codes, Field}
use endweave.Codec.ItemInstance.{ItemInstance, item_instance}
use endweave.Codec.InventoryAction.{
  InventoryAction, inventory_action, has_window, is_world, read_number, write_number,
}

-- A number that is there exactly under the test, with its bytes.
pub data Optional (T : FieldType ℤ) : Bool → Option ℤ → List ℕ → Type 0 where
  absent : Optional T false none []
  present : {v : ℤ} {bs : List ℕ} → Codes T v bs → Optional T true (some v) bs

Reads-number :
    {T : FieldType ℤ} {b : Bool} {v : Option ℤ} {bs : List ℕ}
    → Optional T b v bs
    → Reads (read_number b T) bs v
Reads-number absent = Reads-pure none
Reads-number {T} (present c) = Reads-map T.read (λ v. some v) c.reads refl

Writes-number :
    {T : FieldType ℤ} {b : Bool} {v : Option ℤ} {bs : List ℕ}
    → Optional T b v bs
    → Writes (write_number b T v) bs
Writes-number absent = Writes-pure
Writes-number (present c) = c.writes

abbrev pub action_of : ℤ → Option ℤ → Option ℤ → ℤ → ItemInstance → ItemInstance → InventoryAction
action_of source window_id source_flags slot old_item new_item = record {
  source_type = source;
  window_id = window_id;
  source_flags = source_flags;
  slot = slot;
  old_item = old_item;
  new_item = new_item;
}

module _ (source slot : Field uvar_int) {window_id source_flags : Option ℤ} {window flags : List ℕ}
    (cw : Optional var_int (has_window source.value) window_id window)
    (cf : Optional uvar_int (is_world source.value) source_flags flags) where
  abbrev pub action_bytes : List ℕ → List ℕ → List ℕ
  action_bytes old_item new_item =
      source.bytes ++ (window ++ (flags ++ (slot.bytes ++ (old_item ++ new_item))))

  pub Reads-inventory_action :
      {old_item new_item : ItemInstance} {old new : List ℕ}
      → Reads item_instance.read old old_item
      → Reads item_instance.read new new_item
      → Reads inventory_action.read
          (action_bytes old new)
          (action_of source.value window_id source_flags slot.value old_item new_item)
  unfolding inventory_action
  Reads-inventory_action ro rn =
      Reads-bind uvar_int.read _ source.coded.reads
      ▸ Reads-bind (read_number (has_window source.value) var_int) _ (Reads-number cw)
      ▸ Reads-bind (read_number (is_world source.value) uvar_int) _ (Reads-number cf)
      ▸ Reads-bind uvar_int.read _ slot.coded.reads
      ▸ Reads-bind item_instance.read _ ro (Reads-map item_instance.read _ rn refl)

  pub Writes-inventory_action :
      (old_item new_item : ItemInstance) {old new : List ℕ}
      → Writes (item_instance.write old_item) old
      → Writes (item_instance.write new_item) new
      → Writes
          (inventory_action.write
            (action_of source.value window_id source_flags slot.value old_item new_item))
          (action_bytes old new)
  unfolding inventory_action
  Writes-inventory_action old_item new_item wo wn =
      Writes-then (uvar_int.write source.value) _ source.coded.writes
      ▸ Writes-then (write_number (has_window source.value) var_int window_id) _ (Writes-number cw)
      ▸ Writes-then (write_number (is_world source.value) uvar_int source_flags) _
          (Writes-number cf)
      ▸ Writes-then (uvar_int.write slot.value) _ slot.coded.writes
      ▸ Writes-then (item_instance.write old_item) _ wo wn

  -- An action whose optional numbers are there exactly if its source asks for them is read back from
  -- its fields in order.
  pub Codes-inventory_action :
      (old_item new_item : Field item_instance)
      → Codes inventory_action
          (action_of source.value window_id source_flags slot.value old_item.value new_item.value)
          (action_bytes old_item.bytes new_item.bytes)
  Codes-inventory_action old_item new_item = record {
    reads = Reads-inventory_action old_item.coded.reads new_item.coded.reads;
    writes =
        Writes-inventory_action old_item.value new_item.value old_item.coded.writes
          new_item.coded.writes;
  }

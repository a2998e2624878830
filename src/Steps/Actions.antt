-- ===== src/Steps/Actions.antt =====
-- protocol/v975_to_v1001/handlers/inventory_transaction.py: one action, to the client and back.
use endweave.Prelude.{
  ◌▸◌, ℕ, Bool, true, false, Option, none, some, List, [], ◌∷◌, ◌++◌, ℤ, append-nil, if◌then◌else◌,
}
use endweave.Exec.{pure}
use endweave.Codec.FieldType.{FieldType, bool, int8, uvar_int, var_int}
use endweave.Codec.FieldType.Codes.{Codes, Field}
use endweave.Codec.FieldType.Primitives.{Codes-bool}
use endweave.Codec.ItemInstance.{item_instance, item_instance_v975}
use endweave.Codec.InventoryAction.{inventory_action, has_window, is_world}
use endweave.Codec.InventoryAction.RoundTrip.{
  Optional, absent, present, Reads-inventory_action, Writes-inventory_action,
}
use endweave.Codec.Wrapper.{read, write}
use endweave.Codec.Wrapper.Fields.{
  Rewrites, Rewrites-bind, Rewrites-pure, Rewrites-read, Rewrites-write,
}
use endweave.Codec.Wrapper.Whole.{Rewrites-written}
use endweave.Codec.Wrapper.Chunk.{Chunk, changed, Twin}
use endweave.Codec.Wrapper.Swaps.{Swaps, Rewrites-taken}
use endweave.Connection.{User}
use endweave.Steps.V975ToV1001.Transaction.{read_if, write_if, rewrite_action, action_old_to_new}

-- An item in both forms.
abbrev pub ItemTwin : Type 0
ItemTwin = Twin item_instance item_instance_v975

abbrev pub flag : Bool → Field bool
flag b = record { value = b; bytes = (if b then 1 else 0) ∷ []; coded = Codes-bool b }

-- A number that is there exactly under the test, with its bytes in both forms.
pub data Number (T T' : FieldType ℤ) : Bool → Option ℤ → List ℕ → List ℕ → Type 0 where
  without : Number T T' false none [] []
  with_number :
      {v : ℤ} {older newer : List ℕ}
      → Codes T v older
      → Codes T' v newer
      → Number T T' true (some v) older newer

module _ {T T' : FieldType ℤ} where
  in_older :
      {b : Bool} {v : Option ℤ} {older newer : List ℕ}
      → Number T T' b v older newer
      → Optional T b v older
  in_older without = absent
  in_older (with_number c c') = present c

  read_number :
      {b : Bool} {v : Option ℤ} {older newer : List ℕ}
      → Number T T' b v older newer
      → Rewrites {U = User} (read_if b T') newer [] v
  read_number without = Rewrites-pure none
  read_number (with_number {newer} c c') = rw (append-nil newer) at (
      Rewrites-bind {U = User} (read T') (λ x. pure (some x)) (Rewrites-read T' _ newer c')
        (Rewrites-pure _))

  write_number :
      {b : Bool} {v : Option ℤ} {older newer : List ℕ}
      → Number T T' b v older newer
      → Rewrites {U = User} (write_if b T' v) [] newer tt
  write_number without = Rewrites-pure tt
  write_number (with_number {newer} c c') = Rewrites-write T' _ newer c'

-- An action of a transaction.
pub record Action : Type 0 where
  pub source : Field uvar_int
  pub window_id : Option ℤ
  pub window : List ℕ
  pub window' : List ℕ
  pub has_window_id : Number var_int int8 (has_window source.value) window_id window window'
  pub source_flags : Option ℤ
  pub flags : List ℕ
  pub flags' : List ℕ
  pub has_flags : Number uvar_int uvar_int (is_world source.value) source_flags flags flags'
  pub slot : Field uvar_int
  pub old_item : ItemTwin
  pub new_item : ItemTwin

abbrev pub older_bytes : Action → List ℕ
older_bytes a =
    a.source.bytes
    ++ (a.window ++ (a.flags ++ (a.slot.bytes ++ (a.old_item.older ++ a.new_item.older))))

-- In the newer form each optional number has two flags before it, of which the first is always set.
abbrev pub newer_bytes : Action → List ℕ → List ℕ
newer_bytes a last =
    a.source.bytes
    ++ (1 ∷ (flag (has_window a.source.value)).bytes
        ++ (a.window'
            ++ (1 ∷ (flag (is_world a.source.value)).bytes
                ++ (a.flags' ++ (a.slot.bytes ++ (a.old_item.newer ++ last))))))

abbrev pub action_chunk : Action → Chunk
action_chunk a = changed (older_bytes a) (newer_bytes a a.new_item.newer)

put_flag : (b : Bool) → Rewrites {U = User} (write bool b) [] (flag b).bytes tt
put_flag b = Rewrites-write bool b (flag b).bytes (flag b).coded

take_flag : (b : Bool) → Rewrites {U = User} (read bool) (flag b).bytes [] b
take_flag b = Rewrites-read bool b (flag b).bytes (flag b).coded

action_up :
    (a : Action)
    → Rewrites action_old_to_new (older_bytes a ++ []) (newer_bytes a a.new_item.newer) tt
unfolding action_old_to_new
action_up a =
    (Rewrites-bind (read inventory_action) _ (
        Rewrites-taken inventory_action (
          Reads-inventory_action a.source a.slot (in_older a.has_window_id) (in_older a.has_flags)
            a.old_item.reads a.new_item.reads))
      ▸ Rewrites-bind (write uvar_int a.source.value) _
          (Rewrites-write uvar_int a.source.value a.source.bytes a.source.coded)
      ▸ Rewrites-bind (write bool true) _ (put_flag true)
      ▸ Rewrites-bind (write bool (has_window a.source.value)) _
          (put_flag (has_window a.source.value))
      ▸ Rewrites-bind (write_if (has_window a.source.value) int8 a.window_id) _
          (write_number a.has_window_id)
      ▸ Rewrites-bind (write bool true) _ (put_flag true)
      ▸ Rewrites-bind (write bool (is_world a.source.value)) _ (put_flag (is_world a.source.value))
      ▸ Rewrites-bind (write_if (is_world a.source.value) uvar_int a.source_flags) _
          (write_number a.has_flags)
      ▸ Rewrites-bind (write uvar_int a.slot.value) _
          (Rewrites-write uvar_int a.slot.value a.slot.bytes a.slot.coded)
      ▸ Rewrites-bind (write item_instance_v975 a.old_item.value) _
          (Rewrites-written item_instance_v975 a.old_item.value _ a.old_item.writes)
          (Rewrites-written item_instance_v975 a.new_item.value _ a.new_item.writes))

action_down :
    (a : Action)
    → Rewrites rewrite_action (newer_bytes a (a.new_item.newer ++ [])) (older_bytes a) tt
unfolding rewrite_action
action_down a =
    (Rewrites-bind (read uvar_int) _
        (Rewrites-read uvar_int a.source.value a.source.bytes a.source.coded)
      ▸ Rewrites-bind (read bool) _ (take_flag true)
      ▸ Rewrites-bind (read bool) _ (take_flag (has_window a.source.value))
      ▸ Rewrites-bind (read_if (has_window a.source.value) int8) _ (read_number a.has_window_id)
      ▸ Rewrites-bind (read bool) _ (take_flag true)
      ▸ Rewrites-bind (read bool) _ (take_flag (is_world a.source.value))
      ▸ Rewrites-bind (read_if (is_world a.source.value) uvar_int) _ (read_number a.has_flags)
      ▸ Rewrites-bind (read uvar_int) _
          (Rewrites-read uvar_int a.slot.value a.slot.bytes a.slot.coded)
      ▸ Rewrites-bind (read item_instance_v975) _
          (Rewrites-taken item_instance_v975 a.old_item.reads')
      ▸ Rewrites-bind (read item_instance_v975) _
          (Rewrites-taken item_instance_v975 a.new_item.reads')
          (Rewrites-written inventory_action _ _ (
            Writes-inventory_action a.source a.slot (in_older a.has_window_id)
              (in_older a.has_flags) a.old_item.value' a.new_item.value' a.old_item.writes'
              a.new_item.writes')))

pub action-Swaps : (a : Action) → Swaps action_old_to_new rewrite_action (action_chunk a) tt
action-Swaps a = record {
  upward = rw (append-nil (older_bytes a)) at (action_up a);
  downward = rw (append-nil a.new_item.newer) at (action_down a);
}

-- ===== src/Steps/Slots.antt =====
-- protocol/v944_to_v975/handlers/item_stack.py: the slots of the inventory.
use endweave.Prelude.{
  ◌▸◌, ℕ, Bool, true, false, Bool-cases, inl, inr, some, List, [], ◌∷◌, ◌++◌, pos, eqb_ℤ,
  append-nil, if◌then◌else◌,
}
use endweave.Codec.FieldType.{bool, byte, uint_le, uvar_int}
use endweave.Codec.FieldType.Codes.{Field}
use endweave.Codec.FieldType.Primitives.{Codes-bool}
use endweave.Codec.ItemInstance.{item_instance, item_instance_v975}
use endweave.Codec.Wrapper.{wrap, read, write, when}
use endweave.Codec.Wrapper.Fields.{
  Rewrites, Rewrites-bind, Rewrites-pure, Rewrites-read, Rewrites-write,
}
use endweave.Codec.Wrapper.Whole.{Rewrites-written}
use endweave.Codec.Wrapper.Chunk.{Chunk, changed, chain, only, same, added, twin}
use endweave.Codec.Wrapper.Swaps.{Rewrites-taken}
use endweave.Connection.{User}
use endweave.Protocol.Base.Detect.{Forwards}
use endweave.Steps.Rounds.{Rewrites-Forwards}
use endweave.Steps.Actions.{ItemTwin, flag}
use endweave.Steps.Items.{item-Rewrites, pass}
use endweave.Steps.V944ToV975.Waypoints.{read_id, write_storage, rewrite_inventory_slot}

-- The item of the storage arrives behind a flag, and air not at all.
abbrev pub storage_chunk : ItemTwin → Chunk
storage_chunk t =
    changed t.older (if eqb_ℤ t.value.network_id (pos 0) then 0 ∷ [] else (1 ∷ t.newer))

storage-Rewrites : (t : ItemTwin) → Rewrites (write_storage t.value) [] (storage_chunk t).newer tt
unfolding write_storage
storage-Rewrites t = elim (Bool-cases (eqb_ℤ t.value.network_id (pos 0))) [
  | inl air ↦ rw air (Rewrites-write bool false (0 ∷ []) (Codes-bool false))
  | inr other ↦ rw other (
      Rewrites-bind (write bool true) _ (Rewrites-write bool true (1 ∷ []) (Codes-bool true))
        (Rewrites-written item_instance_v975 t.value _ t.writes))
]

id-Rewrites :
    (b : Bool) (id : Field uint_le)
    → Rewrites (read_id b) (only b (chain (same id ∷ []))).older [] (if b then id.value else pos 0)
id-Rewrites true id = rw (append-nil id.bytes) (Rewrites-read uint_le id.value id.bytes id.coded)
id-Rewrites false id = Rewrites-pure (pos 0)

put_id :
    (b : Bool) (id : Field uint_le)
    → Rewrites {U = User}
        (when b (write uint_le (if b then id.value else pos 0)))
        []
        (only b (chain (same id ∷ []))).newer
        tt
put_id true id = rw (append-nil id.bytes) (Rewrites-write uint_le id.value id.bytes id.coded)
put_id false id = Rewrites-pure tt

-- InventorySlot with its fields coded: the handler returns, does not cancel and leaves the connection.
-- The name of the container is forwarded behind a set flag; the item of the storage, unless it is air,
-- behind a set flag in the newer form, and as a false flag if it is; the item of the slot in the newer
-- form. The numbers of the window and the slot, and what follows, stay.
pub rewrite_inventory_slot_lem :
    (window slot : Field uvar_int) (container : Field byte) (dynamic : Field bool)
    (id : Field uint_le) (storage item : ItemTwin) (rest : List ℕ) (u : User)
    → let packet = chain (
        same window
        ∷ same slot
        ∷ added (flag true)
        ∷ same container
        ∷ same dynamic
        ∷ only dynamic.value (chain (same id ∷ []))
        ∷ storage_chunk storage
        ∷ twin item
        ∷ []) in
      Forwards
        (rewrite_inventory_slot (wrap (packet.older ++ rest) (some u)))
        (packet.newer ++ rest)
        u
unfolding rewrite_inventory_slot
rewrite_inventory_slot_lem window slot container dynamic id storage item rest u =
    Rewrites-Forwards rewrite_inventory_slot rest u (
      pass window _
      ▸ pass slot _
      ▸ Rewrites-bind (read byte) _
          (Rewrites-read byte container.value container.bytes container.coded)
      ▸ Rewrites-bind (read bool) _ (Rewrites-read bool dynamic.value dynamic.bytes dynamic.coded)
      ▸ Rewrites-bind (read_id dynamic.value) _ (id-Rewrites dynamic.value id)
      ▸ Rewrites-bind (write bool true) _ (Rewrites-write bool true (1 ∷ []) (Codes-bool true))
      ▸ Rewrites-bind (write byte container.value) _
          (Rewrites-write byte container.value container.bytes container.coded)
      ▸ Rewrites-bind (write bool dynamic.value) _
          (Rewrites-write bool dynamic.value dynamic.bytes dynamic.coded)
      ▸ Rewrites-bind (when dynamic.value (write uint_le _)) _ (put_id dynamic.value id)
      ▸ Rewrites-bind (read item_instance) _ (Rewrites-taken item_instance storage.reads)
      ▸ Rewrites-bind (write_storage storage.value) _ (storage-Rewrites storage)
          (item-Rewrites item))

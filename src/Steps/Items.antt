-- ===== src/Steps/Items.antt =====
-- protocol/v975_to_v1001/handlers/item_stack.py: what the client gets.
use endweave.Prelude.{◌▸◌, ℕ, ◌^◌, ◌<◌, Bool, true, false, some, List, [], ◌∷◌, ◌++◌, length}
use endweave.Exec.{Exec, ◌>>=◌, repeat}
use endweave.Codec.FieldType.{FieldType, bool, byte, uint_le, uvar_int, uvar_int64}
use endweave.Codec.FieldType.Codes.{Field}
use endweave.Codec.ItemInstance.{item_instance, item_instance_v975}
use endweave.Codec.Wrapper.{PacketWrapper, wrap, map, passthrough, when}
use endweave.Codec.Wrapper.Fields.{Rewrites, Rewrites-bind, Rewrites-pure, Rewrites-passthrough}
use endweave.Codec.Wrapper.Chunk.{Chunk, chain, each, only, same, twin, counted}
use endweave.Codec.Wrapper.Swaps.{Rewrites-mapped}
use endweave.Codec.Wrapper.Flow.{Rewrites-each}
use endweave.Connection.{User}
use endweave.Protocol.{PacketHandler}
use endweave.Protocol.Base.Detect.{Forwards}
use endweave.Steps.Rounds.{Rewrites-Forwards}
use endweave.Steps.Actions.{ItemTwin}
use endweave.Steps.V975ToV1001.ItemStack.{
  item, dynamic_id, rewrite_inventory_content, rewrite_mob_armour_equipment,
}

abbrev pub item_chunk : ItemTwin → Chunk
item_chunk t = chain (twin t ∷ [])

pub item-Rewrites : (t : ItemTwin) → Rewrites item (item_chunk t).older (item_chunk t).newer tt
item-Rewrites t =
    Rewrites-bind (map item_instance item_instance_v975) _
      (Rewrites-mapped item_instance item_instance_v975 t.reads t.writes) (Rewrites-pure tt)

-- A field that is passed on, and what follows it.
pub pass :
    {A B : Type 0} {T : FieldType A} (field : Field T) (f : A → Exec (PacketWrapper User) B)
    {old new : List ℕ} {v : B}
    → Rewrites (f field.value) old new v
    → Rewrites (passthrough T >>= f) (field.bytes ++ old) (field.bytes ++ new) v
pass {T = T} field f =
    Rewrites-bind (passthrough T) f (Rewrites-passthrough T field.value field.bytes field.coded)

pub when-Rewrites :
    (b : Bool) (m : PacketHandler) (c : Chunk)
    → Rewrites m c.older c.newer tt
    → Rewrites (when b m) (only b c).older (only b c).newer tt
when-Rewrites true m c r = r
when-Rewrites false m c r = Rewrites-pure tt

-- InventoryContent of fewer than 2 ** 32 items with its fields coded: the handler returns, does not
-- cancel and leaves the connection. Every item, and the item of the storage, is forwarded in the
-- newer form; all other fields, the optional number of the container among them, and what follows
-- stay.
pub rewrite_inventory_content_lem :
    (window : Field uvar_int) (items : List ItemTwin) (few : length items < 2 ^ 32)
    (container : Field byte) (dynamic : Field bool) (id : Field uint_le) (storage : ItemTwin)
    (rest : List ℕ) (u : User)
    → let packet = chain (
        same window
        ∷ same (counted (length items) few)
        ∷ each item_chunk items
        ∷ same container
        ∷ same dynamic
        ∷ only dynamic.value (chain (same id ∷ []))
        ∷ twin storage
        ∷ []) in
      Forwards
        (rewrite_inventory_content (wrap (packet.older ++ rest) (some u)))
        (packet.newer ++ rest)
        u
unfolding rewrite_inventory_content
rewrite_inventory_content_lem window items few container dynamic id storage rest u =
    Rewrites-Forwards rewrite_inventory_content rest u (
      pass window _
      ▸ pass (counted (length items) few) _
      ▸ Rewrites-bind (repeat (length items) item) _
          (Rewrites-each item item_chunk item-Rewrites items)
      ▸ pass container _
      ▸ pass dynamic _
      ▸ Rewrites-bind (when dynamic.value dynamic_id) _
          (when-Rewrites dynamic.value dynamic_id (chain (same id ∷ []))
            (pass id _ (Rewrites-pure tt)))
          (item-Rewrites storage))

-- MobArmourEquipment: the five items are written in the newer form.
pub rewrite_mob_armour_equipment_lem :
    (entity : Field uvar_int64) (helmet chestplate leggings boots body : ItemTwin) (rest : List ℕ)
    (u : User)
    → let packet =
        chain (
          same entity
          ∷ each item_chunk (helmet ∷ chestplate ∷ leggings ∷ boots ∷ body ∷ [])
          ∷ []) in
      Forwards
        (rewrite_mob_armour_equipment (wrap (packet.older ++ rest) (some u)))
        (packet.newer ++ rest)
        u
unfolding rewrite_mob_armour_equipment
rewrite_mob_armour_equipment_lem entity helmet chestplate leggings boots body rest u =
    Rewrites-Forwards rewrite_mob_armour_equipment rest u (
      pass entity _
      ▸ Rewrites-bind (repeat 5 item) _
          (Rewrites-each item item_chunk item-Rewrites
            (helmet ∷ chestplate ∷ leggings ∷ boots ∷ body ∷ []))
          (Rewrites-pure tt))

-- ===== src/Steps/Transactions.antt =====
-- protocol/v975_to_v1001/handlers/inventory_transaction.py: transactions, to the client and back.
use endweave.Prelude.{
  ◌▸◌, ◌^◌, ◌<◌, Bool, true, not, List, [], ◌∷◌, length, pos, eqb_ℤ, if◌then◌else◌,
}
use endweave.Codec.FieldType.{block_pos, byte, int8, uvar_int, uvar_int64, var_int, vec3}
use endweave.Codec.FieldType.Codes.{Field}
use endweave.Codec.Wrapper.Chunk.{Chunk, chain, each, only, same, added, Twin, twin, counted}
use endweave.Codec.Wrapper.Swaps.{Swaps, Swaps-pure, Swaps-same, Swaps-twin, Swaps-added}
use endweave.Codec.Wrapper.Flow.{Swaps-loop, Swaps-end, Swaps-if, Swaps-when, Swaps-branch}
use endweave.Codec.Wrapper.Changes.{Swaps-recoded}
use endweave.Steps.Rounds.{Rounds, Swaps-Rounds}
use endweave.Steps.Legacy.{LegacySlots, legacy_chunk, legacy-Swaps}
use endweave.Steps.V975ToV1001.Transaction.{
  rewrite_action, action_old_to_new, rewrite_use_item, rewrite_use_item_on_entity,
  rewrite_release_item, use_item_old_to_new, use_item_on_entity_old_to_new, release_item_old_to_new,
  rewrite_inventory_transaction, rewrite_inventory_transaction_clientbound,
}
use endweave.Steps.Actions.{ItemTwin, flag, Action, action_chunk, action-Swaps}

-- The use of an item, and its use on an entity, and its release.
pub record UseItem : Type 0 where
  pub action_type : Twin uvar_int var_int
  pub trigger_type : Twin uvar_int byte
  pub block_position : Field block_pos
  pub block_face : Twin var_int int8
  pub hot_bar_slot : Field var_int
  pub held_item : ItemTwin
  pub position : Field vec3
  pub clicked_position : Field vec3
  pub block_runtime_id : Field uvar_int
  pub client_prediction : Twin uvar_int byte
  pub cooldown : Field byte

abbrev pub use_item_chunk : UseItem → Chunk
use_item_chunk i = chain (
    twin i.action_type
    ∷ twin i.trigger_type
    ∷ same i.block_position
    ∷ twin i.block_face
    ∷ same i.hot_bar_slot
    ∷ twin i.held_item
    ∷ same i.position
    ∷ same i.clicked_position
    ∷ same i.block_runtime_id
    ∷ twin i.client_prediction
    ∷ same i.cooldown
    ∷ [])

use_item-Swaps : (i : UseItem) → Swaps use_item_old_to_new rewrite_use_item (use_item_chunk i) tt
unfolding use_item_old_to_new rewrite_use_item
use_item-Swaps i =
    Swaps-recoded i.action_type _ _
    ▸ Swaps-recoded i.trigger_type _ _
    ▸ Swaps-same i.block_position _ _
    ▸ Swaps-recoded i.block_face _ _
    ▸ Swaps-same i.hot_bar_slot _ _
    ▸ Swaps-twin i.held_item _ _
    ▸ Swaps-same i.position _ _
    ▸ Swaps-same i.clicked_position _ _
    ▸ Swaps-same i.block_runtime_id _ _
    ▸ Swaps-recoded i.client_prediction _ _
    ▸ Swaps-same i.cooldown _ _
    ▸ Swaps-pure tt

pub record UseItemOnEntity : Type 0 where
  pub entity : Field uvar_int64
  pub action_type : Twin uvar_int var_int
  pub hot_bar_slot : Field var_int
  pub held_item : ItemTwin
  pub position : Field vec3
  pub clicked_position : Field vec3

abbrev pub on_entity_chunk : UseItemOnEntity → Chunk
on_entity_chunk i = chain (
    same i.entity
    ∷ twin i.action_type
    ∷ same i.hot_bar_slot
    ∷ twin i.held_item
    ∷ same i.position
    ∷ same i.clicked_position
    ∷ [])

on_entity-Swaps :
    (i : UseItemOnEntity)
    → Swaps use_item_on_entity_old_to_new rewrite_use_item_on_entity (on_entity_chunk i) tt
unfolding use_item_on_entity_old_to_new rewrite_use_item_on_entity
on_entity-Swaps i =
    Swaps-same i.entity _ _
    ▸ Swaps-recoded i.action_type _ _
    ▸ Swaps-same i.hot_bar_slot _ _
    ▸ Swaps-twin i.held_item _ _
    ▸ Swaps-same i.position _ _
    ▸ Swaps-same i.clicked_position _ _
    ▸ Swaps-pure tt

pub record ReleaseItem : Type 0 where
  pub action_type : Twin uvar_int var_int
  pub hot_bar_slot : Field var_int
  pub held_item : ItemTwin
  pub head_position : Field vec3

abbrev pub release_chunk : ReleaseItem → Chunk
release_chunk i =
    chain (twin i.action_type ∷ same i.hot_bar_slot ∷ twin i.held_item ∷ same i.head_position ∷ [])

release-Swaps :
    (i : ReleaseItem) → Swaps release_item_old_to_new rewrite_release_item (release_chunk i) tt
unfolding release_item_old_to_new rewrite_release_item
release-Swaps i =
    Swaps-recoded i.action_type _ _
    ▸ Swaps-same i.hot_bar_slot _ _
    ▸ Swaps-twin i.held_item _ _
    ▸ Swaps-same i.head_position _ _
    ▸ Swaps-pure tt

-- The fields of the packet; what follows the actions depends on the type.
pub record Transaction : Type 0 where
  pub request : Field var_int
  pub slots : List LegacySlots
  pub few : length slots < 2 ^ 32
  pub type : Field uvar_int
  pub actions : List Action
  pub few' : length actions < 2 ^ 32
  pub use_item : UseItem
  pub on_entity : UseItemOnEntity
  pub release : ReleaseItem

abbrev pub is_request : Transaction → Bool
is_request t = not (eqb_ℤ t.request.value (pos 0))

abbrev pub transaction_chunks : Transaction → List Chunk
transaction_chunks t =
    same t.request
    ∷ added (flag (is_request t))
    ∷ only (is_request t) (legacy_chunk t.slots t.few)
    ∷ added (flag true)
    ∷ same t.type
    ∷ added (flag true)
    ∷ same (counted (length t.actions) t.few')
    ∷ each action_chunk t.actions
    ∷ (if eqb_ℤ t.type.value (pos 2)
        then use_item_chunk t.use_item
        else if eqb_ℤ t.type.value (pos 3)
        then on_entity_chunk t.on_entity
        else only (eqb_ℤ t.type.value (pos 4)) (release_chunk t.release))
    ∷ []

-- InventoryTransaction in every form, with its fields coded in both versions: the clientbound handler
-- returns, does not cancel, leaves the connection, and forwards the newer form: flags before the
-- slots, the type, the actions and the optional numbers of each action, newer items, and the numbers
-- of the use, the use on an entity or the release in their newer widths. The serverbound handler does
-- the same with that form, and forwards the older bytes. What follows stays.
pub transaction_round :
    (t : Transaction)
    → Rounds rewrite_inventory_transaction_clientbound rewrite_inventory_transaction
        (transaction_chunks t)
unfolding rewrite_inventory_transaction_clientbound rewrite_inventory_transaction
transaction_round t = Swaps-Rounds _ _ _ (
    Swaps-same t.request _ _
    ▸ Swaps-added (flag (is_request t)) _ _
    ▸ Swaps-if (is_request t) _ _ _ _ (legacy-Swaps t.slots t.few)
    ▸ Swaps-added (flag true) _ _
    ▸ Swaps-same t.type _ _
    ▸ Swaps-added (flag true) _ _
    ▸ Swaps-same (counted (length t.actions) t.few') _ _
    ▸ Swaps-loop action_old_to_new rewrite_action action_chunk action-Swaps t.actions _ _
    ▸ Swaps-end
    ▸ Swaps-branch (eqb_ℤ t.type.value (pos 2)) (use_item-Swaps t.use_item)
    ▸ Swaps-branch (eqb_ℤ t.type.value (pos 3)) (on_entity-Swaps t.on_entity)
    ▸ Swaps-when (eqb_ℤ t.type.value (pos 4)) _ _ (release-Swaps t.release))

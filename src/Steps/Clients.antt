-- ===== src/Steps/Clients.antt =====
-- protocol/v924_to_v944/handlers/block_pos.py and protocol/v944_to_v924/handlers/block_pos.py: the
-- packets of the client, there and back. The step that takes a packet of the older version is that of
-- the server of v944.
use endweave.Prelude.{◌▸◌, ◌^◌, ◌<◌, not, List, [], ◌∷◌, length, pos, eqb_ℤ, arith}
use endweave.Codec.FieldType.{byte, bool, var_int, uvar_int, uvar_int64, string, vec3}
use endweave.Codec.FieldType.Codes.{Field}
use endweave.Codec.FieldType.Primitives.{Codes-byte}
use endweave.Codec.ItemInstance.{item_instance}
use endweave.Codec.InventoryAction.{inventory_action}
use endweave.Codec.StructureSettings.{structure_settings_v924, structure_settings_v944}
use endweave.Codec.Wrapper.Chunk.{Chunk, added, chain, each, only, same, Twin, twin, counted}
use endweave.Codec.Wrapper.Swaps.{Swaps, Swaps-pure, Swaps-same, Swaps-twin}
use endweave.Codec.Wrapper.Flow.{Swaps-loop, Swaps-end, Swaps-if, Swaps-when}
use endweave.Codec.Wrapper.Changes.{Swaps-added-last}
use endweave.Steps.Rounds.{Rounds, Swaps-Rounds}
use endweave.Steps.Positions.{PositionTwin}
use endweave.Steps.V924ToV944.Serverbound as Down
use endweave.Steps.V944ToV924.Serverbound as Up
use endweave.Steps.Legacy.{LegacySlots, legacy_chunk, legacy-Swaps}

first-Swaps :
    (position : PositionTwin)
    → Swaps Up.rewrite_first_net_to_block Down.rewrite_first_block_to_net_block
        (chain (twin position ∷ []))
        tt
unfolding Up.rewrite_first_net_to_block Down.rewrite_first_block_to_net_block
first-Swaps position = Swaps-twin position _ _ ▸ Swaps-pure tt

-- BlockActorData: its position, there and back.
pub block_actor_data_round :
    (position : PositionTwin)
    → Rounds Up.rewrite_first_net_to_block Down.rewrite_first_block_to_net_block
        (twin position ∷ [])
block_actor_data_round position = Swaps-Rounds _ _ _ (first-Swaps position)

-- PlayerAction: both positions, there and back.
pub player_action_round :
    (player : Field uvar_int64) (action : Field uvar_int) (position result : PositionTwin)
    → Rounds Up.rewrite_player_action Down.rewrite_player_action
        (same player ∷ same action ∷ twin position ∷ twin result ∷ [])
unfolding Up.rewrite_player_action Down.rewrite_player_action
player_action_round player action position result = Swaps-Rounds _ _ _ (
    Swaps-same player _ _
    ▸ Swaps-same action _ _
    ▸ Swaps-twin position _ _
    ▸ Swaps-twin result _ _
    ▸ Swaps-pure tt)

-- CommandBlockUpdate: the position is there only for a block.
pub command_block_update_round :
    (is_block : Field bool) (position : PositionTwin)
    → Rounds Up.rewrite_command_block_update Down.rewrite_command_block_update
        (same is_block ∷ only is_block.value (chain (twin position ∷ [])) ∷ [])
unfolding Up.rewrite_command_block_update Down.rewrite_command_block_update
command_block_update_round is_block position =
    Swaps-Rounds _ _ _
      (Swaps-same is_block _ _ ▸ Swaps-end ▸ Swaps-when is_block.value _ _ (first-Swaps position))

-- AnvilDamage: its position, there and back.
pub anvil_damage_round :
    (damage : Field byte) (position : PositionTwin)
    → Rounds Up.rewrite_anvil_damage Down.rewrite_anvil_damage (same damage ∷ twin position ∷ [])
unfolding Up.rewrite_anvil_damage Down.rewrite_anvil_damage
anvil_damage_round damage position =
    Swaps-Rounds _ _ _ (Swaps-same damage _ _ ▸ Swaps-twin position _ _ ▸ Swaps-pure tt)

-- The settings of a structure in both forms.
abbrev pub SettingsTwin : Type 0
SettingsTwin = Twin structure_settings_v924 structure_settings_v944

-- StructureBlockUpdate: its position and the settings of the structure, there and back.
pub structure_block_update_round :
    (position : PositionTwin) (name data_field : Field string) (players box : Field bool)
    (type : Field var_int) (settings : SettingsTwin)
    → Rounds Up.rewrite_structure_block_update Down.rewrite_structure_block_update (
        twin position
        ∷ same name
        ∷ same data_field
        ∷ same players
        ∷ same box
        ∷ same type
        ∷ twin settings
        ∷ [])
unfolding Up.rewrite_structure_block_update Down.rewrite_structure_block_update
structure_block_update_round position name data_field players box type settings =
    Swaps-Rounds _ _ _ (
      Swaps-twin position _ _
      ▸ Swaps-same name _ _
      ▸ Swaps-same data_field _ _
      ▸ Swaps-same players _ _
      ▸ Swaps-same box _ _
      ▸ Swaps-same type _ _
      ▸ Swaps-twin settings _ _
      ▸ Swaps-pure tt)

-- StructureTemplateDataRequest: its position and the settings of the structure, there and back.
pub structure_template_data_request_round :
    (name : Field string) (position : PositionTwin) (settings : SettingsTwin)
    → Rounds Up.rewrite_structure_template_data_request Down.rewrite_structure_template_data_request
        (same name ∷ twin position ∷ twin settings ∷ [])
unfolding Up.rewrite_structure_template_data_request Down.rewrite_structure_template_data_request
structure_template_data_request_round name position settings =
    Swaps-Rounds _ _ _
      (Swaps-same name _ _ ▸ Swaps-twin position _ _ ▸ Swaps-twin settings _ _ ▸ Swaps-pure tt)

abbrev pub action_chunk : Field inventory_action → Chunk
action_chunk a = chain (same a ∷ [])

action-Swaps : (a : Field inventory_action) → Swaps Up.action Down.action (action_chunk a) tt
action-Swaps a = Swaps-same a _ _ ▸ Swaps-pure tt

-- The use of an item.
pub record UseItem : Type 0 where
  pub action_type : Field uvar_int
  pub trigger_type : Field uvar_int
  pub block_position : PositionTwin
  pub block_face : Field var_int
  pub hot_bar_slot : Field var_int
  pub held_item : Field item_instance
  pub position : Field vec3
  pub clicked_position : Field vec3
  pub block_runtime_id : Field uvar_int
  pub client_prediction : Field uvar_int

abbrev pub zero_byte : Field byte
zero_byte = record { value = pos 0; bytes = 0 ∷ []; coded = Codes-byte 0 (omega arith) }

-- The newer version has the state of the cooldown at the end, which is 0.
abbrev pub use_item_chunk : UseItem → Chunk
use_item_chunk use_ = chain (
    same use_.action_type
    ∷ same use_.trigger_type
    ∷ twin use_.block_position
    ∷ same use_.block_face
    ∷ same use_.hot_bar_slot
    ∷ same use_.held_item
    ∷ same use_.position
    ∷ same use_.clicked_position
    ∷ same use_.block_runtime_id
    ∷ same use_.client_prediction
    ∷ added zero_byte
    ∷ [])

use_item-Swaps : (use_ : UseItem) → Swaps Up.use_item Down.use_item (use_item_chunk use_) tt
unfolding Up.use_item Down.use_item
use_item-Swaps use_ =
    Swaps-same use_.action_type _ _
    ▸ Swaps-same use_.trigger_type _ _
    ▸ Swaps-twin use_.block_position _ _
    ▸ Swaps-same use_.block_face _ _
    ▸ Swaps-same use_.hot_bar_slot _ _
    ▸ Swaps-same use_.held_item _ _
    ▸ Swaps-same use_.position _ _
    ▸ Swaps-same use_.clicked_position _ _
    ▸ Swaps-same use_.block_runtime_id _ _
    ▸ Swaps-same use_.client_prediction _ _
    ▸ Swaps-added-last zero_byte

-- The fields of the packet.
pub record Transaction : Type 0 where
  pub request : Field var_int
  pub slots : List LegacySlots
  pub few : length slots < 2 ^ 32
  pub type : Field uvar_int
  pub actions : List (Field inventory_action)
  pub few' : length actions < 2 ^ 32
  pub use_item : UseItem

-- The legacy slots are there only for a request, and the use of an item only for that type.
abbrev pub transaction_chunks : Transaction → List Chunk
transaction_chunks t =
    same t.request
    ∷ only (not (eqb_ℤ t.request.value (pos 0))) (legacy_chunk t.slots t.few)
    ∷ same t.type
    ∷ same (counted (length t.actions) t.few')
    ∷ each action_chunk t.actions
    ∷ only (eqb_ℤ t.type.value (pos 2)) (use_item_chunk t.use_item)
    ∷ []

-- InventoryTransaction: the position of the use of an item, and a cooldown that the older version
-- does not have, there and back; other transactions stay as they are.
pub inventory_transaction_round :
    (t : Transaction)
    → Rounds Up.rewrite_inventory_transaction Down.rewrite_inventory_transaction
        (transaction_chunks t)
unfolding Up.rewrite_inventory_transaction Down.rewrite_inventory_transaction
inventory_transaction_round t = Swaps-Rounds _ _ _ (
    Swaps-same t.request _ _
    ▸ Swaps-if (not (eqb_ℤ t.request.value (pos 0))) _ _ _ _ (legacy-Swaps t.slots t.few)
    ▸ Swaps-same t.type _ _
    ▸ Swaps-same (counted (length t.actions) t.few') _ _
    ▸ Swaps-loop Up.action Down.action action_chunk action-Swaps t.actions _ _
    ▸ Swaps-end
    ▸ Swaps-when (eqb_ℤ t.type.value (pos 2)) _ _ (use_item-Swaps t.use_item))

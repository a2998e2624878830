-- ===== src/Steps/V944ToV975.antt =====
-- protocol/v944_to_v975/protocol.py: the step's table of handlers. Those of crafting_data.py and of
-- clientbound_attribute_layer_sync.py are given.
pub mod Added
pub mod Waypoints
pub mod StartGame
use endweave.Prelude.{ℕ, none, false, [], ◌∷◌, pos, ℤ}
use endweave.Protocol.{
  Protocol, PacketHandler, Direction, serverbound, clientbound, create, cancel_packets,
}
use endweave.Protocol.MappingData.{shift_up}
use endweave.Rewriter.Sound
use endweave.Rewriter.Sound.{SoundRewriter, level_sound_event}
use endweave.Steps.Mappings.{v944_v975}
use endweave.Steps.PacketIds as PacketId
use endweave.Steps.Tables.{register_each}

abbrev pub sound : SoundRewriter
sound = record {
  sound_remap = shift_up v944_v975.sound;
  int_remappers = (v944_v975.actor_data_sound_key, shift_up v944_v975.sound) ∷ [];
  dropped_keys = [];
}

unfoldable pub create_protocol :
    (rewrite_crafting_data rewrite_attribute_layer_sync : PacketHandler) → Protocol
create_protocol rewrite_crafting_data rewrite_attribute_layer_sync =
    let p = create (pos 944) (pos 975) none false in
    let p = Sound.register sound p in
    let p =
      register_each clientbound
        ((level_sound_event, Added.rewrite_level_sound_event)
          ∷ (PacketId.start_game, StartGame.rewrite_start_game)
          ∷ (PacketId.actor_event, Added.rewrite_actor_event clientbound)
          ∷ (PacketId.play_sound, Added.rewrite_play_sound)
          ∷ (PacketId.inventory_slot, Waypoints.rewrite_inventory_slot)
          ∷ (PacketId.player_equipment, Waypoints.rewrite_mob_equipment clientbound)
          ∷ (PacketId.crafting_data, rewrite_crafting_data)
          ∷ (PacketId.player_enchant_options, Added.rewrite_player_enchant_options)
          ∷ (PacketId.locator_bar, Waypoints.rewrite_locator_bar)
          ∷ (PacketId.attribute_layer_sync, rewrite_attribute_layer_sync)
          ∷ [])
        p in
    let p =
      register_each serverbound
        ((PacketId.player_equipment, Waypoints.rewrite_mob_equipment serverbound)
          ∷ (PacketId.update_client_options, Added.rewrite_update_client_options)
          ∷ (
            PacketId.client_movement_prediction_sync, Added.rewrite_client_movement_prediction_sync,
          )
          ∷ (PacketId.actor_event, Added.rewrite_actor_event serverbound)
          ∷ (PacketId.party_changed, Added.rewrite_party_changed)
          ∷ [])
        p in
    let p = cancel_packets clientbound (PacketId.server_script_debug_drawer ∷ []) p in
    cancel_packets serverbound (PacketId.serverbound_diagnostics ∷ []) p

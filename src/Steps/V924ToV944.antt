-- ===== src/Steps/V924ToV944.antt =====
-- protocol/v924_to_v944/protocol.py: the step's table of handlers.
pub mod Clientbound
pub mod Serverbound
pub mod StartGame
pub mod Camera
pub mod Screens
use endweave.Prelude.{ℕ, none, some, false, [], ◌∷◌, Option, pos, ℤ}
use endweave.Protocol
use endweave.Protocol.{
  Protocol, PacketHandler, Direction, serverbound, clientbound, create, cancel_packets,
}
use endweave.Protocol.MappingData.{shift_up}
use endweave.Rewriter.Sound
use endweave.Rewriter.Sound.{SoundRewriter}
use endweave.Steps.Mappings.{v924_v944}
use endweave.Steps.PacketIds as PacketId
use endweave.Steps.Tables.{register_each}
use endweave.Steps.V924ToV944.Clientbound as Blocks
use endweave.Steps.V924ToV944.Serverbound as Client

abbrev pub sound : SoundRewriter
sound = record {
  sound_remap = shift_up v924_v944.sound;
  int_remappers = (v924_v944.actor_data_sound_key, shift_up v924_v944.sound) ∷ [];
  dropped_keys = [];
}

unfoldable pub create_protocol : Protocol
create_protocol =
    let p = create (pos 924) (pos 944) none false in
    let p =
      cancel_packets serverbound
        (PacketId.editor_network ∷ PacketId.resource_packs_ready_for_validation
          ∷ PacketId.party_changed ∷ PacketId.data_driven_screen_closed ∷ [])
        p in
    let p = cancel_packets clientbound (PacketId.editor_network ∷ []) p in
    let p =
      register_each clientbound
        ((PacketId.start_game, StartGame.rewrite_start_game)
          ∷ (PacketId.update_block, Blocks.rewrite_first_net_block_to_block)
          ∷ (PacketId.tile_event, Blocks.rewrite_tile_event)
          ∷ (PacketId.set_spawn_position, Blocks.rewrite_set_spawn_position)
          ∷ (PacketId.block_actor_data, Blocks.rewrite_first_net_block_to_block)
          ∷ (PacketId.update_block_synced, Blocks.rewrite_first_net_block_to_block)
          ∷ (PacketId.lectern_update, Blocks.rewrite_lectern_update clientbound)
          ∷ (PacketId.add_volume_entity, Blocks.rewrite_add_volume_entity)
          ∷ (PacketId.update_sub_chunk_blocks, Blocks.rewrite_update_sub_chunk_blocks)
          ∷ (PacketId.open_sign, Blocks.rewrite_first_net_block_to_block)
          ∷ (PacketId.play_sound, Blocks.rewrite_play_sound)
          ∷ (PacketId.map_data, Blocks.rewrite_map_data)
          ∷ (PacketId.player_client_input_permissions, Blocks.rewrite_update_client_input_locks)
          ∷ (PacketId.voxel_shapes, Screens.rewrite_voxel_shapes)
          ∷ (PacketId.show_screen, Screens.rewrite_show_screen)
          ∷ (PacketId.close_all_screens, Screens.rewrite_close_all_screens)
          ∷ (PacketId.camera_instruction, Camera.rewrite_camera_instruction)
          ∷ (PacketId.camera_spline, Camera.rewrite_camera_spline)
          ∷ (PacketId.container_open, Blocks.rewrite_container_open)
          ∷ [])
        p in
    let p = Sound.register sound p in
    register_each serverbound
      ((PacketId.lectern_update, Blocks.rewrite_lectern_update serverbound)
        ∷ (PacketId.inventory_transaction, Client.rewrite_inventory_transaction)
        ∷ (PacketId.player_action, Client.rewrite_player_action)
        ∷ (PacketId.command_block_update, Client.rewrite_command_block_update)
        ∷ (PacketId.structure_block_update, Client.rewrite_structure_block_update)
        ∷ (
          PacketId.structure_template_data_export_request,
          Client.rewrite_structure_template_data_request,
        )
        ∷ (PacketId.block_actor_data, Client.rewrite_first_block_to_net_block)
        ∷ (PacketId.anvil_damage, Client.rewrite_anvil_damage)
        ∷ [])
      p

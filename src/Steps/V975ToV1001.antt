-- ===== src/Steps/V975ToV1001.antt =====
-- protocol/v975_to_v1001/protocol.py: the step's table of handlers.
pub mod SoundNames
pub mod LevelSound
pub mod Chunks
pub mod ItemStack
pub mod StartGame
pub mod BossEvent
pub mod Transaction
use endweave.Prelude.{ℕ, some, false, [], ◌∷◌, pos, ℤ}
use endweave.Protocol.{
  Protocol, PacketHandler, Direction, serverbound, clientbound, create, cancel_packets,
}
use endweave.Rewriter.Sound.{level_sound_event}
use endweave.Steps.PacketIds as PacketId
use endweave.Steps.Tables.{register_each}

-- `PARTY_DESTINATION_COOKIE_RESPONSE`
abbrev pub party_destination_cookie_response : ℕ
party_destination_cookie_response = 350

unfoldable pub create_protocol : Protocol
create_protocol =
    let p = create (pos 975) (pos 1001) (some "v975_to_v1001") false in
    let p =
      register_each clientbound
        ((PacketId.start_game, StartGame.rewrite_start_game)
          ∷ (PacketId.inventory_content, ItemStack.rewrite_inventory_content)
          ∷ (PacketId.mob_armor_equipment, ItemStack.rewrite_mob_armour_equipment)
          ∷ (level_sound_event, LevelSound.rewrite_level_sound_event clientbound)
          ∷ (PacketId.boss_event, BossEvent.rewrite_boss_event)
          ∷ (PacketId.full_chunk_data, Chunks.rewrite_level_chunk)
          ∷ (PacketId.inventory_transaction, Transaction.rewrite_inventory_transaction_clientbound)
          ∷ [])
        p in
    let p =
      register_each serverbound
        ((level_sound_event, LevelSound.rewrite_level_sound_event serverbound)
          ∷ (PacketId.inventory_transaction, Transaction.rewrite_inventory_transaction)
          ∷ (PacketId.client_cache_blob_status, Chunks.rewrite_client_cache_blob_status)
          ∷ (PacketId.sub_chunk_request, Chunks.rewrite_sub_chunk_request)
          ∷ (PacketId.boss_event, BossEvent.rewrite_boss_event_serverbound)
          ∷ (PacketId.serverbound_diagnostics, Chunks.rewrite_diagnostics)
          ∷ [])
        p in
    cancel_packets serverbound (party_destination_cookie_response ∷ []) p

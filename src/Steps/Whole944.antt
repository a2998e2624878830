-- ===== src/Steps/Whole944.antt =====
-- protocol/v924_to_v944/protocol.py and protocol/v944_to_v924/protocol.py: the two steps, as
-- `Protocol.transform` runs them.
use endweave.Prelude.{ℕ, ◌^◌, ◌<◌, List, [], ◌∷◌, length, lookup, insert, contains}
use endweave.Codec.FieldType.{byte, bool, uvar_int, var_int, uvar_int64, string, vec3}
use endweave.Codec.FieldType.Codes.{Field}
use endweave.Codec.Nbt.{compound_tag_type}
use endweave.Codec.Wrapper.Chunk.{Chunk, changed, chain, each, only, same, twin, dropped, counted}
use endweave.Protocol
use endweave.Protocol.{Protocol, serverbound, clientbound, transform}
use endweave.Rewriter.Sound
use endweave.Codec.Leb128.{groups}
use endweave.Codec.Zigzag.{place, IsInt}
use endweave.Steps.Rounds.{Rounds}
use endweave.Steps.PacketIds as PacketId
use endweave.Steps.Tables.{register_each}
use endweave.Steps.Positions.{
  shifted, tile_event_round, PositionTwin, ChangedBlock, changed_block_chunk, first_position_round,
  set_spawn_position_round, add_volume_entity_round, update_sub_chunk_blocks_round,
  lectern_update_round, play_sound_round, container_open_round,
}
use endweave.Steps.Maps.{MapData, map_data_chunks, map_data_round}
use endweave.Steps.Cameras.{
  NamedSpline, named_spline_chunk, CameraInstruction, camera_instruction_chunks,
  camera_spline_round, camera_instruction_round,
}
use endweave.Steps.Start.{StartGame, start_game_chunks, start_game_round}
use endweave.Steps.Clients.{
  SettingsTwin, Transaction, transaction_chunks, block_actor_data_round, player_action_round,
  command_block_update_round, anvil_damage_round, structure_block_update_round,
  structure_template_data_request_round, inventory_transaction_round,
}
use endweave.Steps.Appended.{zero_vec, update_client_input_locks_round}
use endweave.Steps.V924ToV944 as Up
use endweave.Steps.V944ToV924 as Down

-- The packets of a server of v924 that the steps rewrite field by field.
pub data ServerPacket : Type 0 where
  update_block : (position : PositionTwin) → ServerPacket
  block_actor_data : (position : PositionTwin) → ServerPacket
  update_block_synced : (position : PositionTwin) → ServerPacket
  open_sign : (position : PositionTwin) → ServerPacket
  set_spawn_position :
      (type : Field uvar_int)
      → (position : PositionTwin) → (dimension : Field var_int) → (spawn : PositionTwin)
      → ServerPacket
  lectern_update : (page pages : Field byte) → (position : PositionTwin) → ServerPacket
  add_volume_entity :
      (entity : Field uvar_int)
      → (components : Field compound_tag_type) → (json name : Field string)
      → (least greatest : PositionTwin) → ServerPacket
  update_sub_chunk_blocks :
      (position : PositionTwin)
      → (standards extras : List ChangedBlock) → (few : length standards < 2 ^ 32)
      → (few' : length extras < 2 ^ 32) → ServerPacket
  play_sound : (name : Field string) → (position : PositionTwin) → ServerPacket
  map_data : (m : MapData) → ServerPacket
  player_client_input_permissions :
      (locks : Field uvar_int) → (server_pos : Field vec3) → ServerPacket
  camera_instruction : (c : CameraInstruction) → ServerPacket
  camera_spline : (splines : List NamedSpline) → (few : length splines < 2 ^ 32) → ServerPacket
  container_open : (id type : Field byte) → (position : PositionTwin) → ServerPacket
  start_game : (s : StartGame) → ServerPacket
  tile_event :
      (position : PositionTwin)
      → (type data_ : Field var_int) → (h : IsInt (2 ^ 31) (shifted type.value data_.value))
      → ServerPacket

abbrev pub packet_id : ServerPacket → ℕ
packet_id (update_block position) = PacketId.update_block
packet_id (block_actor_data position) = PacketId.block_actor_data
packet_id (update_block_synced position) = PacketId.update_block_synced
packet_id (open_sign position) = PacketId.open_sign
packet_id (set_spawn_position type position dimension spawn) = PacketId.set_spawn_position
packet_id (lectern_update page pages position) = PacketId.lectern_update
packet_id (add_volume_entity entity components json name least greatest) =
    PacketId.add_volume_entity
packet_id (update_sub_chunk_blocks position standards extras few few') =
    PacketId.update_sub_chunk_blocks
packet_id (play_sound name position) = PacketId.play_sound
packet_id (map_data m) = PacketId.map_data
packet_id (player_client_input_permissions locks server_pos) =
    PacketId.player_client_input_permissions
packet_id (camera_instruction c) = PacketId.camera_instruction
packet_id (camera_spline splines few) = PacketId.camera_spline
packet_id (container_open id type position) = PacketId.container_open
packet_id (start_game s) = PacketId.start_game
packet_id (tile_event position type data_ h) = PacketId.tile_event

abbrev pub chunks : ServerPacket → List Chunk
chunks (update_block position) = twin position ∷ []
chunks (block_actor_data position) = twin position ∷ []
chunks (update_block_synced position) = twin position ∷ []
chunks (open_sign position) = twin position ∷ []
chunks (set_spawn_position type position dimension spawn) =
    same type ∷ twin position ∷ same dimension ∷ twin spawn ∷ []
chunks (lectern_update page pages position) = same page ∷ same pages ∷ twin position ∷ []
chunks (add_volume_entity entity components json name least greatest) =
    same entity ∷ same components ∷ same json ∷ same name ∷ twin least ∷ twin greatest ∷ []
chunks (update_sub_chunk_blocks position standards extras few few') =
    twin position
    ∷ same (counted (length standards) few)
    ∷ each changed_block_chunk standards
    ∷ same (counted (length extras) few')
    ∷ each changed_block_chunk extras
    ∷ []
chunks (play_sound name position) = same name ∷ twin position ∷ []
chunks (map_data m) = map_data_chunks m
chunks (player_client_input_permissions locks server_pos) =
    same locks ∷ dropped server_pos zero_vec ∷ []
chunks (camera_instruction c) = camera_instruction_chunks c
chunks (camera_spline splines few) =
    same (counted (length splines) few) ∷ each named_spline_chunk splines ∷ []
chunks (container_open id type position) = same id ∷ same type ∷ twin position ∷ []
chunks (start_game s) = start_game_chunks s
chunks (tile_event position type data_ h) =
    twin position
    ∷ same type
    ∷ changed data_.bytes (groups 4 (place (shifted type.value data_.value)))
    ∷ []

-- Each packet of a server of v924 that is listed above, with all its fields coded, goes up: the
-- protocol of v924 to v944, dispatched by the packet's number, returns, does not cancel, leaves the
-- connection as it is, and forwards the newer bytes of the packet's chunks with what follows them
-- unchanged. The protocol of v944 to v924 does the same with these newer bytes, and forwards the
-- bytes that come back, which are the older bytes but for the position behind the input locks, the
-- checksum of StartGame, and its join information.
pub clientbound_round :
    (p : ServerPacket)
    → Rounds
        (transform clientbound (packet_id p) Up.create_protocol)
        (transform clientbound (packet_id p) Down.create_protocol)
        (chunks p)
unfolding transform Up.create_protocol Down.create_protocol register_each Protocol.register
    Protocol.cancel_packets Protocol.create Sound.register lookup insert contains
clientbound_round (update_block position) = first_position_round position
clientbound_round (block_actor_data position) = first_position_round position
clientbound_round (update_block_synced position) = first_position_round position
clientbound_round (open_sign position) = first_position_round position
clientbound_round (set_spawn_position type position dimension spawn) =
    set_spawn_position_round type position dimension spawn
clientbound_round (lectern_update page pages position) =
    (lectern_update_round page pages position).0
clientbound_round (add_volume_entity entity components json name least greatest) =
    add_volume_entity_round entity components json name least greatest
clientbound_round (update_sub_chunk_blocks position standards extras few few') =
    update_sub_chunk_blocks_round position standards extras few few'
clientbound_round (play_sound name position) = play_sound_round name position
clientbound_round (map_data m) = map_data_round m
clientbound_round (player_client_input_permissions locks server_pos) =
    update_client_input_locks_round locks server_pos
clientbound_round (camera_instruction c) = camera_instruction_round c
clientbound_round (camera_spline splines few) = camera_spline_round splines few
clientbound_round (container_open id type position) = container_open_round id type position
clientbound_round (start_game s) = start_game_round s
clientbound_round (tile_event position type data_ h) = tile_event_round position type data_ h

-- The packets of a client of v924 that the steps rewrite.
pub data ClientPacket : Type 0 where
  lectern_update' : (page pages : Field byte) → (position : PositionTwin) → ClientPacket
  inventory_transaction' : (t : Transaction) → ClientPacket
  player_action' :
      (player : Field uvar_int64)
      → (action : Field uvar_int) → (position result : PositionTwin) → ClientPacket
  command_block_update' : (is_block : Field bool) → (position : PositionTwin) → ClientPacket
  structure_block_update' :
      (position : PositionTwin)
      → (name data_field : Field string) → (players box : Field bool) → (type : Field var_int)
      → (settings : SettingsTwin) → ClientPacket
  structure_template_data_export_request' :
      (name : Field string) → (position : PositionTwin) → (settings : SettingsTwin) → ClientPacket
  block_actor_data' : (position : PositionTwin) → ClientPacket
  anvil_damage' : (damage : Field byte) → (position : PositionTwin) → ClientPacket

abbrev pub packet_id' : ClientPacket → ℕ
packet_id' (lectern_update' page pages position) = PacketId.lectern_update
packet_id' (inventory_transaction' t) = PacketId.inventory_transaction
packet_id' (player_action' player action position result) = PacketId.player_action
packet_id' (command_block_update' is_block position) = PacketId.command_block_update
packet_id' (structure_block_update' position name data_field players box type settings) =
    PacketId.structure_block_update
packet_id' (structure_template_data_export_request' name position settings) =
    PacketId.structure_template_data_export_request
packet_id' (block_actor_data' position) = PacketId.block_actor_data
packet_id' (anvil_damage' damage position) = PacketId.anvil_damage

abbrev pub chunks' : ClientPacket → List Chunk
chunks' (lectern_update' page pages position) = same page ∷ same pages ∷ twin position ∷ []
chunks' (inventory_transaction' t) = transaction_chunks t
chunks' (player_action' player action position result) =
    same player ∷ same action ∷ twin position ∷ twin result ∷ []
chunks' (command_block_update' is_block position) =
    same is_block ∷ only is_block.value (chain (twin position ∷ [])) ∷ []
chunks' (structure_block_update' position name data_field players box type settings) =
    twin position
    ∷ same name
    ∷ same data_field
    ∷ same players
    ∷ same box
    ∷ same type
    ∷ twin settings
    ∷ []
chunks' (structure_template_data_export_request' name position settings) =
    same name ∷ twin position ∷ twin settings ∷ []
chunks' (block_actor_data' position) = twin position ∷ []
chunks' (anvil_damage' damage position) = same damage ∷ twin position ∷ []

-- Each packet of a client of v924 that is listed above, with all its fields coded, goes up to a
-- server of v944 through the serverbound side of the protocol of v944 to v924, and what arrives goes
-- down through the serverbound side of the protocol of v924 to v944. Both return, do not cancel, and
-- leave the connection and the bytes behind the fields as they are. The older bytes come back.
pub serverbound_round :
    (p : ClientPacket)
    → Rounds
        (transform serverbound (packet_id' p) Down.create_protocol)
        (transform serverbound (packet_id' p) Up.create_protocol)
        (chunks' p)
unfolding transform Up.create_protocol Down.create_protocol register_each Protocol.register
    Protocol.cancel_packets Protocol.create Sound.register lookup insert contains
serverbound_round (lectern_update' page pages position) =
    (lectern_update_round page pages position).1
serverbound_round (inventory_transaction' t) = inventory_transaction_round t
serverbound_round (player_action' player action position result) =
    player_action_round player action position result
serverbound_round (command_block_update' is_block position) =
    command_block_update_round is_block position
serverbound_round (structure_block_update' position name data_field players box type settings) =
    structure_block_update_round position name data_field players box type settings
serverbound_round (structure_template_data_export_request' name position settings) =
    structure_template_data_request_round name position settings
serverbound_round (block_actor_data' position) = block_actor_data_round position
serverbound_round (anvil_damage' damage position) = anvil_damage_round damage position

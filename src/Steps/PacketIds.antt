-- ===== src/Steps/PacketIds.antt =====
-- protocol/packet_ids.py: the numbers of the packets that the version steps rewrite or cancel.
use endweave.Prelude.{ℕ}

abbrev pub update_block : ℕ
update_block = 21

abbrev pub tile_event : ℕ
tile_event = 26

abbrev pub set_spawn_position : ℕ
set_spawn_position = 43

abbrev pub block_actor_data : ℕ
block_actor_data = 56

abbrev pub update_block_synced : ℕ
update_block_synced = 110

abbrev pub lectern_update : ℕ
lectern_update = 125

abbrev pub add_volume_entity : ℕ
add_volume_entity = 166

abbrev pub update_sub_chunk_blocks : ℕ
update_sub_chunk_blocks = 172

abbrev pub open_sign : ℕ
open_sign = 303

abbrev pub play_sound : ℕ
play_sound = 86

abbrev pub map_data : ℕ
map_data = 67

abbrev pub player_client_input_permissions : ℕ
player_client_input_permissions = 196

abbrev pub voxel_shapes : ℕ
voxel_shapes = 337

abbrev pub show_screen : ℕ
show_screen = 333

abbrev pub close_all_screens : ℕ
close_all_screens = 334

abbrev pub camera_instruction : ℕ
camera_instruction = 300

abbrev pub camera_spline : ℕ
camera_spline = 338

abbrev pub container_open : ℕ
container_open = 46

abbrev pub start_game : ℕ
start_game = 11

abbrev pub inventory_transaction : ℕ
inventory_transaction = 30

abbrev pub player_action : ℕ
player_action = 36

abbrev pub command_block_update : ℕ
command_block_update = 78

abbrev pub structure_block_update : ℕ
structure_block_update = 90

abbrev pub structure_template_data_export_request : ℕ
structure_template_data_export_request = 132

abbrev pub anvil_damage : ℕ
anvil_damage = 141

abbrev pub editor_network : ℕ
editor_network = 190

abbrev pub resource_packs_ready_for_validation : ℕ
resource_packs_ready_for_validation = 340

abbrev pub party_changed : ℕ
party_changed = 342

abbrev pub data_driven_screen_closed : ℕ
data_driven_screen_closed = 343

abbrev pub locator_bar : ℕ
locator_bar = 341

abbrev pub sync_world_clocks : ℕ
sync_world_clocks = 344

abbrev pub attribute_layer_sync : ℕ
attribute_layer_sync = 345

abbrev pub inventory_content : ℕ
inventory_content = 49

abbrev pub mob_armor_equipment : ℕ
mob_armor_equipment = 32

abbrev pub boss_event : ℕ
boss_event = 74

abbrev pub full_chunk_data : ℕ
full_chunk_data = 58

abbrev pub client_cache_blob_status : ℕ
client_cache_blob_status = 135

abbrev pub sub_chunk_request : ℕ
sub_chunk_request = 175

abbrev pub serverbound_diagnostics : ℕ
serverbound_diagnostics = 315

abbrev pub actor_event : ℕ
actor_event = 27

abbrev pub inventory_slot : ℕ
inventory_slot = 50

abbrev pub player_equipment : ℕ
player_equipment = 31

abbrev pub crafting_data : ℕ
crafting_data = 52

abbrev pub player_enchant_options : ℕ
player_enchant_options = 146

abbrev pub update_client_options : ℕ
update_client_options = 323

abbrev pub client_movement_prediction_sync : ℕ
client_movement_prediction_sync = 322

abbrev pub server_script_debug_drawer : ℕ
server_script_debug_drawer = 328

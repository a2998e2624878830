-- ===== src/Codec/LevelSettings/Fields.antt =====
-- codec/types/level_settings.py: the fields of the settings, with their bytes.
use endweave.Prelude.{ℕ, List, [], ◌∷◌, ℤ}
use endweave.Codec.FieldType.{
  FieldType, int64_le, short_le, string, var_int, bool, float_le, int_le, byte, optional_type,
}
use endweave.Codec.FieldType.Codes.{Field, flat}
use endweave.Codec.Gameplay.{Experiment, game_rules}
use endweave.Codec.LevelSettings.{LevelSettings}

-- The fields of the settings but the height of the spawn, each with its bytes.
pub record Settings (exps_type : FieldType (List Experiment)) : Type 0 where
  pub seed : Field int64_le
  pub spawn_biome_type : Field short_le
  pub spawn_biome_name : Field string
  pub spawn_dimension : Field var_int
  pub generator : Field var_int
  pub game_type : Field var_int
  pub is_hardcore : Field bool
  pub game_difficulty : Field var_int
  pub default_spawn_x : Field var_int
  pub default_spawn_z : Field var_int
  pub achievements_disabled : Field bool
  pub editor_world_type : Field var_int
  pub created_in_editor : Field bool
  pub exported_from_editor : Field bool
  pub day_cycle_stop_time : Field var_int
  pub education_edition_offer : Field var_int
  pub education_features_enabled : Field bool
  pub education_product_id : Field string
  pub rain_level : Field float_le
  pub lightning_level : Field float_le
  pub has_confirmed_platform_locked_content : Field bool
  pub multiplayer_intended : Field bool
  pub lan_broadcasting_intended : Field bool
  pub xbox_live_broadcast_setting : Field var_int
  pub platform_broadcast_setting : Field var_int
  pub commands_enabled : Field bool
  pub texture_packs_required : Field bool
  pub game_rules : Field game_rules
  pub experiments : Field exps_type
  pub ever_toggled : Field bool
  pub has_bonus_chest : Field bool
  pub start_with_map : Field bool
  pub player_permissions : Field var_int
  pub server_chunk_tick_range : Field int_le
  pub has_locked_behavior_pack : Field bool
  pub has_locked_resource_pack : Field bool
  pub is_from_locked_template : Field bool
  pub use_msa_gamertags_only : Field bool
  pub created_from_template : Field bool
  pub template_with_locked_settings : Field bool
  pub only_spawn_v1_villagers : Field bool
  pub persona_disabled : Field bool
  pub custom_skins_disabled : Field bool
  pub emote_chat_muted : Field bool
  pub base_game_version : Field string
  pub limited_world_width : Field int_le
  pub limited_world_depth : Field int_le
  pub nether_type : Field bool
  pub edu_shared_uri_button_name : Field string
  pub edu_shared_uri_link_uri : Field string
  pub override_force_experimental : Field (optional_type bool)
  pub chat_restriction_level : Field byte
  pub disable_player_interactions : Field bool

module _ {exps_type : FieldType (List Experiment)} (s : Settings exps_type) where
  abbrev pub settings_value : ℤ → LevelSettings
  settings_value y = record {
    seed = s.seed.value;
    spawn_biome_type = s.spawn_biome_type.value;
    spawn_biome_name = s.spawn_biome_name.value;
    spawn_dimension = s.spawn_dimension.value;
    generator = s.generator.value;
    game_type = s.game_type.value;
    is_hardcore = s.is_hardcore.value;
    game_difficulty = s.game_difficulty.value;
    default_spawn_x = s.default_spawn_x.value;
    default_spawn_y = y;
    default_spawn_z = s.default_spawn_z.value;
    achievements_disabled = s.achievements_disabled.value;
    editor_world_type = s.editor_world_type.value;
    created_in_editor = s.created_in_editor.value;
    exported_from_editor = s.exported_from_editor.value;
    day_cycle_stop_time = s.day_cycle_stop_time.value;
    education_edition_offer = s.education_edition_offer.value;
    education_features_enabled = s.education_features_enabled.value;
    education_product_id = s.education_product_id.value;
    rain_level = s.rain_level.value;
    lightning_level = s.lightning_level.value;
    has_confirmed_platform_locked_content = s.has_confirmed_platform_locked_content.value;
    multiplayer_intended = s.multiplayer_intended.value;
    lan_broadcasting_intended = s.lan_broadcasting_intended.value;
    xbox_live_broadcast_setting = s.xbox_live_broadcast_setting.value;
    platform_broadcast_setting = s.platform_broadcast_setting.value;
    commands_enabled = s.commands_enabled.value;
    texture_packs_required = s.texture_packs_required.value;
    game_rules = s.game_rules.value;
    experiments = s.experiments.value;
    ever_toggled = s.ever_toggled.value;
    has_bonus_chest = s.has_bonus_chest.value;
    start_with_map = s.start_with_map.value;
    player_permissions = s.player_permissions.value;
    server_chunk_tick_range = s.server_chunk_tick_range.value;
    has_locked_behavior_pack = s.has_locked_behavior_pack.value;
    has_locked_resource_pack = s.has_locked_resource_pack.value;
    is_from_locked_template = s.is_from_locked_template.value;
    use_msa_gamertags_only = s.use_msa_gamertags_only.value;
    created_from_template = s.created_from_template.value;
    template_with_locked_settings = s.template_with_locked_settings.value;
    only_spawn_v1_villagers = s.only_spawn_v1_villagers.value;
    persona_disabled = s.persona_disabled.value;
    custom_skins_disabled = s.custom_skins_disabled.value;
    emote_chat_muted = s.emote_chat_muted.value;
    base_game_version = s.base_game_version.value;
    limited_world_width = s.limited_world_width.value;
    limited_world_depth = s.limited_world_depth.value;
    nether_type = s.nether_type.value;
    edu_shared_uri_button_name = s.edu_shared_uri_button_name.value;
    edu_shared_uri_link_uri = s.edu_shared_uri_link_uri.value;
    override_force_experimental = s.override_force_experimental.value;
    chat_restriction_level = s.chat_restriction_level.value;
    disable_player_interactions = s.disable_player_interactions.value;
  }

  abbrev pub settings_bytes : List ℕ → List ℕ
  settings_bytes y = flat (
      s.seed.bytes ∷ s.spawn_biome_type.bytes ∷ s.spawn_biome_name.bytes ∷ s.spawn_dimension.bytes
      ∷ s.generator.bytes ∷ s.game_type.bytes ∷ s.is_hardcore.bytes ∷ s.game_difficulty.bytes
      ∷ s.default_spawn_x.bytes ∷ y ∷ s.default_spawn_z.bytes ∷ s.achievements_disabled.bytes
      ∷ s.editor_world_type.bytes ∷ s.created_in_editor.bytes ∷ s.exported_from_editor.bytes
      ∷ s.day_cycle_stop_time.bytes ∷ s.education_edition_offer.bytes
      ∷ s.education_features_enabled.bytes ∷ s.education_product_id.bytes ∷ s.rain_level.bytes
      ∷ s.lightning_level.bytes ∷ s.has_confirmed_platform_locked_content.bytes
      ∷ s.multiplayer_intended.bytes ∷ s.lan_broadcasting_intended.bytes
      ∷ s.xbox_live_broadcast_setting.bytes ∷ s.platform_broadcast_setting.bytes
      ∷ s.commands_enabled.bytes ∷ s.texture_packs_required.bytes ∷ s.game_rules.bytes
      ∷ s.experiments.bytes ∷ s.ever_toggled.bytes ∷ s.has_bonus_chest.bytes
      ∷ s.start_with_map.bytes ∷ s.player_permissions.bytes ∷ s.server_chunk_tick_range.bytes
      ∷ s.has_locked_behavior_pack.bytes ∷ s.has_locked_resource_pack.bytes
      ∷ s.is_from_locked_template.bytes ∷ s.use_msa_gamertags_only.bytes
      ∷ s.created_from_template.bytes ∷ s.template_with_locked_settings.bytes
      ∷ s.only_spawn_v1_villagers.bytes ∷ s.persona_disabled.bytes ∷ s.custom_skins_disabled.bytes
      ∷ s.emote_chat_muted.bytes ∷ s.base_game_version.bytes ∷ s.limited_world_width.bytes
      ∷ s.limited_world_depth.bytes ∷ s.nether_type.bytes ∷ s.edu_shared_uri_button_name.bytes
      ∷ s.edu_shared_uri_link_uri.bytes ∷ s.override_force_experimental.bytes
      ∷ s.chat_restriction_level.bytes ∷ s.disable_player_interactions.bytes ∷ [])

-- ===== src/Codec/LevelSettings.antt =====
-- codec/types/level_settings.py: the settings of a level in three versions.
pub mod Fields
pub mod RoundTrip
use endweave.Prelude.{ℕ, Bool, Option, List, ℤ}
use endweave.Exec.{pure, ◌>>=◌, ◌>>◌}
use endweave.Codec.FieldType.{
  FieldType, int64_le, short_le, string, var_int, uvar_int, bool, float_le, int_le, byte,
  optional_type,
}
use endweave.Codec.Gameplay.{GameRule, game_rules, Experiment, experiments, experiments_v860}

pub record LevelSettings : Type 0 where
  pub seed : ℤ
  pub spawn_biome_type : ℤ
  pub spawn_biome_name : List ℕ
  pub spawn_dimension : ℤ
  pub generator : ℤ
  pub game_type : ℤ
  pub is_hardcore : Bool
  pub game_difficulty : ℤ
  pub default_spawn_x : ℤ
  pub default_spawn_y : ℤ
  pub default_spawn_z : ℤ
  pub achievements_disabled : Bool
  pub editor_world_type : ℤ
  pub created_in_editor : Bool
  pub exported_from_editor : Bool
  pub day_cycle_stop_time : ℤ
  pub education_edition_offer : ℤ
  pub education_features_enabled : Bool
  pub education_product_id : List ℕ
  pub rain_level : ℕ
  pub lightning_level : ℕ
  pub has_confirmed_platform_locked_content : Bool
  pub multiplayer_intended : Bool
  pub lan_broadcasting_intended : Bool
  pub xbox_live_broadcast_setting : ℤ
  pub platform_broadcast_setting : ℤ
  pub commands_enabled : Bool
  pub texture_packs_required : Bool
  pub game_rules : List GameRule
  pub experiments : List Experiment
  pub ever_toggled : Bool
  pub has_bonus_chest : Bool
  pub start_with_map : Bool
  pub player_permissions : ℤ
  pub server_chunk_tick_range : ℤ
  pub has_locked_behavior_pack : Bool
  pub has_locked_resource_pack : Bool
  pub is_from_locked_template : Bool
  pub use_msa_gamertags_only : Bool
  pub created_from_template : Bool
  pub template_with_locked_settings : Bool
  pub only_spawn_v1_villagers : Bool
  pub persona_disabled : Bool
  pub custom_skins_disabled : Bool
  pub emote_chat_muted : Bool
  pub base_game_version : List ℕ
  pub limited_world_width : ℤ
  pub limited_world_depth : ℤ
  pub nether_type : Bool
  pub edu_shared_uri_button_name : List ℕ
  pub edu_shared_uri_link_uri : List ℕ
  pub override_force_experimental : Option Bool
  pub chat_restriction_level : ℤ
  pub disable_player_interactions : Bool

-- `_LevelSettingsType(y_type, experiments_type)`
unfoldable pub level_settings_type :
    FieldType ℤ → FieldType (List Experiment) → FieldType LevelSettings
level_settings_type y_type exps_type = record {
  read = do
    seed ← int64_le.read
    spawn_biome_type ← short_le.read
    spawn_biome_name ← string.read
    spawn_dimension ← var_int.read
    generator ← var_int.read
    game_type ← var_int.read
    is_hardcore ← bool.read
    game_difficulty ← var_int.read
    default_spawn_x ← var_int.read
    default_spawn_y ← y_type.read
    default_spawn_z ← var_int.read
    achievements_disabled ← bool.read
    editor_world_type ← var_int.read
    created_in_editor ← bool.read
    exported_from_editor ← bool.read
    day_cycle_stop_time ← var_int.read
    education_edition_offer ← var_int.read
    education_features_enabled ← bool.read
    education_product_id ← string.read
    rain_level ← float_le.read
    lightning_level ← float_le.read
    has_confirmed_platform_locked_content ← bool.read
    multiplayer_intended ← bool.read
    lan_broadcasting_intended ← bool.read
    xbox_live_broadcast_setting ← var_int.read
    platform_broadcast_setting ← var_int.read
    commands_enabled ← bool.read
    texture_packs_required ← bool.read
    game_rules ← game_rules.read
    experiments ← exps_type.read
    ever_toggled ← bool.read
    has_bonus_chest ← bool.read
    start_with_map ← bool.read
    player_permissions ← var_int.read
    server_chunk_tick_range ← int_le.read
    has_locked_behavior_pack ← bool.read
    has_locked_resource_pack ← bool.read
    is_from_locked_template ← bool.read
    use_msa_gamertags_only ← bool.read
    created_from_template ← bool.read
    template_with_locked_settings ← bool.read
    only_spawn_v1_villagers ← bool.read
    persona_disabled ← bool.read
    custom_skins_disabled ← bool.read
    emote_chat_muted ← bool.read
    base_game_version ← string.read
    limited_world_width ← int_le.read
    limited_world_depth ← int_le.read
    nether_type ← bool.read
    edu_shared_uri_button_name ← string.read
    edu_shared_uri_link_uri ← string.read
    override_force_experimental ← (optional_type bool).read
    chat_restriction_level ← byte.read
    disable_player_interactions ← bool.read
    pure (record {
      seed = seed;
      spawn_biome_type = spawn_biome_type;
      spawn_biome_name = spawn_biome_name;
      spawn_dimension = spawn_dimension;
      generator = generator;
      game_type = game_type;
      is_hardcore = is_hardcore;
      game_difficulty = game_difficulty;
      default_spawn_x = default_spawn_x;
      default_spawn_y = default_spawn_y;
      default_spawn_z = default_spawn_z;
      achievements_disabled = achievements_disabled;
      editor_world_type = editor_world_type;
      created_in_editor = created_in_editor;
      exported_from_editor = exported_from_editor;
      day_cycle_stop_time = day_cycle_stop_time;
      education_edition_offer = education_edition_offer;
      education_features_enabled = education_features_enabled;
      education_product_id = education_product_id;
      rain_level = rain_level;
      lightning_level = lightning_level;
      has_confirmed_platform_locked_content = has_confirmed_platform_locked_content;
      multiplayer_intended = multiplayer_intended;
      lan_broadcasting_intended = lan_broadcasting_intended;
      xbox_live_broadcast_setting = xbox_live_broadcast_setting;
      platform_broadcast_setting = platform_broadcast_setting;
      commands_enabled = commands_enabled;
      texture_packs_required = texture_packs_required;
      game_rules = game_rules;
      experiments = experiments;
      ever_toggled = ever_toggled;
      has_bonus_chest = has_bonus_chest;
      start_with_map = start_with_map;
      player_permissions = player_permissions;
      server_chunk_tick_range = server_chunk_tick_range;
      has_locked_behavior_pack = has_locked_behavior_pack;
      has_locked_resource_pack = has_locked_resource_pack;
      is_from_locked_template = is_from_locked_template;
      use_msa_gamertags_only = use_msa_gamertags_only;
      created_from_template = created_from_template;
      template_with_locked_settings = template_with_locked_settings;
      only_spawn_v1_villagers = only_spawn_v1_villagers;
      persona_disabled = persona_disabled;
      custom_skins_disabled = custom_skins_disabled;
      emote_chat_muted = emote_chat_muted;
      base_game_version = base_game_version;
      limited_world_width = limited_world_width;
      limited_world_depth = limited_world_depth;
      nether_type = nether_type;
      edu_shared_uri_button_name = edu_shared_uri_button_name;
      edu_shared_uri_link_uri = edu_shared_uri_link_uri;
      override_force_experimental = override_force_experimental;
      chat_restriction_level = chat_restriction_level;
      disable_player_interactions = disable_player_interactions;
    });
  write = λ value. do
    int64_le.write value.seed
    short_le.write value.spawn_biome_type
    string.write value.spawn_biome_name
    var_int.write value.spawn_dimension
    var_int.write value.generator
    var_int.write value.game_type
    bool.write value.is_hardcore
    var_int.write value.game_difficulty
    var_int.write value.default_spawn_x
    y_type.write value.default_spawn_y
    var_int.write value.default_spawn_z
    bool.write value.achievements_disabled
    var_int.write value.editor_world_type
    bool.write value.created_in_editor
    bool.write value.exported_from_editor
    var_int.write value.day_cycle_stop_time
    var_int.write value.education_edition_offer
    bool.write value.education_features_enabled
    string.write value.education_product_id
    float_le.write value.rain_level
    float_le.write value.lightning_level
    bool.write value.has_confirmed_platform_locked_content
    bool.write value.multiplayer_intended
    bool.write value.lan_broadcasting_intended
    var_int.write value.xbox_live_broadcast_setting
    var_int.write value.platform_broadcast_setting
    bool.write value.commands_enabled
    bool.write value.texture_packs_required
    game_rules.write value.game_rules
    exps_type.write value.experiments
    bool.write value.ever_toggled
    bool.write value.has_bonus_chest
    bool.write value.start_with_map
    var_int.write value.player_permissions
    int_le.write value.server_chunk_tick_range
    bool.write value.has_locked_behavior_pack
    bool.write value.has_locked_resource_pack
    bool.write value.is_from_locked_template
    bool.write value.use_msa_gamertags_only
    bool.write value.created_from_template
    bool.write value.template_with_locked_settings
    bool.write value.only_spawn_v1_villagers
    bool.write value.persona_disabled
    bool.write value.custom_skins_disabled
    bool.write value.emote_chat_muted
    string.write value.base_game_version
    int_le.write value.limited_world_width
    int_le.write value.limited_world_depth
    bool.write value.nether_type
    string.write value.edu_shared_uri_button_name
    string.write value.edu_shared_uri_link_uri
    (optional_type bool).write value.override_force_experimental
    byte.write value.chat_restriction_level
    bool.write value.disable_player_interactions;
}

unfoldable pub level_settings_v860 : FieldType LevelSettings
level_settings_v860 = level_settings_type uvar_int experiments_v860

unfoldable pub level_settings_v924 : FieldType LevelSettings
level_settings_v924 = level_settings_type uvar_int experiments

unfoldable pub level_settings_v944 : FieldType LevelSettings
level_settings_v944 = level_settings_type var_int experiments

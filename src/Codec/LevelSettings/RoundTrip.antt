-- ===== src/Codec/LevelSettings/RoundTrip.antt =====
-- codec/types/level_settings.py: the settings are read back from what was written.
use endweave.Prelude.{◌▸◌, ℕ, List, ◌++◌, ℤ, pos, mask, ◌^◌, arith}
use endweave.Exec.{◌>>◌}
use endweave.Codec.Writer.{Write}
use endweave.Codec.Leb128.{groups}
use endweave.Codec.Zigzag.{place, IsInt}
use endweave.Codec.Reader.View.{Reads, Reads-bind, Reads-pure}
use endweave.Codec.Writer.View.{Writes, Writes-then, Writes-end}
use endweave.Codec.Writer.Varint.{Writes-write_uvarint, mask-lt}
use endweave.Codec.FieldType.{FieldType, var_int, uvar_int}
use endweave.Codec.FieldType.Variable.{Codes-uvar_int, Codes-var_int, Writes-wrapped}
use endweave.Codec.Wrapper.Chunk.{Twin}
use endweave.Codec.Gameplay.{Experiment, experiments}
use endweave.Codec.LevelSettings.{level_settings_type, level_settings_v924, level_settings_v944}
use endweave.Codec.LevelSettings.Fields.{Settings, settings_value, settings_bytes}

infixr 20 ◌▹◌
◌▹◌ : {m n : Write} {bs cs : List ℕ} → Writes m bs → Writes n cs → Writes (m >> n) (bs ++ cs)
◌▹◌ {m} {n} h rest = Writes-then m n h rest

module _ {exps_type : FieldType (List Experiment)} (s : Settings exps_type) where
  pub Reads-level_settings :
      (y_type : FieldType ℤ) (y : ℤ) (bs : List ℕ)
      → Reads y_type.read bs y
      → Reads (level_settings_type y_type exps_type).read (settings_bytes s bs) (settings_value s y)
  unfolding level_settings_type
  Reads-level_settings y_type y bs h =
      Reads-bind _ _ s.seed.coded.reads
      ▸ Reads-bind _ _ s.spawn_biome_type.coded.reads
      ▸ Reads-bind _ _ s.spawn_biome_name.coded.reads
      ▸ Reads-bind _ _ s.spawn_dimension.coded.reads
      ▸ Reads-bind _ _ s.generator.coded.reads
      ▸ Reads-bind _ _ s.game_type.coded.reads
      ▸ Reads-bind _ _ s.is_hardcore.coded.reads
      ▸ Reads-bind _ _ s.game_difficulty.coded.reads
      ▸ Reads-bind _ _ s.default_spawn_x.coded.reads
      ▸ Reads-bind _ _ h
      ▸ Reads-bind _ _ s.default_spawn_z.coded.reads
      ▸ Reads-bind _ _ s.achievements_disabled.coded.reads
      ▸ Reads-bind _ _ s.editor_world_type.coded.reads
      ▸ Reads-bind _ _ s.created_in_editor.coded.reads
      ▸ Reads-bind _ _ s.exported_from_editor.coded.reads
      ▸ Reads-bind _ _ s.day_cycle_stop_time.coded.reads
      ▸ Reads-bind _ _ s.education_edition_offer.coded.reads
      ▸ Reads-bind _ _ s.education_features_enabled.coded.reads
      ▸ Reads-bind _ _ s.education_product_id.coded.reads
      ▸ Reads-bind _ _ s.rain_level.coded.reads
      ▸ Reads-bind _ _ s.lightning_level.coded.reads
      ▸ Reads-bind _ _ s.has_confirmed_platform_locked_content.coded.reads
      ▸ Reads-bind _ _ s.multiplayer_intended.coded.reads
      ▸ Reads-bind _ _ s.lan_broadcasting_intended.coded.reads
      ▸ Reads-bind _ _ s.xbox_live_broadcast_setting.coded.reads
      ▸ Reads-bind _ _ s.platform_broadcast_setting.coded.reads
      ▸ Reads-bind _ _ s.commands_enabled.coded.reads
      ▸ Reads-bind _ _ s.texture_packs_required.coded.reads
      ▸ Reads-bind _ _ s.game_rules.coded.reads
      ▸ Reads-bind _ _ s.experiments.coded.reads
      ▸ Reads-bind _ _ s.ever_toggled.coded.reads
      ▸ Reads-bind _ _ s.has_bonus_chest.coded.reads
      ▸ Reads-bind _ _ s.start_with_map.coded.reads
      ▸ Reads-bind _ _ s.player_permissions.coded.reads
      ▸ Reads-bind _ _ s.server_chunk_tick_range.coded.reads
      ▸ Reads-bind _ _ s.has_locked_behavior_pack.coded.reads
      ▸ Reads-bind _ _ s.has_locked_resource_pack.coded.reads
      ▸ Reads-bind _ _ s.is_from_locked_template.coded.reads
      ▸ Reads-bind _ _ s.use_msa_gamertags_only.coded.reads
      ▸ Reads-bind _ _ s.created_from_template.coded.reads
      ▸ Reads-bind _ _ s.template_with_locked_settings.coded.reads
      ▸ Reads-bind _ _ s.only_spawn_v1_villagers.coded.reads
      ▸ Reads-bind _ _ s.persona_disabled.coded.reads
      ▸ Reads-bind _ _ s.custom_skins_disabled.coded.reads
      ▸ Reads-bind _ _ s.emote_chat_muted.coded.reads
      ▸ Reads-bind _ _ s.base_game_version.coded.reads
      ▸ Reads-bind _ _ s.limited_world_width.coded.reads
      ▸ Reads-bind _ _ s.limited_world_depth.coded.reads
      ▸ Reads-bind _ _ s.nether_type.coded.reads
      ▸ Reads-bind _ _ s.edu_shared_uri_button_name.coded.reads
      ▸ Reads-bind _ _ s.edu_shared_uri_link_uri.coded.reads
      ▸ Reads-bind _ _ s.override_force_experimental.coded.reads
      ▸ Reads-bind _ _ s.chat_restriction_level.coded.reads
      ▸ Reads-bind _ _ s.disable_player_interactions.coded.reads
      ▸ Reads-pure _

  pub Writes-level_settings :
      (y_type : FieldType ℤ) (y : ℤ) (bs : List ℕ)
      → Writes (y_type.write y) bs
      → Writes
          ((level_settings_type y_type exps_type).write (settings_value s y))
          (settings_bytes s bs)
  unfolding level_settings_type
  Writes-level_settings y_type y bs h =
      s.seed.coded.writes
      ▹ s.spawn_biome_type.coded.writes
      ▹ s.spawn_biome_name.coded.writes
      ▹ s.spawn_dimension.coded.writes
      ▹ s.generator.coded.writes
      ▹ s.game_type.coded.writes
      ▹ s.is_hardcore.coded.writes
      ▹ s.game_difficulty.coded.writes
      ▹ s.default_spawn_x.coded.writes
      ▹ h
      ▹ s.default_spawn_z.coded.writes
      ▹ s.achievements_disabled.coded.writes
      ▹ s.editor_world_type.coded.writes
      ▹ s.created_in_editor.coded.writes
      ▹ s.exported_from_editor.coded.writes
      ▹ s.day_cycle_stop_time.coded.writes
      ▹ s.education_edition_offer.coded.writes
      ▹ s.education_features_enabled.coded.writes
      ▹ s.education_product_id.coded.writes
      ▹ s.rain_level.coded.writes
      ▹ s.lightning_level.coded.writes
      ▹ s.has_confirmed_platform_locked_content.coded.writes
      ▹ s.multiplayer_intended.coded.writes
      ▹ s.lan_broadcasting_intended.coded.writes
      ▹ s.xbox_live_broadcast_setting.coded.writes
      ▹ s.platform_broadcast_setting.coded.writes
      ▹ s.commands_enabled.coded.writes
      ▹ s.texture_packs_required.coded.writes
      ▹ s.game_rules.coded.writes
      ▹ s.experiments.coded.writes
      ▹ s.ever_toggled.coded.writes
      ▹ s.has_bonus_chest.coded.writes
      ▹ s.start_with_map.coded.writes
      ▹ s.player_permissions.coded.writes
      ▹ s.server_chunk_tick_range.coded.writes
      ▹ s.has_locked_behavior_pack.coded.writes
      ▹ s.has_locked_resource_pack.coded.writes
      ▹ s.is_from_locked_template.coded.writes
      ▹ s.use_msa_gamertags_only.coded.writes
      ▹ s.created_from_template.coded.writes
      ▹ s.template_with_locked_settings.coded.writes
      ▹ s.only_spawn_v1_villagers.coded.writes
      ▹ s.persona_disabled.coded.writes
      ▹ s.custom_skins_disabled.coded.writes
      ▹ s.emote_chat_muted.coded.writes
      ▹ s.base_game_version.coded.writes
      ▹ s.limited_world_width.coded.writes
      ▹ s.limited_world_depth.coded.writes
      ▹ s.nether_type.coded.writes
      ▹ s.edu_shared_uri_button_name.coded.writes
      ▹ s.edu_shared_uri_link_uri.coded.writes
      ▹ s.override_force_experimental.coded.writes
      ▹ s.chat_restriction_level.coded.writes
      ▹ Writes-end s.disable_player_interactions.coded.writes

-- The settings with a height of 32 bits, which v924 reads without its sign.
abbrev pub settings_twin :
    (s : Settings experiments) (y : ℤ)
    → IsInt (2 ^ 31) y
    → Twin level_settings_v924 level_settings_v944
unfolding level_settings_v924 level_settings_v944
settings_twin s y h =
    let height = mask y (2 ^ 32) in
    let coded = Codes-uvar_int height (mask-lt (2 ^ 32) y (omega arith)) in
    let coded' = Codes-var_int y h in
    record {
      value = settings_value s (pos height);
      value' = settings_value s y;
      older = settings_bytes s (groups 4 height);
      newer = settings_bytes s (groups 4 (place y));
      reads = Reads-level_settings s uvar_int (pos height) _ coded.reads;
      reads' = Reads-level_settings s var_int y _ coded'.reads;
      writes = Writes-level_settings s var_int (pos height) _ (Writes-wrapped y h);
      writes' = Writes-level_settings s uvar_int y _ (Writes-write_uvarint y);
    }

-- ===== src/Examples/Newest.antt =====
-- Packets to a client of protocol 1001 and back.
use endweave.Prelude.{ℕ, ◌-◌, ◌^◌, ◌≡◌, refl, some, List, [], ◌∷◌, ◌++◌, pos, negsuc, arith, int_eq}
use endweave.Exec.{raised, value_error}
use endweave.Codec.Leb128.{groups}
use endweave.Codec.Word.{to_le}
use endweave.Codec.Zigzag.{place}
use endweave.Codec.FieldType.{int_le, uvar_int, var_int}
use endweave.Codec.FieldType.Codes.{Field}
use endweave.Codec.FieldType.Primitives.{Codes-int_le}
use endweave.Codec.FieldType.Variable.{Codes-uvar_int, Codes-var_int}
use endweave.Codec.Gameplay.{experiments}
use endweave.Codec.LevelSettings.{level_settings_v944}
use endweave.Codec.LevelSettings.Fields.{Settings, settings_value, settings_bytes}
use endweave.Codec.LevelSettings.RoundTrip.{Reads-level_settings, Writes-level_settings}
use endweave.Codec.Wrapper.{wrap}
use endweave.Codec.Wrapper.Chunk.{Twin, alike}
use endweave.Protocol.Base.Detect.{Forwards}
use endweave.Steps.BossBodies.{Bar}
use endweave.Steps.BossWrites.{older_bytes, newer_bytes}
use endweave.Steps.Bosses.{boss_event_round, boss_event_trailing}
use endweave.Steps.Chunks.{
  rewrite_level_chunk_lem, rewrite_sub_chunk_request_lem, rewrite_client_cache_blob_status_lem,
}
use endweave.Steps.Joined.{StartGame, packet, rewrite_start_game_lem}
use endweave.Steps.V975ToV1001.BossEvent.{rewrite_boss_event, rewrite_boss_event_serverbound}
use endweave.Steps.V975ToV1001.Chunks.{
  rewrite_level_chunk, rewrite_sub_chunk_request, rewrite_client_cache_blob_status, limited,
}
use endweave.Steps.V975ToV1001.StartGame.{rewrite_start_game}
use endweave.Examples.Packets.{player}
use endweave.Examples.Parts.{
  three, player_id, sixteen, minus_five, zero_int_le, zero_short, one_short, nine_long, half,
  origin, forward, hi, no_flag, set_flag, unset, nobody, no_tag, no_rules, no_experiments, zero_int,
}

-- A white bar with a title.
abbrev bar : Bar
bar = record {
  player_id = minus_five;
  title = hi;
  filtered = hi;
  health = half;
  darkening = one_short;
  colour = 6;
  colour_byte = omega arith;
  not_seven = refl;
  overlay = 2;
  overlay_byte = omega arith;
}

boss_event_round_example :
    Forwards
      (rewrite_boss_event (wrap (older_bytes minus_five 0 bar (to_le 2 1)) (some player)))
      (newer_bytes minus_five 0 bar)
      player
    × Forwards
        (rewrite_boss_event_serverbound (wrap (newer_bytes minus_five 0 bar) (some player)))
        (older_bytes minus_five 0 bar (0 ∷ 0 ∷ []))
        player
boss_event_round_example = boss_event_round minus_five 0 (omega arith) bar player

-- One byte too many behind a bar that is hidden.
boss_event_trailing_example :
    (rewrite_boss_event
      (wrap (older_bytes minus_five 2 bar (to_le 2 1) ++ (9 ∷ [])) (some player))).0
    ≡ raised value_error
boss_event_trailing_example = boss_event_trailing minus_five 2 (omega arith) bar 9 [] player

abbrev limited_count : Field uvar_int
limited_count = record {
  value = limited;
  bytes = groups 4 (2 ^ 32 - 2);
  coded = Codes-uvar_int (2 ^ 32 - 2) (omega arith);
}

rewrite_level_chunk_lem_example :
    Forwards
      (rewrite_level_chunk (
        wrap
          ((zero_int.bytes
              ++ (sixteen.bytes ++ (zero_int.bytes ++ (groups 4 (2 ^ 32 - 2) ++ to_le 2 1))))
            ++ (0 ∷ 0 ∷ []))
          (some player)))
      ((zero_int.bytes ++ (sixteen.bytes ++ (zero_int.bytes ++ groups 4 (2 ^ 32 - 1))))
        ++ (0 ∷ 0 ∷ []))
      player
rewrite_level_chunk_lem_example =
    rewrite_level_chunk_lem limited_count one_short zero_int sixteen zero_int (0 ∷ 0 ∷ []) player

abbrev coordinate : Twin var_int int_le
coordinate =
    alike (pos 5) (groups 4 (place (pos 5))) (to_le 4 5) (Codes-var_int (pos 5) (omega arith))
      (Codes-int_le (pos 5) 5 refl)

rewrite_sub_chunk_request_lem_example :
    Forwards
      (rewrite_sub_chunk_request (
        wrap
          ((zero_int.bytes
              ++ (groups 4 1
                  ++ ((1 ∷ 2 ∷ 3 ∷ []) ++ (to_le 4 5 ++ (to_le 4 5 ++ (to_le 4 5 ++ []))))))
            ++ [])
          (some player)))
      ((zero_int.bytes
          ++ (coordinate.older
              ++ (coordinate.older ++ (coordinate.older ++ (to_le 4 1 ++ (1 ∷ 2 ∷ 3 ∷ []))))))
        ++ [])
      player
rewrite_sub_chunk_request_lem_example =
    rewrite_sub_chunk_request_lem zero_int 1 (1 ∷ 2 ∷ 3 ∷ []) coordinate coordinate coordinate []
      player (omega arith) refl

-- One hash that is missing, and none that is there.
abbrev hash : List ℕ
hash = 1 ∷ 2 ∷ 3 ∷ 4 ∷ 5 ∷ 6 ∷ 7 ∷ 8 ∷ []

rewrite_client_cache_blob_status_lem_example :
    Forwards
      (rewrite_client_cache_blob_status
        (wrap ((groups 4 1 ++ (hash ++ (groups 4 0 ++ ([] ++ [])))) ++ []) (some player)))
      ((groups 4 1 ++ (groups 4 0 ++ (hash ++ []))) ++ [])
      player
rewrite_client_cache_blob_status_lem_example =
    rewrite_client_cache_blob_status_lem 1 0 hash [] [] player (omega arith) (omega arith) refl refl

abbrev settings : Settings experiments
settings = record {
  seed = nine_long;
  spawn_biome_type = zero_short;
  spawn_biome_name = hi;
  spawn_dimension = sixteen;
  generator = sixteen;
  game_type = sixteen;
  is_hardcore = no_flag;
  game_difficulty = sixteen;
  default_spawn_x = sixteen;
  default_spawn_z = sixteen;
  achievements_disabled = no_flag;
  editor_world_type = sixteen;
  created_in_editor = no_flag;
  exported_from_editor = no_flag;
  day_cycle_stop_time = sixteen;
  education_edition_offer = sixteen;
  education_features_enabled = no_flag;
  education_product_id = hi;
  rain_level = half;
  lightning_level = half;
  has_confirmed_platform_locked_content = no_flag;
  multiplayer_intended = no_flag;
  lan_broadcasting_intended = no_flag;
  xbox_live_broadcast_setting = sixteen;
  platform_broadcast_setting = sixteen;
  commands_enabled = no_flag;
  texture_packs_required = no_flag;
  game_rules = no_rules;
  experiments = no_experiments;
  ever_toggled = no_flag;
  has_bonus_chest = no_flag;
  start_with_map = no_flag;
  player_permissions = sixteen;
  server_chunk_tick_range = zero_int_le;
  has_locked_behavior_pack = no_flag;
  has_locked_resource_pack = no_flag;
  is_from_locked_template = no_flag;
  use_msa_gamertags_only = no_flag;
  created_from_template = no_flag;
  template_with_locked_settings = no_flag;
  only_spawn_v1_villagers = no_flag;
  persona_disabled = no_flag;
  custom_skins_disabled = no_flag;
  emote_chat_muted = no_flag;
  base_game_version = hi;
  limited_world_width = zero_int_le;
  limited_world_depth = zero_int_le;
  nether_type = no_flag;
  edu_shared_uri_button_name = hi;
  edu_shared_uri_link_uri = hi;
  override_force_experimental = unset;
  chat_restriction_level = three;
  disable_player_interactions = no_flag;
}

abbrev level_settings : Field level_settings_v944
unfolding level_settings_v944
level_settings =
    let height = Codes-var_int (negsuc 63) (omega arith) in
    record {
      value = settings_value settings (negsuc 63);
      bytes = settings_bytes settings (groups 4 (place (negsuc 63)));
      coded = record {
        reads = Reads-level_settings settings var_int (negsuc 63) _ height.reads;
        writes = Writes-level_settings settings var_int (negsuc 63) _ height.writes;
      };
    }

abbrev start : StartGame
start = record {
  entity = minus_five;
  runtime = player_id;
  game_type = zero_int;
  position = origin;
  rotation = forward;
  settings = level_settings;
  level_id = hi;
  level_name = hi;
  template = hi;
  is_trial = no_flag;
  rewind = sixteen;
  block_breaking = set_flag;
  time = nine_long;
  seed = sixteen;
  properties = record { name = hi; tag = no_tag } ∷ [];
  few = omega arith;
  correlation = hi;
  item_stacks = set_flag;
  version = hi;
  player_property = no_tag;
  checksum = nine_long;
  world_template = nobody;
  generation = no_flag;
  hashes = set_flag;
  authoritative_sound = set_flag;
}

rewrite_start_game_lem_example :
    Forwards
      (rewrite_start_game (wrap ((packet start).older ++ (5 ∷ [])) (some player)))
      ((packet start).newer ++ (5 ∷ []))
      player
rewrite_start_game_lem_example = rewrite_start_game_lem start (5 ∷ []) player

-- ===== src/Steps/V924ToV944/StartGame.antt =====
-- protocol/v924_to_v944/handlers/start_game.py: the start of the game.
use endweave.Prelude.{false, pos, pos_part}
use endweave.Exec.{pure, ◌>>=◌, ◌>>◌, repeat}
use endweave.Codec.FieldType.{
  bool, int64_le, string, uvar_int, uvar_int64, var_int, var_int64, vec2, vec3,
}
use endweave.Codec.Nbt.{named_compound_tag}
use endweave.Codec.LevelSettings.{level_settings_v924, level_settings_v944}
use endweave.Codec.Wrapper.{read, write, map, passthrough, when}
use endweave.Protocol.{PacketHandler}

-- One round of the loop over block properties.
abbrev pub block_property : PacketHandler
block_property = do _ ← passthrough string; _ ← passthrough named_compound_tag; pure tt

abbrev pub gathering : PacketHandler
gathering = do _ ← repeat 7 (read string); pure tt

-- What replaces the join information of the older version.
unfoldable pub join_info : PacketHandler
join_info = do
  has_gathering ← read bool
  when has_gathering gathering
  write bool false
  write bool false
  write bool false

unfoldable pub rewrite_start_game : PacketHandler
rewrite_start_game = do
  _ ← passthrough var_int64
  _ ← passthrough uvar_int64
  _ ← passthrough var_int
  _ ← passthrough vec3
  _ ← passthrough vec2
  _ ← map level_settings_v924 level_settings_v944
  _ ← passthrough string
  _ ← passthrough string
  _ ← passthrough string
  _ ← passthrough bool
  _ ← passthrough var_int
  _ ← passthrough bool
  _ ← passthrough int64_le
  _ ← passthrough var_int
  block_prop_count ← passthrough uvar_int
  _ ← repeat (pos_part block_prop_count) block_property
  _ ← passthrough string
  _ ← passthrough bool
  _ ← passthrough string
  _ ← passthrough named_compound_tag
  _ ← read int64_le
  write int64_le (pos 0)
  _ ← passthrough int64_le
  _ ← passthrough int64_le
  _ ← passthrough bool
  _ ← passthrough bool
  _ ← passthrough bool
  has_server_join_info ← passthrough bool
  when has_server_join_info join_info

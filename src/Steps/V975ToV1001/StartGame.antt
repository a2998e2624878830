-- ===== src/Steps/V975ToV1001/StartGame.antt =====
-- protocol/v975_to_v1001/handlers/start_game.py: the start of the game.
use endweave.Prelude.{false, pos, pos_part}
use endweave.Exec.{pure, ◌>>=◌, ◌>>◌, repeat}
use endweave.Codec.FieldType.{
  bool, int64_le, string, uuid, uvar_int, uvar_int64, var_int, var_int64, vec2, vec3,
}
use endweave.Codec.Nbt.{named_compound_tag}
use endweave.Codec.LevelSettings.{level_settings_v944}
use endweave.Codec.Wrapper.{read, write, passthrough, passthrough_all}
use endweave.Protocol.{PacketHandler}

-- One round of the loop over block properties.
abbrev pub block_property : PacketHandler
block_property = do _ ← passthrough string; _ ← passthrough named_compound_tag; pure tt

unfoldable pub rewrite_start_game : PacketHandler
rewrite_start_game = do
  _ ← passthrough var_int64
  _ ← passthrough uvar_int64
  _ ← passthrough var_int
  _ ← passthrough vec3
  _ ← passthrough vec2
  settings ← read level_settings_v944
  write level_settings_v944 settings
  write var_int (pos 0)
  write bool false
  _ ← passthrough string
  _ ← passthrough string
  _ ← passthrough string
  _ ← passthrough bool
  _ ← passthrough var_int
  _ ← passthrough bool
  _ ← passthrough int64_le
  _ ← passthrough var_int
  block_prop_count ← passthrough uvar_int
  _ ← repeat (pos_part block_prop_count) block_property
  _ ← passthrough string
  _ ← passthrough bool
  _ ← passthrough string
  _ ← passthrough named_compound_tag
  _ ← read int64_le
  write int64_le (pos 0)
  _ ← passthrough uuid
  _ ← passthrough bool
  _ ← passthrough bool
  _ ← passthrough bool
  write bool false
  _ ← passthrough_all
  pure tt

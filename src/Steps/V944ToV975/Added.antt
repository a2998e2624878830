-- ===== src/Steps/V944ToV975/Added.antt =====
-- protocol/v944_to_v975/handlers: the packets that v975 added fields to. actor_event.py,
-- level_sound_event.py, party_changed.py, play_sound.py, update_client_options.py,
-- player_enchant_options.py and client_movement_prediction_sync.py.
use endweave.Prelude.{ℕ, zero, suc, ◌-◌, false, length, ℤ, pos, pos_part, leb_ℤ, if◌then◌else◌}
use endweave.Exec.{pure, raise, diverges, ◌>>=◌, ◌>>◌, repeat}
use endweave.Codec.FieldType.{
  bool, byte, float_le, int64_le, int_le, string, uvar_int, uvar_int64, var_int, var_int64, vec3,
}
use endweave.Codec.Wrapper.{read, write, passthrough, passthrough_all, when}
use endweave.Protocol.{PacketHandler, Direction, serverbound, clientbound}
use endweave.Protocol.MappingData.{shift_up}
use endweave.Steps.Flags.{has_bit}
use endweave.Steps.Mappings.{v944_v975}

abbrev pub skip_vec : PacketHandler
skip_vec = do _ ← read vec3; pure tt

unfoldable pub rewrite_actor_event : Direction → PacketHandler
rewrite_actor_event clientbound = do _ ← passthrough_all; write bool false
rewrite_actor_event serverbound = do
  _ ← passthrough uvar_int64
  _ ← passthrough byte
  _ ← passthrough var_int
  has_fire_at_position ← read bool
  when has_fire_at_position skip_vec

unfoldable pub rewrite_level_sound_event : PacketHandler
rewrite_level_sound_event = do
  event_id ← read uvar_int
  write uvar_int (shift_up v944_v975.sound event_id)
  _ ← passthrough vec3
  _ ← passthrough var_int
  _ ← passthrough string
  _ ← passthrough bool
  _ ← passthrough bool
  _ ← passthrough int64_le
  write bool false

unfoldable pub rewrite_play_sound : PacketHandler
rewrite_play_sound = do _ ← passthrough_all; write bool false

abbrev pub party : PacketHandler
party = do _ ← passthrough string; _ ← read bool; pure tt

unfoldable pub rewrite_party_changed : PacketHandler
rewrite_party_changed = do has_party ← passthrough bool; when has_party party

abbrev pub pass_byte : PacketHandler
pass_byte = do _ ← passthrough byte; pure tt

abbrev pub skip_bool : PacketHandler
skip_bool = do _ ← read bool; pure tt

unfoldable pub rewrite_update_client_options : PacketHandler
rewrite_update_client_options = do
  has_mode ← passthrough bool
  when has_mode pass_byte
  has_filter ← read bool
  when has_filter skip_bool

-- `min(cost, 0xFF)`
abbrev pub capped : ℤ → ℤ
capped cost = if leb_ℤ cost (pos 255) then cost else pos 255

abbrev pub enchantment : PacketHandler
enchantment = do _ ← passthrough byte; _ ← passthrough byte; pure tt

abbrev pub enchantments : PacketHandler
enchantments = do inner ← passthrough uvar_int; _ ← repeat (pos_part inner) enchantment; pure tt

-- One round of the loop over the options.
unfoldable pub enchant_option : PacketHandler
enchant_option = do
  cost ← read uvar_int
  write byte (capped cost)
  _ ← passthrough int_le
  _ ← repeat 3 enchantments
  _ ← passthrough string
  _ ← passthrough uvar_int
  pure tt

unfoldable pub rewrite_player_enchant_options : PacketHandler
rewrite_player_enchant_options = do
  count ← passthrough uvar_int
  _ ← repeat (pos_part count) enchant_option
  pure tt

-- The rounds of `_passthrough_bitset`, each of which takes a byte.
unfoldable pub bitset : ℕ → PacketHandler
bitset zero = raise diverges
bitset (suc fuel) = let more = bitset fuel in passthrough byte >>= λ b. when (has_bit b 128) more

-- One round for each byte that is left, and one to find none.
unfoldable pub passthrough_bitset : PacketHandler
passthrough_bitset w = bitset (suc (length w.reader.bytes - w.reader.position)) w

abbrev pub pass_float : PacketHandler
pass_float = do _ ← passthrough float_le; pure tt

abbrev pub skip_float : PacketHandler
skip_float = do _ ← read float_le; pure tt

unfoldable pub rewrite_client_movement_prediction_sync : PacketHandler
rewrite_client_movement_prediction_sync = do
  passthrough_bitset
  _ ← repeat 9 pass_float
  _ ← repeat 3 skip_float
  _ ← passthrough var_int64
  _ ← passthrough bool
  pure tt

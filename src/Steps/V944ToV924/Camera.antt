-- ===== src/Steps/V944ToV924/Camera.antt =====
-- protocol/v944_to_v924/handlers/camera.py: the splines of cameras.
use endweave.Prelude.{pos_part}
use endweave.Exec.{pure, ◌>>=◌, ◌>>◌, repeat}
use endweave.Codec.FieldType.{
  bool, byte, float_le, int64_le, int_le, optional_type, string, uvar_int, vec2, vec3,
}
use endweave.Codec.Spline.{spline_instruction_v924, spline_instruction_v944}
use endweave.Codec.Wrapper.{map, passthrough, when}
use endweave.Protocol.{PacketHandler}

-- One round of the loop over splines.
unfoldable pub spline : PacketHandler
spline = do _ ← passthrough string; _ ← map spline_instruction_v944 spline_instruction_v924; pure tt

unfoldable pub rewrite_camera_spline : PacketHandler
rewrite_camera_spline = do
  spline_count ← passthrough uvar_int
  _ ← repeat (pos_part spline_count) spline
  pure tt

-- The parts of an instruction that are there only under their flags.
abbrev pub ease : PacketHandler
ease = do _ ← passthrough byte; _ ← passthrough float_le; pure tt

unfoldable pub set : PacketHandler
set = do
  _ ← passthrough int_le
  has_ease ← passthrough bool
  when has_ease ease
  _ ← passthrough (optional_type vec3)
  _ ← passthrough (optional_type vec2)
  _ ← passthrough (optional_type vec3)
  _ ← passthrough (optional_type vec2)
  _ ← passthrough (optional_type vec3)
  _ ← passthrough (optional_type bool)
  _ ← passthrough bool
  pure tt

abbrev pub three_floats : PacketHandler
three_floats = do
  _ ← passthrough float_le
  _ ← passthrough float_le
  _ ← passthrough float_le
  pure tt

unfoldable pub fade : PacketHandler
fade = do
  has_time ← passthrough bool
  when has_time three_floats
  has_color ← passthrough bool
  when has_color three_floats

abbrev pub target : PacketHandler
target = do _ ← passthrough (optional_type vec3); _ ← passthrough int64_le; pure tt

abbrev pub field_of_view : PacketHandler
field_of_view = do
  _ ← passthrough float_le
  _ ← passthrough float_le
  _ ← passthrough byte
  _ ← passthrough bool
  pure tt

abbrev pub spline_part : PacketHandler
spline_part = do _ ← map spline_instruction_v944 spline_instruction_v924; pure tt

unfoldable pub rewrite_camera_instruction : PacketHandler
rewrite_camera_instruction = do
  has_set ← passthrough bool
  when has_set set
  _ ← passthrough (optional_type bool)
  has_fade ← passthrough bool
  when has_fade fade
  has_target ← passthrough bool
  when has_target target
  _ ← passthrough (optional_type bool)
  has_field_of_view ← passthrough bool
  when has_field_of_view field_of_view
  has_spline ← passthrough bool
  when has_spline spline_part

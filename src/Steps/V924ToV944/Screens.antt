-- ===== src/Steps/V924ToV944/Screens.antt =====
-- protocol/v924_to_v944/handlers/data_driven_ui.py and voxel_shapes.py: the packets that v944 appends
-- fields to.
use endweave.Prelude.{none, pos}
use endweave.Exec.{◌>>=◌, ◌>>◌}
use endweave.Codec.FieldType.{int_le, optional_type, ushort_le}
use endweave.Codec.Wrapper.{write, passthrough_all}
use endweave.Protocol.{PacketHandler}

unfoldable pub rewrite_show_screen : PacketHandler
rewrite_show_screen = do
  _ ← passthrough_all
  write int_le (pos 0)
  write (optional_type int_le) none

unfoldable pub rewrite_close_all_screens : PacketHandler
rewrite_close_all_screens = do _ ← passthrough_all; write (optional_type int_le) none

unfoldable pub rewrite_voxel_shapes : PacketHandler
rewrite_voxel_shapes = do _ ← passthrough_all; write ushort_le (pos 0)

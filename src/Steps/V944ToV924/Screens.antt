-- ===== src/Steps/V944ToV924/Screens.antt =====
-- protocol/v944_to_v924/handlers/data_driven_ui.py and voxel_shapes.py: the packets that v944 appends
-- fields to.
use endweave.Prelude.{ℕ, ◌-◌, List, length, take}
use endweave.Exec.{pure, ◌>>=◌}
use endweave.Codec.FieldType.{int_le, optional_type, remaining_bytes, string}
use endweave.Codec.Wrapper.{read, write, passthrough}
use endweave.Protocol.{PacketHandler}

unfoldable pub rewrite_show_screen : PacketHandler
rewrite_show_screen = do
  _ ← passthrough string
  _ ← read int_le
  _ ← read (optional_type int_le)
  pure tt

unfoldable pub rewrite_close_screen : PacketHandler
rewrite_close_screen = do _ ← read (optional_type int_le); pure tt

-- `data[:-2]`, which of fewer than two bytes leaves none.
abbrev pub without_last_two : List ℕ → List ℕ
without_last_two bs = take (length bs - 2) bs

unfoldable pub rewrite_voxel_shapes : PacketHandler
rewrite_voxel_shapes = do bs ← read remaining_bytes; write remaining_bytes (without_last_two bs)

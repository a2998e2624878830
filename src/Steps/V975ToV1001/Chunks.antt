-- ===== src/Steps/V975ToV1001/Chunks.antt =====
-- protocol/v975_to_v1001/handlers: level_chunk.py, sub_chunk_request.py, client_cache_blob_status.py
-- and diagnostics.py.
use endweave.Prelude.{◌-◌, ◌*◌, ◌^◌, ℤ, pos, pos_part, eqb_ℤ, if◌then◌else◌}
use endweave.Exec.{pure, ◌>>=◌, ◌>>◌, repeat}
use endweave.Codec.FieldType.{
  byte, bytes, float_le, int_le, int64_le, remaining_bytes, string, uint_le, ushort_le, uvar_int,
  var_int,
}
use endweave.Codec.Wrapper.{read, write, passthrough, passthrough_all}
use endweave.Protocol.{PacketHandler}

-- `_SUB_CHUNK_REQUEST_MODE_LIMITLESS` and `_SUB_CHUNK_REQUEST_MODE_LIMITED`
abbrev pub limitless : ℤ
limitless = pos (2 ^ 32 - 1)

abbrev pub limited : ℤ
limited = pos (2 ^ 32 - 2)

abbrev unlimit : PacketHandler
unlimit = do _ ← read ushort_le; write uvar_int limitless

-- What is written in place of the number of sub-chunks.
unfoldable pub sub_chunks : ℤ → PacketHandler
sub_chunks sub_chunk_count =
    if eqb_ℤ sub_chunk_count limited then unlimit else write uvar_int sub_chunk_count

unfoldable pub rewrite_level_chunk : PacketHandler
rewrite_level_chunk = do
  _ ← passthrough var_int
  _ ← passthrough var_int
  _ ← passthrough var_int
  sub_chunk_count ← read uvar_int
  sub_chunks sub_chunk_count
  _ ← passthrough_all
  pure tt

unfoldable pub rewrite_sub_chunk_request : PacketHandler
rewrite_sub_chunk_request = do
  _ ← passthrough var_int
  offset_count ← read uvar_int
  offset_bytes ← read (bytes (pos (pos_part offset_count * 3)))
  pos_x ← read int_le
  pos_y ← read int_le
  pos_z ← read int_le
  write var_int pos_x
  write var_int pos_y
  write var_int pos_z
  write uint_le offset_count
  write remaining_bytes offset_bytes

unfoldable pub rewrite_client_cache_blob_status : PacketHandler
rewrite_client_cache_blob_status = do
  miss_count ← read uvar_int
  miss_hashes ← read (bytes (pos (pos_part miss_count * 8)))
  hit_count ← read uvar_int
  hit_hashes ← read (bytes (pos (pos_part hit_count * 8)))
  write uvar_int miss_count
  write uvar_int hit_count
  write remaining_bytes miss_hashes
  write remaining_bytes hit_hashes

-- The rounds of the four loops.
abbrev pub average : PacketHandler
average = do _ ← passthrough float_le; pure tt

abbrev pub memory_category : PacketHandler
memory_category = do _ ← passthrough byte; _ ← passthrough int64_le; pure tt

abbrev pub entity_diagnostic : PacketHandler
entity_diagnostic = do
  _ ← passthrough string
  _ ← passthrough string
  _ ← passthrough int64_le
  _ ← passthrough byte
  pure tt

abbrev pub system_diagnostic : PacketHandler
system_diagnostic = do
  _ ← passthrough string
  _ ← passthrough int64_le
  _ ← passthrough int64_le
  _ ← passthrough byte
  pure tt

unfoldable pub rewrite_diagnostics : PacketHandler
rewrite_diagnostics = do
  _ ← repeat 9 average
  mem_count ← passthrough uvar_int
  _ ← repeat (pos_part mem_count) memory_category
  entity_count ← passthrough uvar_int
  _ ← repeat (pos_part entity_count) entity_diagnostic
  system_count ← passthrough uvar_int
  _ ← repeat (pos_part system_count) system_diagnostic
  _ ← read remaining_bytes
  pure tt

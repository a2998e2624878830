-- ===== src/Codec/StructureSettings/RoundTrip.antt =====
-- codec/types/structure.py: settings are read back from what was written, in both versions.
use endweave.Prelude.{◌▸◌, ℕ, refl, List, ◌++◌}
use endweave.Codec.Reader.View.{Reads-bind, Reads-map}
use endweave.Codec.Writer.View.{Writes-then}
use endweave.Codec.FieldType.{
  FieldType, Position, string, bool, var_int64, byte, float_le, uint_le, vec3, block_pos,
  network_block_pos,
}
use endweave.Codec.FieldType.Codes.{Codes, Field}
use endweave.Codec.Wrapper.Chunk.{Twin, alike}
use endweave.Codec.StructureSettings.{
  StructureSettings, structure_settings, structure_settings_v924, structure_settings_v944,
}

module _ (palette : Field string) (entities blocks chunks : Field bool) (player : Field var_int64)
    (rotation mirror mode : Field byte) (seconds integrity : Field float_le) (seed : Field uint_le)
    (pivot : Field vec3) where
  abbrev settings : Position → Position → StructureSettings
  settings size offset = record {
    palette_name = palette.value;
    ignore_entities = entities.value;
    ignore_blocks = blocks.value;
    allow_non_ticking_chunks = chunks.value;
    size = size;
    offset = offset;
    last_edit_player = player.value;
    rotation = rotation.value;
    mirror = mirror.value;
    animation_mode = mode.value;
    animation_seconds = seconds.value;
    integrity_value = integrity.value;
    integrity_seed = seed.value;
    pivot = pivot.value;
  }

  abbrev settings_bytes : List ℕ → List ℕ → List ℕ
  settings_bytes size offset =
      palette.bytes
      ++ (entities.bytes
          ++ (blocks.bytes
              ++ (chunks.bytes
                  ++ (size
                      ++ (offset
                          ++ (player.bytes
                              ++ (rotation.bytes
                                  ++ (mirror.bytes
                                      ++ (mode.bytes
                                          ++ (seconds.bytes
                                              ++ (integrity.bytes
                                                  ++ (seed.bytes ++ pivot.bytes))))))))))))

  pub Codes-structure_settings :
      (pos_type : FieldType Position) (size offset : Field pos_type)
      → Codes
          (structure_settings pos_type)
          (settings size.value offset.value)
          (settings_bytes size.bytes offset.bytes)
  unfolding structure_settings
  Codes-structure_settings pos_type size offset = record {
    reads =
        Reads-bind string.read _ palette.coded.reads
        ▸ Reads-bind bool.read _ entities.coded.reads
        ▸ Reads-bind bool.read _ blocks.coded.reads
        ▸ Reads-bind bool.read _ chunks.coded.reads
        ▸ Reads-bind pos_type.read _ size.coded.reads
        ▸ Reads-bind pos_type.read _ offset.coded.reads
        ▸ Reads-bind var_int64.read _ player.coded.reads
        ▸ Reads-bind byte.read _ rotation.coded.reads
        ▸ Reads-bind byte.read _ mirror.coded.reads
        ▸ Reads-bind byte.read _ mode.coded.reads
        ▸ Reads-bind float_le.read _ seconds.coded.reads
        ▸ Reads-bind float_le.read _ integrity.coded.reads
        ▸ Reads-bind uint_le.read _ seed.coded.reads (Reads-map vec3.read _ pivot.coded.reads refl);
    writes =
        Writes-then (string.write palette.value) _ palette.coded.writes
        ▸ Writes-then (bool.write entities.value) _ entities.coded.writes
        ▸ Writes-then (bool.write blocks.value) _ blocks.coded.writes
        ▸ Writes-then (bool.write chunks.value) _ chunks.coded.writes
        ▸ Writes-then (pos_type.write size.value) _ size.coded.writes
        ▸ Writes-then (pos_type.write offset.value) _ offset.coded.writes
        ▸ Writes-then (var_int64.write player.value) _ player.coded.writes
        ▸ Writes-then (byte.write rotation.value) _ rotation.coded.writes
        ▸ Writes-then (byte.write mirror.value) _ mirror.coded.writes
        ▸ Writes-then (byte.write mode.value) _ mode.coded.writes
        ▸ Writes-then (float_le.write seconds.value) _ seconds.coded.writes
        ▸ Writes-then (float_le.write integrity.value) _ integrity.coded.writes
        ▸ Writes-then (uint_le.write seed.value) _ seed.coded.writes pivot.coded.writes;
  }

  -- The settings with their bytes in both versions.
  abbrev pub settings_twin :
      (size offset : Position) (size_older size_newer offset_older offset_newer : List ℕ)
      → Codes network_block_pos size size_older
      → Codes block_pos size size_newer
      → Codes network_block_pos offset offset_older
      → Codes block_pos offset offset_newer
      → Twin structure_settings_v924 structure_settings_v944
  unfolding structure_settings_v924 structure_settings_v944
  settings_twin size offset size_older size_newer offset_older offset_newer c c' k k' =
      alike (settings size offset) (settings_bytes size_older offset_older)
        (settings_bytes size_newer offset_newer)
        (Codes-structure_settings network_block_pos
          (record { value = size; bytes = size_older; coded = c })
          (record { value = offset; bytes = offset_older; coded = k }))
        (Codes-structure_settings block_pos
          (record { value = size; bytes = size_newer; coded = c' })
          (record { value = offset; bytes = offset_newer; coded = k' }))

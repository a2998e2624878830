-- ===== src/Codec/StructureSettings.antt =====
-- codec/types/structure.py: the settings of a structure.
pub mod RoundTrip
use endweave.Prelude.{ℕ, Bool, List, ℤ}
use endweave.Exec.{pure, ◌>>=◌, ◌>>◌}
use endweave.Codec.FieldType.{
  FieldType, Position, string, bool, var_int64, byte, float_le, uint_le, vec3, block_pos,
  network_block_pos,
}

pub record StructureSettings : Type 0 where
  pub palette_name : List ℕ
  pub ignore_entities : Bool
  pub ignore_blocks : Bool
  pub allow_non_ticking_chunks : Bool
  pub size : Position
  pub offset : Position
  pub last_edit_player : ℤ
  pub rotation : ℤ
  pub mirror : ℤ
  pub animation_mode : ℤ
  pub animation_seconds : ℕ
  pub integrity_value : ℕ
  pub integrity_seed : ℤ
  pub pivot : ℕ × ℕ × ℕ

-- Both versions, which differ in `_pos_type`.
unfoldable pub structure_settings : FieldType Position → FieldType StructureSettings
structure_settings pos_type = record {
  read = do
    palette_name ← string.read
    ignore_entities ← bool.read
    ignore_blocks ← bool.read
    allow_non_ticking_chunks ← bool.read
    size ← pos_type.read
    offset ← pos_type.read
    last_edit_player ← var_int64.read
    rotation ← byte.read
    mirror ← byte.read
    animation_mode ← byte.read
    animation_seconds ← float_le.read
    integrity_value ← float_le.read
    integrity_seed ← uint_le.read
    pivot ← vec3.read
    pure (record {
      palette_name = palette_name;
      ignore_entities = ignore_entities;
      ignore_blocks = ignore_blocks;
      allow_non_ticking_chunks = allow_non_ticking_chunks;
      size = size;
      offset = offset;
      last_edit_player = last_edit_player;
      rotation = rotation;
      mirror = mirror;
      animation_mode = animation_mode;
      animation_seconds = animation_seconds;
      integrity_value = integrity_value;
      integrity_seed = integrity_seed;
      pivot = pivot;
    });
  write = λ value. do
    string.write value.palette_name
    bool.write value.ignore_entities
    bool.write value.ignore_blocks
    bool.write value.allow_non_ticking_chunks
    pos_type.write value.size
    pos_type.write value.offset
    var_int64.write value.last_edit_player
    byte.write value.rotation
    byte.write value.mirror
    byte.write value.animation_mode
    float_le.write value.animation_seconds
    float_le.write value.integrity_value
    uint_le.write value.integrity_seed
    vec3.write value.pivot;
}

unfoldable pub structure_settings_v924 : FieldType StructureSettings
structure_settings_v924 = structure_settings network_block_pos

unfoldable pub structure_settings_v944 : FieldType StructureSettings
structure_settings_v944 = structure_settings block_pos

-- ===== src/Codec/Spline/RoundTrip.antt =====
-- codec/types/camera.py: splines are read back from what was written.
use endweave.Prelude.{◌▸◌, ℕ, refl, Bool, false, List, [], ◌∷◌, arith}
use endweave.Codec.Reader.View.{Reads-bind, Reads-pure}
use endweave.Codec.Writer.View.{Writes-then, Writes-end}
use endweave.Codec.FieldType.{FieldType, bool, byte, float_le, int_le, string, vec3, array_type}
use endweave.Codec.FieldType.Codes.{Codes, Field, flat}
use endweave.Codec.FieldType.Primitives.{Codes-bool}
use endweave.Codec.FieldType.Variable.{Codes-string}
use endweave.Codec.Utf8.{encode}
use endweave.Codec.Leb128.{groups}
use endweave.Codec.Wrapper.Chunk.{Twin, alike}
use endweave.Codec.Spline.{
  KeyFrame, RotationKeyFrame, SplineInstruction, key_frame, rotation_key_frame, key_frame_v898,
  rotation_key_frame_v898, default_easing, spline_with, spline_instruction_v924,
  spline_instruction_v944,
}

pub no_name : Codes string [] (0 ∷ [])
unfolding encode groups
no_name = Codes-string [] [] refl (omega arith)

pub Codes-key_frame :
    (value time : Field float_le) (easing : Field int_le)
    → Codes key_frame
        (record { value = value.value; time = time.value; easing = easing.value })
        (flat (value.bytes ∷ time.bytes ∷ easing.bytes ∷ []))
unfolding key_frame
Codes-key_frame value time easing = record {
  reads =
      Reads-bind float_le.read _ value.coded.reads
      ▸ Reads-bind float_le.read _ time.coded.reads
      ▸ Reads-bind int_le.read _ easing.coded.reads (Reads-pure _);
  writes =
      Writes-then (float_le.write value.value) _ value.coded.writes
      ▸ Writes-then (float_le.write time.value) _ time.coded.writes
          (Writes-end easing.coded.writes);
}

pub Codes-rotation_key_frame :
    (value : Field vec3) (time : Field float_le) (easing : Field int_le)
    → Codes rotation_key_frame
        (record { value = value.value; time = time.value; easing = easing.value })
        (flat (value.bytes ∷ time.bytes ∷ easing.bytes ∷ []))
unfolding rotation_key_frame
Codes-rotation_key_frame value time easing = record {
  reads =
      Reads-bind vec3.read _ value.coded.reads
      ▸ Reads-bind float_le.read _ time.coded.reads
      ▸ Reads-bind int_le.read _ easing.coded.reads (Reads-pure _);
  writes =
      Writes-then (vec3.write value.value) _ value.coded.writes
      ▸ Writes-then (float_le.write time.value) _ time.coded.writes
          (Writes-end easing.coded.writes);
}

-- In v898 the frames have no easing: those of the default come back.
pub Codes-key_frame_v898 :
    (value time : Field float_le)
    → Codes key_frame_v898
        (record { value = value.value; time = time.value; easing = default_easing })
        (flat (value.bytes ∷ time.bytes ∷ []))
unfolding key_frame_v898
Codes-key_frame_v898 value time = record {
  reads =
      Reads-bind float_le.read _ value.coded.reads
      ▸ Reads-bind float_le.read _ time.coded.reads (Reads-pure _);
  writes =
      Writes-then (float_le.write value.value) _ value.coded.writes (Writes-end time.coded.writes);
}

pub Codes-rotation_key_frame_v898 :
    (value : Field vec3) (time : Field float_le)
    → Codes rotation_key_frame_v898
        (record { value = value.value; time = time.value; easing = default_easing })
        (flat (value.bytes ∷ time.bytes ∷ []))
unfolding rotation_key_frame_v898
Codes-rotation_key_frame_v898 value time = record {
  reads =
      Reads-bind vec3.read _ value.coded.reads
      ▸ Reads-bind float_le.read _ time.coded.reads (Reads-pure _);
  writes = Writes-then (vec3.write value.value) _ value.coded.writes (Writes-end time.coded.writes);
}

module _ (total_time : Field float_le) (type : Field byte) (curve : Field (array_type vec3)) where
  abbrev spline_of : List KeyFrame → List RotationKeyFrame → List ℕ → Bool → SplineInstruction
  spline_of progress rotation identifier from_json = record {
    total_time = total_time.value;
    type = type.value;
    curve = curve.value;
    progress_key_frames = progress;
    rotation_key_frames = rotation;
    spline_identifier = identifier;
    load_from_json = from_json;
  }

  abbrev spline_bytes : List ℕ → List ℕ → List ℕ
  spline_bytes progress rotation =
      flat (total_time.bytes ∷ type.bytes ∷ curve.bytes ∷ progress ∷ rotation ∷ [])

  -- The fields that all versions have, for any types of frames.
  pub Codes-spline_with :
      (frame : FieldType KeyFrame) (rotation_frame : FieldType RotationKeyFrame)
      (progress : Field (array_type frame)) (rotation : Field (array_type rotation_frame))
      → Codes
          (spline_with frame rotation_frame)
          (spline_of progress.value rotation.value [] false)
          (spline_bytes progress.bytes rotation.bytes)
  unfolding spline_with
  Codes-spline_with frame rotation_frame progress rotation = record {
    reads =
        Reads-bind float_le.read _ total_time.coded.reads
        ▸ Reads-bind byte.read _ type.coded.reads
        ▸ Reads-bind (array_type vec3).read _ curve.coded.reads
        ▸ Reads-bind (array_type frame).read _ progress.coded.reads
        ▸ Reads-bind (array_type rotation_frame).read _ rotation.coded.reads (Reads-pure _);
    writes =
        Writes-then (float_le.write total_time.value) _ total_time.coded.writes
        ▸ Writes-then (byte.write type.value) _ type.coded.writes
        ▸ Writes-then ((array_type vec3).write curve.value) _ curve.coded.writes
        ▸ Writes-then ((array_type frame).write progress.value) _ progress.coded.writes
            (Writes-end rotation.coded.writes);
  }

  module _ (progress : Field (array_type key_frame))
      (rotation : Field (array_type rotation_key_frame)) where
    pub Codes-spline_v944 :
        (identifier : Field string) (from_json : Field bool)
        → Codes spline_instruction_v944
            (spline_of progress.value rotation.value identifier.value from_json.value)
            (flat (
              spline_bytes progress.bytes rotation.bytes ∷ identifier.bytes ∷ from_json.bytes ∷ []))
    unfolding spline_instruction_v944 spline_instruction_v924 spline_with
    Codes-spline_v944 identifier from_json =
        let c = Codes-spline_with key_frame rotation_key_frame progress rotation in
        record {
          reads =
              Reads-bind spline_instruction_v924.read _ c.reads
              ▸ Reads-bind string.read _ identifier.coded.reads
              ▸ Reads-bind bool.read _ from_json.coded.reads (Reads-pure _);
          writes =
              Writes-then
                (spline_instruction_v924.write
                  (spline_of progress.value rotation.value identifier.value from_json.value))
                _ c.writes
              ▸ Writes-then (string.write identifier.value) _ identifier.coded.writes
                  (Writes-end from_json.coded.writes);
        }

    -- A spline of v924 with its bytes in v944, which has an empty name and a false flag behind it.
    abbrev pub spline_twin : Twin spline_instruction_v924 spline_instruction_v944
    unfolding spline_instruction_v924
    spline_twin =
        alike (spline_of progress.value rotation.value [] false)
          (spline_bytes progress.bytes rotation.bytes)
          (flat (spline_bytes progress.bytes rotation.bytes ∷ (0 ∷ []) ∷ (0 ∷ []) ∷ []))
          (Codes-spline_with key_frame rotation_key_frame progress rotation)
          (Codes-spline_v944 (record { value = []; bytes = 0 ∷ []; coded = no_name })
            (record { value = false; bytes = 0 ∷ []; coded = Codes-bool false }))

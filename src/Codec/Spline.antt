-- ===== src/Codec/Spline.antt =====
-- codec/types/camera.py: the splines of cameras in three versions.
pub mod RoundTrip
use endweave.Prelude.{ℕ, Bool, false, List, [], ℤ, pos}
use endweave.Exec.{pure, ◌>>=◌, ◌>>◌}
use endweave.Codec.FieldType.{FieldType, bool, byte, float_le, int_le, string, vec3, array_type}

pub record KeyFrame : Type 0 where
  pub value : ℕ
  pub time : ℕ
  pub easing : ℤ

pub record RotationKeyFrame : Type 0 where
  pub value : ℕ × ℕ × ℕ
  pub time : ℕ
  pub easing : ℤ

pub record SplineInstruction : Type 0 where
  pub total_time : ℕ
  pub type : ℤ
  pub curve : List (ℕ × ℕ × ℕ)
  pub progress_key_frames : List KeyFrame
  pub rotation_key_frames : List RotationKeyFrame
  pub spline_identifier : List ℕ
  pub load_from_json : Bool

-- `_DEFAULT_EASING`
abbrev pub default_easing : ℤ
default_easing = pos 0

-- One round of the loops over key frames: without the easing in v898, with it from v924 on.
unfoldable pub key_frame_v898 : FieldType KeyFrame
key_frame_v898 = record {
  read = do
    value ← float_le.read
    time ← float_le.read
    pure (record { value = value; time = time; easing = default_easing });
  write = λ kf. do
    float_le.write kf.value
    float_le.write kf.time;
}

unfoldable pub rotation_key_frame_v898 : FieldType RotationKeyFrame
rotation_key_frame_v898 = record {
  read = do
    value ← vec3.read
    time ← float_le.read
    pure (record { value = value; time = time; easing = default_easing });
  write = λ rkf. do
    vec3.write rkf.value
    float_le.write rkf.time;
}

unfoldable pub key_frame : FieldType KeyFrame
key_frame = record {
  read = do
    value ← float_le.read
    time ← float_le.read
    easing ← int_le.read
    pure (record { value = value; time = time; easing = easing });
  write = λ kf. do
    float_le.write kf.value
    float_le.write kf.time
    int_le.write kf.easing;
}

unfoldable pub rotation_key_frame : FieldType RotationKeyFrame
rotation_key_frame = record {
  read = do
    value ← vec3.read
    time ← float_le.read
    easing ← int_le.read
    pure (record { value = value; time = time; easing = easing });
  write = λ rkf. do
    vec3.write rkf.value
    float_le.write rkf.time
    int_le.write rkf.easing;
}

-- The fields that all versions have; the others get their defaults.
unfoldable pub spline_with :
    FieldType KeyFrame → FieldType RotationKeyFrame → FieldType SplineInstruction
spline_with frame rotation_frame = record {
  read = do
    total_time ← float_le.read
    type ← byte.read
    curve ← (array_type vec3).read
    progress ← (array_type frame).read
    rotation ← (array_type rotation_frame).read
    pure (record {
      total_time = total_time;
      type = type;
      curve = curve;
      progress_key_frames = progress;
      rotation_key_frames = rotation;
      spline_identifier = [];
      load_from_json = false;
    });
  write = λ value. do
    float_le.write value.total_time
    byte.write value.type
    (array_type vec3).write value.curve
    (array_type frame).write value.progress_key_frames
    (array_type rotation_frame).write value.rotation_key_frames;
}

unfoldable pub spline_instruction_v898 : FieldType SplineInstruction
spline_instruction_v898 = spline_with key_frame_v898 rotation_key_frame_v898

unfoldable pub spline_instruction_v924 : FieldType SplineInstruction
spline_instruction_v924 = spline_with key_frame rotation_key_frame

unfoldable pub spline_instruction_v944 : FieldType SplineInstruction
spline_instruction_v944 = record {
  read = do
    spline ← spline_instruction_v924.read
    spline_identifier ← string.read
    load_from_json ← bool.read
    pure (record spline { spline_identifier = spline_identifier; load_from_json = load_from_json });
  write = λ value. do
    spline_instruction_v924.write value
    string.write value.spline_identifier
    bool.write value.load_from_json;
}

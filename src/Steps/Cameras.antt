-- ===== src/Steps/Cameras.antt =====
-- protocol/v924_to_v944/handlers/camera.py and protocol/v944_to_v924/handlers/camera.py: cameras,
-- there and back.
use endweave.Prelude.{◌▸◌, ◌^◌, ◌<◌, List, [], ◌∷◌, length}
use endweave.Codec.FieldType.{
  bool, byte, float_le, int64_le, int_le, optional_type, string, vec2, vec3,
}
use endweave.Codec.FieldType.Codes.{Field}
use endweave.Codec.Spline.{spline_instruction_v924, spline_instruction_v944}
use endweave.Codec.Wrapper.Chunk.{Chunk, chain, each, only, same, Twin, twin, counted}
use endweave.Codec.Wrapper.Swaps.{Swaps, Swaps-pure, Swaps-same, Swaps-twin}
use endweave.Codec.Wrapper.Flow.{Swaps-loop, Swaps-end, Swaps-if, Swaps-when}
use endweave.Steps.Rounds.{Rounds, Swaps-Rounds}
use endweave.Steps.V924ToV944.Camera as Up
use endweave.Steps.V944ToV924.Camera as Down

-- A spline in both forms.
abbrev pub SplineTwin : Type 0
SplineTwin = Twin spline_instruction_v924 spline_instruction_v944

-- A spline with its name.
pub record NamedSpline : Type 0 where
  pub name : Field string
  pub spline : SplineTwin

abbrev pub named_spline_chunk : NamedSpline → Chunk
named_spline_chunk s = chain (same s.name ∷ twin s.spline ∷ [])

spline-Swaps : (s : NamedSpline) → Swaps Up.spline Down.spline (named_spline_chunk s) tt
unfolding Up.spline Down.spline
spline-Swaps s = Swaps-same s.name _ _ ▸ Swaps-twin s.spline _ _ ▸ Swaps-pure tt

-- CameraSpline: each spline, there and back.
pub camera_spline_round :
    (splines : List NamedSpline) (few : length splines < 2 ^ 32)
    → Rounds Up.rewrite_camera_spline Down.rewrite_camera_spline
        (same (counted (length splines) few) ∷ each named_spline_chunk splines ∷ [])
unfolding Up.rewrite_camera_spline Down.rewrite_camera_spline
camera_spline_round splines few = Swaps-Rounds _ _ _ (
    Swaps-same (counted (length splines) few) _ _
    ▸ Swaps-loop Up.spline Down.spline named_spline_chunk spline-Swaps splines _ _
    ▸ Swaps-pure tt)

-- The parts of an instruction.
pub record CameraSet : Type 0 where
  pub preset : Field int_le
  pub has_ease : Field bool
  pub ease_type : Field byte
  pub ease_time : Field float_le
  pub position : Field (optional_type vec3)
  pub rotation : Field (optional_type vec2)
  pub facing : Field (optional_type vec3)
  pub view_offset : Field (optional_type vec2)
  pub entity_offset : Field (optional_type vec3)
  pub default : Field (optional_type bool)
  pub remove_ignore_starting_values : Field bool

abbrev pub set_chunk : CameraSet → Chunk
set_chunk s = chain (
    same s.preset
    ∷ same s.has_ease
    ∷ only s.has_ease.value (chain (same s.ease_type ∷ same s.ease_time ∷ []))
    ∷ same s.position
    ∷ same s.rotation
    ∷ same s.facing
    ∷ same s.view_offset
    ∷ same s.entity_offset
    ∷ same s.default
    ∷ same s.remove_ignore_starting_values
    ∷ [])

set-Swaps : (s : CameraSet) → Swaps Up.set Down.set (set_chunk s) tt
unfolding Up.set Down.set
set-Swaps s =
    Swaps-same s.preset _ _
    ▸ Swaps-same s.has_ease _ _
    ▸ Swaps-if s.has_ease.value _ _ _ _
        (Swaps-same s.ease_type _ _ ▸ Swaps-same s.ease_time _ _ ▸ Swaps-pure tt)
    ▸ Swaps-same s.position _ _
    ▸ Swaps-same s.rotation _ _
    ▸ Swaps-same s.facing _ _
    ▸ Swaps-same s.view_offset _ _
    ▸ Swaps-same s.entity_offset _ _
    ▸ Swaps-same s.default _ _
    ▸ Swaps-same s.remove_ignore_starting_values _ _
    ▸ Swaps-pure tt

-- Three numbers: times, or a color.
pub record Floats : Type 0 where
  pub first : Field float_le
  pub second : Field float_le
  pub third : Field float_le

abbrev pub floats_chunk : Floats → Chunk
floats_chunk t = chain (same t.first ∷ same t.second ∷ same t.third ∷ [])

floats-Swaps : (t : Floats) → Swaps Up.three_floats Down.three_floats (floats_chunk t) tt
floats-Swaps t =
    Swaps-same t.first _ _ ▸ Swaps-same t.second _ _ ▸ Swaps-same t.third _ _ ▸ Swaps-pure tt

pub record Fade : Type 0 where
  pub has_time : Field bool
  pub time : Floats
  pub has_color : Field bool
  pub color : Floats

abbrev pub fade_chunk : Fade → Chunk
fade_chunk f = chain (
    same f.has_time
    ∷ only f.has_time.value (floats_chunk f.time)
    ∷ same f.has_color
    ∷ only f.has_color.value (floats_chunk f.color)
    ∷ [])

fade-Swaps : (f : Fade) → Swaps Up.fade Down.fade (fade_chunk f) tt
unfolding Up.fade Down.fade
fade-Swaps f =
    Swaps-same f.has_time _ _
    ▸ Swaps-if f.has_time.value _ _ _ _ (floats-Swaps f.time)
    ▸ Swaps-same f.has_color _ _
    ▸ Swaps-end
    ▸ Swaps-when f.has_color.value _ _ (floats-Swaps f.color)

pub record CameraInstruction : Type 0 where
  pub has_set : Field bool
  pub set : CameraSet
  pub clear : Field (optional_type bool)
  pub has_fade : Field bool
  pub fade : Fade
  pub has_target : Field bool
  pub target_offset : Field (optional_type vec3)
  pub target_actor : Field int64_le
  pub remove_target : Field (optional_type bool)
  pub has_view : Field bool
  pub view : Field float_le
  pub view_ease_time : Field float_le
  pub view_ease_type : Field byte
  pub view_clear : Field bool
  pub has_spline : Field bool
  pub spline : SplineTwin

-- Each part is there only under its flag.
abbrev pub camera_instruction_chunks : CameraInstruction → List Chunk
camera_instruction_chunks c =
    same c.has_set
    ∷ only c.has_set.value (set_chunk c.set)
    ∷ same c.clear
    ∷ same c.has_fade
    ∷ only c.has_fade.value (fade_chunk c.fade)
    ∷ same c.has_target
    ∷ only c.has_target.value (chain (same c.target_offset ∷ same c.target_actor ∷ []))
    ∷ same c.remove_target
    ∷ same c.has_view
    ∷ only c.has_view.value (
        chain
          (same c.view ∷ same c.view_ease_time ∷ same c.view_ease_type ∷ same c.view_clear ∷ []))
    ∷ same c.has_spline
    ∷ only c.has_spline.value (chain (twin c.spline ∷ []))
    ∷ []

-- CameraInstruction: the spline behind the other optional parts, there and back.
pub camera_instruction_round :
    (c : CameraInstruction)
    → Rounds Up.rewrite_camera_instruction Down.rewrite_camera_instruction
        (camera_instruction_chunks c)
unfolding Up.rewrite_camera_instruction Down.rewrite_camera_instruction
camera_instruction_round c = Swaps-Rounds _ _ _ (
    Swaps-same c.has_set _ _
    ▸ Swaps-if c.has_set.value _ _ _ _ (set-Swaps c.set)
    ▸ Swaps-same c.clear _ _
    ▸ Swaps-same c.has_fade _ _
    ▸ Swaps-if c.has_fade.value _ _ _ _ (fade-Swaps c.fade)
    ▸ Swaps-same c.has_target _ _
    ▸ Swaps-if c.has_target.value _ _ _ _
        (Swaps-same c.target_offset _ _ ▸ Swaps-same c.target_actor _ _ ▸ Swaps-pure tt)
    ▸ Swaps-same c.remove_target _ _
    ▸ Swaps-same c.has_view _ _
    ▸ Swaps-if c.has_view.value _ _ _ _ (
        Swaps-same c.view _ _
        ▸ Swaps-same c.view_ease_time _ _
        ▸ Swaps-same c.view_ease_type _ _
        ▸ Swaps-same c.view_clear _ _
        ▸ Swaps-pure tt)
    ▸ Swaps-same c.has_spline _ _
    ▸ Swaps-end
    ▸ Swaps-when c.has_spline.value _ _
    ▸ Swaps-twin c.spline _ _
    ▸ Swaps-pure tt)

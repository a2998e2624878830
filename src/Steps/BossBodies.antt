-- ===== src/Steps/BossBodies.antt =====
-- protocol/v975_to_v1001/handlers/boss_event.py: the fields of a bar in both versions.
use endweave.Prelude.{
  ◌▸◌, ℕ, ◌^◌, ◌<◌, ◌≡◌, false, List, [], ◌∷◌, ◌++◌, ℤ, pos, ◌==◌, int_eq, arith, if◌then◌else◌,
}
use endweave.Codec.Leb128.{groups}
use endweave.Codec.Word.{to_le}
use endweave.Codec.FieldType.{FieldType, float_le, string, ushort_le, uvar_int, var_int64}
use endweave.Codec.FieldType.Codes.{Field}
use endweave.Codec.FieldType.Primitives.{Codes-float_le}
use endweave.Codec.FieldType.Variable.{Codes-uvar_int, Codes-var_int64}
use endweave.Codec.Spline.RoundTrip.{no_name}
use endweave.Codec.Wrapper.{read}
use endweave.Codec.Wrapper.Fields.{Rewrites, Rewrites-bind, Rewrites-pure, Rewrites-read}
use endweave.Connection.{User}
use endweave.Steps.V975ToV1001.BossEvent.{
  Body, Event, show, player, hide, health_percentage, titled, appearance_properties, texture,
  unknown, read_body,
}

-- The fields of a bar. The colour is a byte other than 7, which v975 does not have.
pub record Bar : Type 0 where
  pub player_id : Field var_int64
  pub title : Field string
  pub filtered : Field string
  pub health : Field float_le
  pub darkening : Field ushort_le
  pub colour : ℕ
  pub colour_byte : colour < 2 ^ 8
  pub not_seven : (colour == 7) ≡ false
  pub overlay : ℕ
  pub overlay_byte : overlay < 2 ^ 8

-- The bytes of v975, of the fields that the event has.
abbrev pub older_body : Event → Bar → List ℕ → List ℕ
older_body show b dark =
    b.title.bytes
    ++ (b.filtered.bytes
        ++ (b.health.bytes ++ (dark ++ (groups 4 b.colour ++ (groups 4 b.overlay ++ [])))))
older_body player b dark = b.player_id.bytes ++ []
older_body hide b dark = []
older_body health_percentage b dark = b.health.bytes ++ []
older_body titled b dark = b.title.bytes ++ (b.filtered.bytes ++ [])
older_body appearance_properties b dark = dark ++ (groups 4 b.colour ++ (groups 4 b.overlay ++ []))
older_body texture b dark = groups 4 b.colour ++ (groups 4 b.overlay ++ [])
older_body unknown b dark = []

-- The fields that the event does not have are zero or empty.
abbrev no_player : Field var_int64
no_player = record {
  value = pos 0;
  bytes = groups 9 0;
  coded = Codes-var_int64 (pos 0) (omega arith);
}

abbrev no_text : Field string
no_text = record { value = []; bytes = 0 ∷ []; coded = no_name }

abbrev no_health : Field float_le
no_health = record { value = 0; bytes = to_le 4 0; coded = Codes-float_le 0 (omega arith) }

-- Which of the fields the event has: the player's number, the texts, the health, the colours.
pub record Shown : Type 0 where
  pub player_id : Field var_int64
  pub title : Field string
  pub filtered : Field string
  pub health : Field float_le
  pub colour : ℕ
  pub overlay : ℕ

abbrev none_shown : Shown
none_shown = record {
  player_id = no_player;
  title = no_text;
  filtered = no_text;
  health = no_health;
  colour = 0;
  overlay = 0;
}

abbrev pub shown : Event → Bar → Shown
shown show b = record none_shown {
  title = b.title;
  filtered = b.filtered;
  health = b.health;
  colour = b.colour;
  overlay = b.overlay;
}
shown player b = record none_shown { player_id = b.player_id }
shown hide b = none_shown
shown health_percentage b = record none_shown { health = b.health }
shown titled b = record none_shown { title = b.title; filtered = b.filtered }
shown appearance_properties b = record none_shown { colour = b.colour; overlay = b.overlay }
shown texture b = record none_shown { colour = b.colour; overlay = b.overlay }
shown unknown b = none_shown

abbrev pub body_of : Shown → ℤ → Body
body_of s colour = record {
  player_unique_id = s.player_id.value;
  title = s.title.value;
  filtered_title = s.filtered.value;
  health = s.health.value;
  colour = colour;
  overlay = pos s.overlay;
}

-- White is 6 in v975 and 7 in v1001.
abbrev pub newer_colour : ℕ → ℕ
newer_colour colour = if colour == 6 then 7 else colour

pub take :
    {A : Type 0} {T : FieldType A} (f : Field T) → Rewrites {U = User} (read T) f.bytes [] f.value
take {T = T} f = Rewrites-read T f.value f.bytes f.coded

abbrev pub number_field : (n : ℕ) → n < 2 ^ 8 → Field uvar_int
number_field n h = record {
  value = pos n;
  bytes = groups 4 n;
  coded = Codes-uvar_int n (omega arith);
}

pub read_body-Rewrites :
    (e : Event) (b : Bar)
    → Rewrites
        (read_body e)
        (older_body e b b.darkening.bytes)
        []
        (body_of (shown e b) (pos (shown e b).colour))
unfolding read_body
read_body-Rewrites show b = Rewrites-bind (read string) _ (take b.title) (
    Rewrites-bind (read string) _ (take b.filtered)
    ▸ Rewrites-bind (read float_le) _ (take b.health)
    ▸ Rewrites-bind (read ushort_le) _ (take b.darkening)
    ▸ Rewrites-bind (read uvar_int) _ (take (number_field b.colour b.colour_byte))
    ▸ Rewrites-bind (read uvar_int) _ (take (number_field b.overlay b.overlay_byte))
        (Rewrites-pure _))
read_body-Rewrites player b = Rewrites-bind (read var_int64) _ (take b.player_id) (Rewrites-pure _)
read_body-Rewrites hide b = Rewrites-pure _
read_body-Rewrites health_percentage b =
    Rewrites-bind (read float_le) _ (take b.health) (Rewrites-pure _)
read_body-Rewrites titled b =
    Rewrites-bind (read string) _ (take b.title)
      (Rewrites-bind (read string) _ (take b.filtered) (Rewrites-pure _))
read_body-Rewrites appearance_properties b = Rewrites-bind (read ushort_le) _ (take b.darkening) (
    Rewrites-bind (read uvar_int) _ (take (number_field b.colour b.colour_byte))
    ▸ Rewrites-bind (read uvar_int) _ (take (number_field b.overlay b.overlay_byte))
        (Rewrites-pure _))
read_body-Rewrites texture b =
    Rewrites-bind (read uvar_int) _ (take (number_field b.colour b.colour_byte)) (
      Rewrites-bind (read uvar_int) _ (take (number_field b.overlay b.overlay_byte))
        (Rewrites-pure _))
read_body-Rewrites unknown b = Rewrites-pure _

-- ===== src/Steps/BossWrites.antt =====
-- protocol/v975_to_v1001/handlers/boss_event.py: the fields of a bar, as they are written.
use endweave.Prelude.{
  ℕ, ◌^◌, ◌<◌, ◌≡◌, false, List, [], ◌∷◌, ◌++◌, pos, ◌==◌, lookup, int_eq, arith, append-nil,
}
use endweave.Exec.{◌>>◌}
use endweave.Codec.Leb128.{groups}
use endweave.Codec.Word.{to_le}
use endweave.Codec.FieldType.{FieldType, float_le, string, ushort_le, uvar_int, var_int64}
use endweave.Codec.FieldType.Codes.{Field}
use endweave.Codec.FieldType.Primitives.{Codes-ushort_le}
use endweave.Codec.Wrapper.{write}
use endweave.Codec.Wrapper.Fields.{Rewrites, Rewrites-bind, Rewrites-pure, Rewrites-write}
use endweave.Connection.{User}
use endweave.Steps.V975ToV1001.BossEvent.{
  Event, show, player, hide, health_percentage, titled, appearance_properties, texture, unknown,
  event_of, colour_to_v975, write_body,
}
use endweave.Steps.BossBodies.{Bar, older_body, shown, body_of, newer_colour, number_field}

pub put :
    {A : Type 0} {T : FieldType A} (f : Field T)
    → Rewrites {U = User} (write T f.value) [] f.bytes tt
put {T = T} f = Rewrites-write T f.value f.bytes f.coded

colour_back : (c : ℕ) → c < 2 ^ 8 → (c == 7) ≡ false → colour_to_v975 (pos (newer_colour c)) ≡ pos c
unfolding colour_to_v975 lookup
colour_back c h n = ground arith

put_colour :
    (b : Bar)
    → Rewrites {U = User}
        (write uvar_int (colour_to_v975 (pos (newer_colour b.colour))))
        []
        (groups 4 b.colour)
        tt
put_colour b =
    rw (colour_back b.colour b.colour_byte b.not_seven) (put (number_field b.colour b.colour_byte))

put_colours :
    (b : Bar)
    → Rewrites {U = User}
        (write uvar_int (colour_to_v975 (pos (newer_colour b.colour)))
          >> write uvar_int (pos b.overlay))
        []
        (groups 4 b.colour ++ (groups 4 b.overlay ++ []))
        tt
put_colours b =
    Rewrites-bind (write uvar_int (colour_to_v975 (pos (newer_colour b.colour)))) _ (put_colour b)
      (rw (append-nil (groups 4 b.overlay)) (put (number_field b.overlay b.overlay_byte)))

put_dark_colours :
    (b : Bar)
    → Rewrites {U = User}
        (write ushort_le (pos 0)
          >> (write uvar_int (colour_to_v975 (pos (newer_colour b.colour)))
              >> write uvar_int (pos b.overlay)))
        []
        (0 ∷ 0 ∷ groups 4 b.colour ++ (groups 4 b.overlay ++ []))
        tt
unfolding to_le
put_dark_colours b =
    Rewrites-bind (write ushort_le (pos 0)) _
      (Rewrites-write ushort_le (pos 0) (0 ∷ 0 ∷ []) (Codes-ushort_le 0 (omega arith)))
      (put_colours b)

pub write_body-Rewrites :
    (e : Event) (b : Bar)
    → Rewrites
        (write_body e (body_of (shown e b) (pos (newer_colour (shown e b).colour))))
        []
        (older_body e b (0 ∷ 0 ∷ []))
        tt
unfolding write_body
write_body-Rewrites show b = Rewrites-bind (write string b.title.value) _ (put b.title) (
    Rewrites-bind (write string b.filtered.value) _ (put b.filtered)
      (Rewrites-bind (write float_le b.health.value) _ (put b.health) (put_dark_colours b)))
write_body-Rewrites player b = rw (append-nil b.player_id.bytes) (put b.player_id)
write_body-Rewrites hide b = Rewrites-pure tt
write_body-Rewrites health_percentage b = rw (append-nil b.health.bytes) (put b.health)
write_body-Rewrites titled b =
    Rewrites-bind (write string b.title.value) _ (put b.title)
      (rw (append-nil b.filtered.bytes) (put b.filtered))
write_body-Rewrites appearance_properties b = put_dark_colours b
write_body-Rewrites texture b = put_colours b
write_body-Rewrites unknown b = Rewrites-pure tt

pub shown_colour :
    (e : Event) (b : Bar) → ((shown e b).colour < 2 ^ 8) × ((shown e b).overlay < 2 ^ 8)
shown_colour show b = (b.colour_byte, b.overlay_byte)
shown_colour player b = (omega arith, omega arith)
shown_colour hide b = (omega arith, omega arith)
shown_colour health_percentage b = (omega arith, omega arith)
shown_colour titled b = (omega arith, omega arith)
shown_colour appearance_properties b = (b.colour_byte, b.overlay_byte)
shown_colour texture b = (b.colour_byte, b.overlay_byte)
shown_colour unknown b = (omega arith, omega arith)

-- The bytes of v975: the fields of the event, with these two bytes for the darkening.
abbrev pub older_bytes : Field var_int64 → ℕ → Bar → List ℕ → List ℕ
older_bytes boss type b dark =
    boss.bytes ++ (groups 4 type ++ older_body (event_of (pos type)) b dark)

-- The bytes of v1001: all fields.
abbrev pub newer_bytes : Field var_int64 → ℕ → Bar → List ℕ
newer_bytes boss type b =
    let s = shown (event_of (pos type)) b in
    boss.bytes
    ++ (s.player_id.bytes
        ++ (type ∷ s.title.bytes
            ++ (s.filtered.bytes ++ (s.health.bytes ++ (newer_colour s.colour ∷ s.overlay ∷ [])))))

-- ===== src/Steps/Bosses.antt =====
-- protocol/v975_to_v1001/handlers/boss_event.py: the bars of bosses, to the client and back.
use endweave.Prelude.{
  ◌▸◌, ℕ, ◌^◌, ◌<◌, ◌≡◌, some, List, [], ◌∷◌, ◌++◌, ℤ, pos, lookup, int_eq, arith, append-nil,
}
use endweave.Exec.{raised, value_error}
use endweave.Codec.Leb128.{groups}
use endweave.Codec.FieldType.{byte, float_le, string, uvar_int, var_int64}
use endweave.Codec.FieldType.Codes.{Field}
use endweave.Codec.FieldType.Primitives.{Codes-byte}
use endweave.Codec.Wrapper.{wrap, read, write}
use endweave.Codec.Wrapper.Fields.{Rewrites, Rewrites-bind, Rewrites-read, Rewrites-write}
use endweave.Connection.{User}
use endweave.Protocol.Base.Detect.{Forwards, start_Holds}
use endweave.Steps.V975ToV1001.BossEvent.{
  Event, event_of, low_byte, colour_to_v1001, read_body, rewrite_boss_event,
  rewrite_boss_event_serverbound,
}
use endweave.Steps.Consumed.{
  Consumes, Consumes-bind, Consumes-check, Consumes-Forwards, Refuses, Refuses-bind, Refuses-check,
}
use endweave.Steps.BossBodies.{
  Bar, older_body, Shown, shown, newer_colour, take, number_field, read_body-Rewrites,
}
use endweave.Steps.BossWrites.{put, write_body-Rewrites, shown_colour, older_bytes, newer_bytes}

low_byte_small : (n : ℕ) → n < 2 ^ 8 → low_byte (pos n) ≡ pos n
low_byte_small n h = ground arith

colour_up : (c : ℕ) → c < 2 ^ 8 → colour_to_v1001 (pos c) ≡ pos (newer_colour c)
unfolding colour_to_v1001 lookup
colour_up c h = ground arith

newer_colour-lt : (c : ℕ) → c < 2 ^ 8 → newer_colour c < 2 ^ 8
newer_colour-lt c h = ground arith

put_byte :
    (v : ℤ) (n : ℕ) → v ≡ pos n → n < 2 ^ 8 → Rewrites {U = User} (write byte v) [] (n ∷ []) tt
put_byte v n e h = rw e (Rewrites-write byte (pos n) (n ∷ []) (Codes-byte n (omega arith)))

module _ (boss : Field var_int64) (type : ℕ) (type_byte : type < 2 ^ 8) (b : Bar) where
  abbrev event : Event
  event = event_of (pos type)

  abbrev s : Shown
  s = shown event b

  upward :
      Consumes rewrite_boss_event
        (boss.bytes ++ (groups 4 type ++ (older_body event b b.darkening.bytes ++ [])))
        (newer_bytes boss type b)
  unfolding rewrite_boss_event
  upward =
      Consumes-bind (read var_int64) _ (take boss)
      ▸ Consumes-bind (read uvar_int) _ (take (number_field type type_byte))
      ▸ Consumes-bind (read_body event) _ (read_body-Rewrites event b) (
          Consumes-check _ (
            Rewrites-bind (write var_int64 boss.value) _ (put boss)
            ▸ Rewrites-bind (write var_int64 s.player_id.value) _ (put s.player_id)
            ▸ Rewrites-bind (write byte (low_byte (pos type))) _
                (put_byte _ type (low_byte_small type type_byte) type_byte)
            ▸ Rewrites-bind (write string s.title.value) _ (put s.title)
            ▸ Rewrites-bind (write string s.filtered.value) _ (put s.filtered)
            ▸ Rewrites-bind (write float_le s.health.value) _ (put s.health)
            ▸ Rewrites-bind (write byte (colour_to_v1001 (pos s.colour))) _
                (put_byte _ (newer_colour s.colour) (colour_up s.colour (shown_colour event b).0)
                  (newer_colour-lt s.colour (shown_colour event b).0))
                (put_byte _ s.overlay (low_byte_small s.overlay (shown_colour event b).1)
                  (shown_colour event b).1)))

  take_byte : (n : ℕ) → n < 2 ^ 8 → Rewrites {U = User} (read byte) (n ∷ []) [] (pos n)
  take_byte n h = Rewrites-read byte (pos n) (n ∷ []) (Codes-byte n (omega arith))

  downward :
      Consumes rewrite_boss_event_serverbound
        (newer_bytes boss type b)
        (older_bytes boss type b (0 ∷ 0 ∷ []))
  unfolding rewrite_boss_event_serverbound
  downward =
      Consumes-bind (read var_int64) _ (take boss)
      ▸ Consumes-bind (read var_int64) _ (take s.player_id)
      ▸ Consumes-bind (read byte) _ (take_byte type type_byte)
      ▸ Consumes-bind (read string) _ (take s.title)
      ▸ Consumes-bind (read string) _ (take s.filtered)
      ▸ Consumes-bind (read float_le) _ (take s.health)
      ▸ Consumes-bind (read byte) _
          (take_byte (newer_colour s.colour) (newer_colour-lt s.colour (shown_colour event b).0))
      ▸ Consumes-bind (read byte) _ (take_byte s.overlay (shown_colour event b).1) (
          Consumes-check _ (
            Rewrites-bind (write var_int64 boss.value) _ (put boss)
            ▸ Rewrites-bind (write uvar_int (pos type)) _ (put (number_field type type_byte))
                (write_body-Rewrites event b)))

  -- BossEvent with a type below 256 and the fields that this type has, its colour and its overlay
  -- bytes and the colour not 7, which v975 does not have: the handler returns, does not
  -- cancel, leaves the connection, and forwards all fields in the order of v1001, with zeros and
  -- empty texts for the fields that the type does not have. What a client of v1001 sends so is
  -- forwarded as the fields of the type, with zero for the darkening. White comes back as white.
  pub boss_event_round :
      (u : User)
      → Forwards
          (rewrite_boss_event (wrap (older_bytes boss type b b.darkening.bytes) (some u)))
          (newer_bytes boss type b)
          u
        × Forwards
            (rewrite_boss_event_serverbound (wrap (newer_bytes boss type b) (some u)))
            (older_bytes boss type b (0 ∷ 0 ∷ []))
            u
  boss_event_round u = (
    Consumes-Forwards rewrite_boss_event u
        (rw (append-nil (older_body event b b.darkening.bytes)) at upward),
    Consumes-Forwards rewrite_boss_event_serverbound u downward,
  )

  -- BossEvent of v975 under the same conditions (the type fits a byte; a colour and an overlay that the
  -- type writes fit a byte, and the colour is not 7) with at least one byte behind the fields of its
  -- type: the handler raises a ValueError.
  pub boss_event_trailing :
      (extra : ℕ) (rest : List ℕ) (u : User)
      → (rewrite_boss_event
          (wrap (older_bytes boss type b b.darkening.bytes ++ (extra ∷ rest)) (some u))).0
        ≡ raised value_error
  unfolding rewrite_boss_event
  boss_event_trailing extra rest u =
      refuses.at (wrap payload (some u)) extra rest (start_Holds payload (some u))
    where
      payload : List ℕ
      payload = older_bytes boss type b b.darkening.bytes ++ (extra ∷ rest)

      unended :
          Refuses rewrite_boss_event
            (boss.bytes ++ (groups 4 type ++ (older_body event b b.darkening.bytes ++ [])))
      unended =
          Refuses-bind (read var_int64) _ (take boss)
          ▸ Refuses-bind (read uvar_int) _ (take (number_field type type_byte))
          ▸ Refuses-bind (read_body event) _ (read_body-Rewrites event b) (Refuses-check _)

      refuses : Refuses rewrite_boss_event (older_bytes boss type b b.darkening.bytes)
      refuses = rw (append-nil (older_body event b b.darkening.bytes)) at unended

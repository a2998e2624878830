-- ===== src/Steps/Relayed.antt =====
-- protocol/v944_to_v975 and protocol/v975_to_v1001 in a row, as pipeline.py runs them: the sounds
-- between a server of v944 and a client of v1001.
use endweave.Prelude.{
  ◌▸◌, ℕ, ◌≡◌, refl, ◌∙◌, false, some, List, [], ◌∷◌, ◌++◌, lookup, insert, contains, int_eq,
  append_assoc,
}
use endweave.Codec.FieldType.{bool, int64_le, string, uvar_int, var_int, vec3}
use endweave.Codec.FieldType.Codes.{Field}
use endweave.Codec.FieldType.Primitives.{Codes-bool}
use endweave.Codec.Wrapper.{wrap, read, write}
use endweave.Codec.Wrapper.Chunk.{Chunk, added, chain, same}
use endweave.Codec.Wrapper.Fields.{Rewrites-bind, Rewrites-read, Rewrites-write}
use endweave.Connection.{User}
use endweave.Protocol
use endweave.Protocol.{
  Protocol, PacketHandler, Direction, serverbound, clientbound, transform, has_handler_or_cancel,
}
use endweave.Protocol.Base.Detect.{Forwards}
use endweave.Protocol.MappingData.{shift_up}
use endweave.Pipeline.{passed, run}
use endweave.Rewriter.Sound
use endweave.Rewriter.Sound.{level_sound_event}
use endweave.Steps.Actions.{flag}
use endweave.Steps.Items.{pass}
use endweave.Steps.Mappings.{v944_v975}
use endweave.Steps.Rounds.{Rewrites-Forwards}
use endweave.Steps.Sounds.{level_sound_event_round}
use endweave.Pipeline.Forwarded.{run-Forwards}
use endweave.Steps.Tables.{register_each}
use endweave.Steps.V975ToV1001.SoundNames.{sound_event_names}
use endweave.Steps.V944ToV975.Added.{rewrite_level_sound_event}
use endweave.Steps.V944ToV975 as V975
use endweave.Steps.V975ToV1001 as V1001

-- The fields of the packet behind the number of the sound.
pub record Heard : Type 0 where
  pub position : Field vec3
  pub extra : Field var_int
  pub entity : Field string
  pub is_baby : Field bool
  pub is_global : Field bool
  pub unique : Field int64_le

-- v975 has one more flag.
abbrev pub heard : Heard → Chunk
heard s = chain (
    same s.position
    ∷ same s.extra
    ∷ same s.entity
    ∷ same s.is_baby
    ∷ same s.is_global
    ∷ same s.unique
    ∷ added (flag false)
    ∷ [])

module _ (crafting attributes : PacketHandler) (older newer : Field uvar_int) (name : Field string)
    (s : Heard) (rest : List ℕ) (u : User)
    (is_shifted : newer.value ≡ shift_up v944_v975.sound older.value)
    (is_named : lookup newer.value sound_event_names ≡ some name.value) where
  abbrev step : Protocol
  step = V975.create_protocol crafting attributes

  older_step :
      Forwards
        (rewrite_level_sound_event (wrap ((older.bytes ++ (heard s).older) ++ rest) (some u)))
        ((newer.bytes ++ (heard s).newer) ++ rest)
        u
  unfolding rewrite_level_sound_event
  older_step = Rewrites-Forwards rewrite_level_sound_event rest u (
      Rewrites-bind (read uvar_int) _ (Rewrites-read uvar_int older.value older.bytes older.coded)
      ▸ Rewrites-bind (write uvar_int (shift_up v944_v975.sound older.value)) _ (
          rw is_shifted at (Rewrites-write {U = User} uvar_int newer.value newer.bytes newer.coded))
      ▸ pass s.position _
      ▸ pass s.extra _
      ▸ pass s.entity _
      ▸ pass s.is_baby _
      ▸ pass s.is_global _
      ▸ pass s.unique _ (Rewrites-write bool false (0 ∷ []) (Codes-bool false)))

  named_step :
      Forwards
        (V1001.LevelSound.rewrite_level_sound_event clientbound
          (wrap ((newer.bytes ++ (heard s).newer) ++ rest) (some u)))
        ((name.bytes ++ (heard s).newer) ++ rest)
        u
      × Forwards
          (V1001.LevelSound.rewrite_level_sound_event serverbound
            (wrap ((name.bytes ++ (heard s).newer) ++ rest) (some u)))
          ((newer.bytes ++ (heard s).newer) ++ rest)
          u
  named_step =
      rw
        (
          append_assoc newer.bytes (heard s).newer rest,
          append_assoc name.bytes (heard s).newer rest,
        )
        (level_sound_event_round newer name ((heard s).newer ++ rest) u is_named)

  -- LevelSoundEvent of a server of v944, with its fields coded, whose number, shifted by the sounds that
  -- v975 inserted, the table names: the loop over the steps to v975 and v1001 forwards the packet to a
  -- client of v1001 with the name, and with a false flag behind its fields. The same packet from the
  -- client is forwarded to the server with the shifted number, and with the flag. The connection stays.
  -- The handlers that are not modelled may be any.
  pub level_sound_event_relayed :
      (run clientbound level_sound_event
          (step ∷ V1001.create_protocol ∷ [])
          ((older.bytes ++ (heard s).older) ++ rest)
          u
        ≡ (passed ((name.bytes ++ (heard s).newer) ++ rest), u))
      × (run serverbound level_sound_event
            (V1001.create_protocol ∷ step ∷ [])
            ((name.bytes ++ (heard s).newer) ++ rest)
            u
          ≡ (passed ((newer.bytes ++ (heard s).newer) ++ rest), u))
  unfolding run transform has_handler_or_cancel V975.create_protocol V1001.create_protocol
      register_each Protocol.register Protocol.cancel_packets Protocol.create Sound.register lookup
      insert contains
  level_sound_event_relayed = (
    run-Forwards clientbound level_sound_event step (V1001.create_protocol ∷ []) _ _ u refl
          older_step
        ∙ run-Forwards clientbound level_sound_event V1001.create_protocol [] _ _ u refl
            named_step.0,
    run-Forwards serverbound level_sound_event V1001.create_protocol (step ∷ []) _ _ u refl
        named_step.1,
  )

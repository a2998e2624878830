-- ===== src/Steps/V975ToV1001/LevelSound.antt =====
-- protocol/v975_to_v1001/handlers/level_sound_event.py: sounds by number and by name.
use endweave.Prelude.{ℕ, List, [], Option, none, some, lookup, int_eq, list_eq, ℤ, pos}
use endweave.Exec.{pure, ◌>>=◌, ◌>>◌}
use endweave.Codec.FieldType.{string, uvar_int}
use endweave.Codec.Wrapper.{read, write, passthrough_all}
use endweave.Protocol.{PacketHandler, Direction, serverbound, clientbound}
use endweave.Steps.V975ToV1001.SoundNames.{sound_event_names, sound_event_ids}

-- `d.get(key, default)`
abbrev pub get_or : {A : Type 0} → A → Option A → A
get_or default none = default
get_or default (some v) = v

unfoldable pub name_of : ℤ → List ℕ
name_of sound_id = get_or [] (lookup sound_id sound_event_names)

unfoldable pub id_of : List ℕ → ℤ
id_of sound_name = get_or (pos 0) (lookup sound_name sound_event_ids)

unfoldable pub rewrite_level_sound_event : Direction → PacketHandler
rewrite_level_sound_event clientbound = do
  sound_id ← read uvar_int
  write string (name_of sound_id)
  _ ← passthrough_all
  pure tt
rewrite_level_sound_event serverbound = do
  sound_name ← read string
  write uvar_int (id_of sound_name)
  _ ← passthrough_all
  pure tt

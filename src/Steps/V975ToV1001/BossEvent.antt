-- ===== src/Steps/V975ToV1001/BossEvent.antt =====
-- protocol/v975_to_v1001/handlers/boss_event.py: the bars of bosses, whose fields depend on the type
-- of the event in v975, and are all there in v1001.
use endweave.Prelude.{
  ℕ, ◌^◌, ◌||◌, List, [], ◌∷◌, ℤ, pos, eqb_ℤ, lookup, int_eq, mask, if◌then◌else◌,
}
use endweave.Exec.{Exec, pure, raise, value_error, ◌>>=◌, ◌>>◌}
use endweave.Codec.FieldType.{byte, float_le, string, ushort_le, uvar_int, var_int64}
use endweave.Codec.Wrapper.{read, write, has_remaining}
use endweave.Protocol.{PacketHandler, Wrapper}
use endweave.Steps.V975ToV1001.LevelSound.{get_or}

-- The fields of v1001, but the two that are read first.
pub record Body : Type 0 where
  pub player_unique_id : ℤ
  pub title : List ℕ
  pub filtered_title : List ℕ
  pub health : ℕ
  pub colour : ℤ
  pub overlay : ℤ

abbrev pub defaults : Body
defaults = record {
  player_unique_id = pos 0;
  title = [];
  filtered_title = [];
  health = 0;
  colour = pos 0;
  overlay = pos 0;
}

-- `v & 0xFF`
abbrev pub low_byte : ℤ → ℤ
low_byte v = pos (mask v (2 ^ 8))

unfoldable pub colour_to_v1001 : ℤ → ℤ
colour_to_v1001 colour_v975 =
    low_byte (get_or colour_v975 (lookup colour_v975 ((pos 6, pos 7) ∷ [])))

unfoldable pub colour_to_v975 : ℤ → ℤ
colour_to_v975 colour_v1001 =
    low_byte (get_or colour_v1001 (lookup colour_v1001 ((pos 7, pos 6) ∷ [])))

-- The types of events, by their numbers.
pub data Event : Type 0 where
  show player hide health_percentage titled appearance_properties texture unknown : Event

abbrev pub event_of : ℤ → Event
event_of event_type =
    if eqb_ℤ event_type (pos 0)
    then show
    else if eqb_ℤ event_type (pos 1) || eqb_ℤ event_type (pos 3) || eqb_ℤ event_type (pos 8)
    then player
    else if eqb_ℤ event_type (pos 2)
    then hide
    else if eqb_ℤ event_type (pos 4)
    then health_percentage
    else if eqb_ℤ event_type (pos 5)
    then titled
    else if eqb_ℤ event_type (pos 6)
    then appearance_properties
    else if eqb_ℤ event_type (pos 7)
    then texture
    else unknown

unfoldable pub read_body : Event → Exec Wrapper Body
read_body show = do
  title ← read string
  filtered_title ← read string
  health ← read float_le
  _ ← read ushort_le
  colour ← read uvar_int
  overlay ← read uvar_int
  pure (record defaults {
    title = title;
    filtered_title = filtered_title;
    health = health;
    colour = colour;
    overlay = overlay;
  })
read_body player = do
  player_unique_id ← read var_int64
  pure (record defaults { player_unique_id = player_unique_id })
read_body hide = pure defaults
read_body health_percentage = do health ← read float_le; pure (record defaults { health = health })
read_body titled = do
  title ← read string
  filtered_title ← read string
  pure (record defaults { title = title; filtered_title = filtered_title })
read_body appearance_properties = do
  _ ← read ushort_le
  colour ← read uvar_int
  overlay ← read uvar_int
  pure (record defaults { colour = colour; overlay = overlay })
read_body texture = do
  colour ← read uvar_int
  overlay ← read uvar_int
  pure (record defaults { colour = colour; overlay = overlay })
read_body unknown = pure defaults

-- `if wrapper.has_remaining: raise ValueError(...)`
unfoldable pub check_consumed : PacketHandler
check_consumed w = if has_remaining w then raise value_error w else pure tt w

unfoldable pub rewrite_boss_event : PacketHandler
rewrite_boss_event = do
  boss_unique_id ← read var_int64
  event_type ← read uvar_int
  body ← read_body (event_of event_type)
  check_consumed
  write var_int64 boss_unique_id
  write var_int64 body.player_unique_id
  write byte (low_byte event_type)
  write string body.title
  write string body.filtered_title
  write float_le body.health
  write byte (colour_to_v1001 body.colour)
  write byte (low_byte body.overlay)

unfoldable pub write_body : Event → Body → PacketHandler
write_body show body = do
  write string body.title
  write string body.filtered_title
  write float_le body.health
  write ushort_le (pos 0)
  write uvar_int (colour_to_v975 body.colour)
  write uvar_int body.overlay
write_body player body = write var_int64 body.player_unique_id
write_body hide body = pure tt
write_body health_percentage body = write float_le body.health
write_body titled body = do write string body.title; write string body.filtered_title
write_body appearance_properties body = do
  write ushort_le (pos 0)
  write uvar_int (colour_to_v975 body.colour)
  write uvar_int body.overlay
write_body texture body = do
  write uvar_int (colour_to_v975 body.colour)
  write uvar_int body.overlay
write_body unknown body = pure tt

unfoldable pub rewrite_boss_event_serverbound : PacketHandler
rewrite_boss_event_serverbound = do
  boss_unique_id ← read var_int64
  player_unique_id ← read var_int64
  event_type ← read byte
  title ← read string
  filtered_title ← read string
  health ← read float_le
  colour ← read byte
  overlay ← read byte
  check_consumed
  write var_int64 boss_unique_id
  write uvar_int event_type
  write_body (event_of event_type) (record {
    player_unique_id = player_unique_id;
    title = title;
    filtered_title = filtered_title;
    health = health;
    colour = colour;
    overlay = overlay;
  })

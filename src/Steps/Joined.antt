-- ===== src/Steps/Joined.antt =====
-- protocol/v975_to_v1001/handlers/start_game.py: what the client gets.
use endweave.Prelude.{◌▸◌, ℕ, ◌^◌, ◌<◌, false, some, List, [], ◌∷◌, ◌++◌, length, pos, arith}
use endweave.Exec.{◌>>=◌, ◌>>◌, repeat}
use endweave.Codec.Leb128.{groups}
use endweave.Codec.FieldType.Variable.{Codes-var_int}
use endweave.Codec.FieldType.{
  FieldType, bool, int64_le, string, uuid, uvar_int64, var_int, var_int64, vec2, vec3,
}
use endweave.Codec.FieldType.Codes.{Field}
use endweave.Codec.Nbt.{named_compound_tag}
use endweave.Codec.LevelSettings.{level_settings_v944}
use endweave.Codec.Wrapper.{wrap, read, write, passthrough}
use endweave.Codec.Wrapper.Fields.{
  Rewrites, Rewrites-pure, Rewrites-passthrough, Rewrites-read, Rewrites-write,
}
use endweave.Codec.Wrapper.Chunk.{Chunk, chain, each, same, added, reset, counted}
use endweave.Codec.Wrapper.Flow.{Rewrites-each}
use endweave.Codec.Wrapper.Whole.{Finishes, Finishes-bind, Finishes-all}
use endweave.Connection.{User}
use endweave.Protocol.{PacketHandler}
use endweave.Protocol.Base.Detect.{Forwards}
use endweave.Rewriter.Sound.Rewritten.{Finishes-Forwards}
use endweave.Steps.Actions.{flag}
use endweave.Steps.Start.{BlockProperty, block_property_chunk, no_checksum}
use endweave.Steps.V975ToV1001.StartGame.{block_property, rewrite_start_game}
use endweave.Steps.Items.{pass}

-- The fields of StartGame that the handler of v1001 reads.
pub record StartGame : Type 0 where
  pub entity : Field var_int64
  pub runtime : Field uvar_int64
  pub game_type : Field var_int
  pub position : Field vec3
  pub rotation : Field vec2
  pub settings : Field level_settings_v944
  pub level_id : Field string
  pub level_name : Field string
  pub template : Field string
  pub is_trial : Field bool
  pub rewind : Field var_int
  pub block_breaking : Field bool
  pub time : Field int64_le
  pub seed : Field var_int
  pub properties : List BlockProperty
  pub few : length properties < 2 ^ 32
  pub correlation : Field string
  pub item_stacks : Field bool
  pub version : Field string
  pub player_property : Field named_compound_tag
  pub checksum : Field int64_le
  pub world_template : Field uuid
  pub generation : Field bool
  pub hashes : Field bool
  pub authoritative_sound : Field bool

abbrev pub no_policy : Field var_int
unfolding groups
no_policy = record { value = pos 0; bytes = 0 ∷ []; coded = Codes-var_int (pos 0) (omega arith) }

abbrev pub packet : StartGame → Chunk
packet s = chain (
    same s.entity
    ∷ same s.runtime
    ∷ same s.game_type
    ∷ same s.position
    ∷ same s.rotation
    ∷ same s.settings
    ∷ added no_policy
    ∷ added (flag false)
    ∷ same s.level_id
    ∷ same s.level_name
    ∷ same s.template
    ∷ same s.is_trial
    ∷ same s.rewind
    ∷ same s.block_breaking
    ∷ same s.time
    ∷ same s.seed
    ∷ same (counted (length s.properties) s.few)
    ∷ each block_property_chunk s.properties
    ∷ same s.correlation
    ∷ same s.item_stacks
    ∷ same s.version
    ∷ same s.player_property
    ∷ reset s.checksum no_checksum
    ∷ same s.world_template
    ∷ same s.generation
    ∷ same s.hashes
    ∷ same s.authoritative_sound
    ∷ added (flag false)
    ∷ [])

go_on :
    {A : Type 0} {T : FieldType A} (field : Field T) (f : A → PacketHandler) {old new : List ℕ}
    → Finishes (f field.value) old new
    → Finishes (passthrough T >>= f) (field.bytes ++ old) (field.bytes ++ new)
go_on {T = T} field f =
    Finishes-bind (passthrough T) f (Rewrites-passthrough T field.value field.bytes field.coded)

-- A field that is written, and what follows it.
put :
    {A : Type 0} {T : FieldType A} (field : Field T) (m : PacketHandler) {old new : List ℕ}
    → Finishes m old new
    → Finishes (write T field.value >> m) old (field.bytes ++ new)
put {T = T} field m =
    Finishes-bind (write T field.value) (λ _. m)
      (Rewrites-write T field.value field.bytes field.coded)

property-Rewrites :
    (b : BlockProperty)
    → Rewrites block_property (block_property_chunk b).older (block_property_chunk b).newer tt
property-Rewrites b = pass b.name _ (pass b.tag _ (Rewrites-pure tt))

-- StartGame for v1001 with its fields coded: the handler returns, does not cancel and leaves the
-- connection. Two fields of zero are forwarded behind the settings, zero for the checksum, and a
-- false flag behind that of the sound; all other fields, and what follows them, stay.
pub rewrite_start_game_lem :
    (s : StartGame) (rest : List ℕ) (u : User)
    → Forwards
        (rewrite_start_game (wrap ((packet s).older ++ rest) (some u)))
        ((packet s).newer ++ rest)
        u
unfolding rewrite_start_game no_policy
rewrite_start_game_lem s rest u = Finishes-Forwards rewrite_start_game rest u (
    go_on s.entity _
    ▸ go_on s.runtime _
    ▸ go_on s.game_type _
    ▸ go_on s.position _
    ▸ go_on s.rotation _
    ▸ Finishes-bind (read level_settings_v944) _
        (Rewrites-read level_settings_v944 s.settings.value s.settings.bytes s.settings.coded)
    ▸ put s.settings _
    ▸ put no_policy _
    ▸ put (flag false) _
    ▸ go_on s.level_id _
    ▸ go_on s.level_name _
    ▸ go_on s.template _
    ▸ go_on s.is_trial _
    ▸ go_on s.rewind _
    ▸ go_on s.block_breaking _
    ▸ go_on s.time _
    ▸ go_on s.seed _
    ▸ go_on (counted (length s.properties) s.few) _
    ▸ Finishes-bind (repeat (length s.properties) block_property) _
        (Rewrites-each block_property block_property_chunk property-Rewrites s.properties)
    ▸ go_on s.correlation _
    ▸ go_on s.item_stacks _
    ▸ go_on s.version _
    ▸ go_on s.player_property _
    ▸ Finishes-bind (read int64_le) _
        (Rewrites-read int64_le s.checksum.value s.checksum.bytes s.checksum.coded)
    ▸ put no_checksum _
    ▸ go_on s.world_template _
    ▸ go_on s.generation _
    ▸ go_on s.hashes _
    ▸ go_on s.authoritative_sound _
    ▸ put (flag false) _ Finishes-all)

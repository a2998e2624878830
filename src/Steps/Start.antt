-- ===== src/Steps/Start.antt =====
-- protocol/v924_to_v944/handlers/start_game.py and protocol/v944_to_v924/handlers/start_game.py: the
-- start of the game, there and back.
use endweave.Prelude.{
  ◌▸◌, ℕ, ◌^◌, ◌<◌, ◌≡◌, refl, Bool, true, false, List, [], ◌∷◌, ◌++◌, length, pos, append-nil,
}
use endweave.Exec.{Exec, pure, ◌>>◌, repeat}
use endweave.Codec.Word.{to_le}
use endweave.Codec.FieldType.{bool, int64_le, string, uvar_int64, var_int, var_int64, vec2, vec3}
use endweave.Codec.FieldType.Codes.{Field}
use endweave.Codec.FieldType.Primitives.{Codes-bool, Codes-int64_le}
use endweave.Codec.Nbt.{named_compound_tag}
use endweave.Codec.LevelSettings.{level_settings_v924, level_settings_v944}
use endweave.Codec.Wrapper.{PacketWrapper, read, write, when}
use endweave.Codec.Wrapper.Fields.{
  Rewrites, Rewrites-bind, Rewrites-pure, Rewrites-read, Rewrites-write,
}
use endweave.Codec.Wrapper.Chunk.{Chunk, chain, each, only, same, reset, Twin, twin, counted}
use endweave.Codec.Wrapper.Swaps.{Swaps, Swaps-pure, Swaps-same, Swaps-twin}
use endweave.Codec.Wrapper.Flow.{Swaps-loop, Swaps-end, Swaps-when}
use endweave.Codec.Wrapper.Changes.{Swaps-reset}
use endweave.Connection.{User}
use endweave.Steps.Rounds.{Rounds, Swaps-Rounds}
use endweave.Steps.V924ToV944.StartGame as Up
use endweave.Steps.V944ToV924.StartGame as Down

-- A block property: a name and a tag.
pub record BlockProperty : Type 0 where
  pub name : Field string
  pub tag : Field named_compound_tag

abbrev pub block_property_chunk : BlockProperty → Chunk
block_property_chunk b = chain (same b.name ∷ same b.tag ∷ [])

block_property-Swaps :
    (b : BlockProperty) → Swaps Up.block_property Down.block_property (block_property_chunk b) tt
block_property-Swaps b = Swaps-same b.name _ _ ▸ Swaps-same b.tag _ _ ▸ Swaps-pure tt

abbrev pub texts_bytes : List (Field string) → List ℕ
texts_bytes [] = []
texts_bytes (t ∷ texts) = t.bytes ++ texts_bytes texts

abbrev texts : List (Field string) → List (List ℕ)
texts [] = []
texts (t ∷ ts) = t.value ∷ texts ts

read_texts :
    (ts : List (Field string))
    → Rewrites {U = User} (repeat (length ts) (read string)) (texts_bytes ts) [] (texts ts)
unfolding repeat
read_texts [] = Rewrites-pure []
read_texts (t ∷ ts) = Rewrites-bind (read string) _ (Rewrites-read string t.value t.bytes t.coded) (
    rw (append-nil (texts_bytes ts)) at (
      Rewrites-bind (repeat (length ts) (read string)) (λ vs. pure (t.value ∷ vs)) (read_texts ts)
        (Rewrites-pure _)))

-- The join information of v924: a flag, and seven texts if it is set.
pub record JoinInfo : Type 0 where
  pub has_gathering : Field bool
  pub gathering : List (Field string)
  pub seven : length gathering ≡ 7

abbrev texts_if : Bool → List (Field string) → List ℕ
texts_if true ts = texts_bytes ts
texts_if false ts = []

-- It arrives as three false flags, and comes back as one.
abbrev pub join_info_chunk : JoinInfo → Chunk
join_info_chunk j = record {
  older = j.has_gathering.bytes ++ texts_if j.has_gathering.value j.gathering;
  newer = 0 ∷ 0 ∷ 0 ∷ [];
  back = 0 ∷ [];
}

abbrev no : Field bool
no = record { value = false; bytes = 0 ∷ []; coded = Codes-bool false }

write_no : Rewrites {U = User} (write bool false) [] (0 ∷ []) tt
write_no = Rewrites-write bool false no.bytes no.coded

read_no : Rewrites {U = User} (read bool) (0 ∷ []) [] false
read_no = Rewrites-read bool false no.bytes no.coded

gathering-Rewrites :
    (b : Bool) (ts : List (Field string))
    → length ts ≡ 7
    → Rewrites (when b Up.gathering) (texts_if b ts) [] tt
gathering-Rewrites true ts e = rw (append-nil (texts_bytes ts)) at (
    Rewrites-bind (repeat 7 (read string)) (λ vs. pure tt) (rw e at (read_texts ts))
      (Rewrites-pure tt))
gathering-Rewrites false ts e = Rewrites-pure tt

abbrev write_three : Exec (PacketWrapper User) (Unit {0})
write_three = do write bool false; write bool false; write bool false

three-Rewrites : Rewrites write_three [] (0 ∷ 0 ∷ 0 ∷ []) tt
three-Rewrites =
    Rewrites-bind (write bool false) _ write_no
    ▸ Rewrites-bind (write bool false) _ write_no write_no

join_info-Swaps : (j : JoinInfo) → Swaps Up.join_info Down.join_info (join_info_chunk j) tt
unfolding Up.join_info Down.join_info
join_info-Swaps j = record {
  upward =
      Rewrites-bind (read bool) _
        (Rewrites-read bool j.has_gathering.value j.has_gathering.bytes j.has_gathering.coded)
        (rw (append-nil (texts_if j.has_gathering.value j.gathering)) at (
          Rewrites-bind (when j.has_gathering.value Up.gathering) (λ x. write_three)
            (gathering-Rewrites j.has_gathering.value j.gathering j.seven) three-Rewrites));
  downward =
      Rewrites-bind (read bool) _ read_no
      ▸ Rewrites-bind (read bool) _ read_no
      ▸ Rewrites-bind (read bool) _ read_no write_no;
}

-- The fields of the packet.
pub record StartGame : Type 0 where
  pub entity : Field var_int64
  pub runtime : Field uvar_int64
  pub game_type : Field var_int
  pub position : Field vec3
  pub rotation : Field vec2
  pub settings : Twin level_settings_v924 level_settings_v944
  pub level_id : Field string
  pub level_name : Field string
  pub template : Field string
  pub is_trial : Field bool
  pub rewind : Field var_int
  pub block_breaking : Field bool
  pub time : Field int64_le
  pub seed : Field var_int
  pub properties : List BlockProperty
  pub few : length properties < 2 ^ 32
  pub correlation : Field string
  pub item_stacks : Field bool
  pub version : Field string
  pub player_property : Field named_compound_tag
  pub checksum : Field int64_le
  pub world_msb : Field int64_le
  pub world_lsb : Field int64_le
  pub generation : Field bool
  pub hashes : Field bool
  pub permissions : Field bool
  pub has_join_info : Field bool
  pub join_info : JoinInfo

abbrev pub no_checksum : Field int64_le
no_checksum = record { value = pos 0; bytes = to_le 8 0; coded = Codes-int64_le (pos 0) 0 refl }

abbrev pub start_game_chunks : StartGame → List Chunk
start_game_chunks s =
    same s.entity
    ∷ same s.runtime
    ∷ same s.game_type
    ∷ same s.position
    ∷ same s.rotation
    ∷ twin s.settings
    ∷ same s.level_id
    ∷ same s.level_name
    ∷ same s.template
    ∷ same s.is_trial
    ∷ same s.rewind
    ∷ same s.block_breaking
    ∷ same s.time
    ∷ same s.seed
    ∷ same (counted (length s.properties) s.few)
    ∷ each block_property_chunk s.properties
    ∷ same s.correlation
    ∷ same s.item_stacks
    ∷ same s.version
    ∷ same s.player_property
    ∷ reset s.checksum no_checksum
    ∷ same s.world_msb
    ∷ same s.world_lsb
    ∷ same s.generation
    ∷ same s.hashes
    ∷ same s.permissions
    ∷ same s.has_join_info
    ∷ only s.has_join_info.value (join_info_chunk s.join_info)
    ∷ []

-- StartGame: the level settings, the zeroed checksum, and the join information, there and back.
pub start_game_round :
    (s : StartGame) → Rounds Up.rewrite_start_game Down.rewrite_start_game (start_game_chunks s)
unfolding Up.rewrite_start_game Down.rewrite_start_game
start_game_round s = Swaps-Rounds _ _ _ (
    Swaps-same s.entity _ _
    ▸ Swaps-same s.runtime _ _
    ▸ Swaps-same s.game_type _ _
    ▸ Swaps-same s.position _ _
    ▸ Swaps-same s.rotation _ _
    ▸ Swaps-twin s.settings _ _
    ▸ Swaps-same s.level_id _ _
    ▸ Swaps-same s.level_name _ _
    ▸ Swaps-same s.template _ _
    ▸ Swaps-same s.is_trial _ _
    ▸ Swaps-same s.rewind _ _
    ▸ Swaps-same s.block_breaking _ _
    ▸ Swaps-same s.time _ _
    ▸ Swaps-same s.seed _ _
    ▸ Swaps-same (counted (length s.properties) s.few) _ _
    ▸ Swaps-loop Up.block_property Down.block_property block_property_chunk block_property-Swaps
        s.properties _ _
    ▸ Swaps-same s.correlation _ _
    ▸ Swaps-same s.item_stacks _ _
    ▸ Swaps-same s.version _ _
    ▸ Swaps-same s.player_property _ _
    ▸ Swaps-reset s.checksum no_checksum _ _
    ▸ Swaps-same s.world_msb _ _
    ▸ Swaps-same s.world_lsb _ _
    ▸ Swaps-same s.generation _ _
    ▸ Swaps-same s.hashes _ _
    ▸ Swaps-same s.permissions _ _
    ▸ Swaps-same s.has_join_info _ _
    ▸ Swaps-end
    ▸ Swaps-when s.has_join_info.value _ _ (join_info-Swaps s.join_info))

-- ===== src/Rewriter/Sound.antt =====
-- rewriter/sound.py: `SoundRewriter`. The remapping functions come from the protocol that uses it.
pub mod Rewritten
use endweave.Prelude.{
  ℕ, zero, suc, Bool, true, false, not, Option, none, some, List, [], ◌∷◌, map, ℤ, pos, eqb_ℤ, Dict,
  lookup, contains, int_eq, if◌then◌else◌, pos_part,
}
use endweave.Exec.{Exec, pure, ◌>>=◌, ◌>>◌, repeat}
use endweave.Codec.FieldType.{
  FieldType, uvar_int, uvar_int64, var_int, var_int64, string, vec3, vec2, float_le, uuid,
}
use endweave.Codec.ItemInstance.{item_instance}
use endweave.Codec.ActorData.{Value, int_value, int64_value, ActorDataItem, actor_data_list}
use endweave.Codec.Wrapper.{read, write, passthrough, passthrough_all}
use endweave.Protocol.{Wrapper, PacketHandler, Protocol, clientbound}
use endweave.Protocol

pub record SoundRewriter : Type 0 where
  pub sound_remap : ℤ → ℤ
  pub int_remappers : Dict ℤ (ℤ → ℤ)
  pub dropped_keys : List ℤ

-- `[e for e in entries if e.key not in self._dropped_keys]`
unfoldable pub without_dropped : List ℤ → List ActorDataItem → List ActorDataItem
without_dropped dropped_keys [] = []
without_dropped dropped_keys (e ∷ entries) =
    let rest = without_dropped dropped_keys entries in
    if contains dropped_keys e.key then rest else e ∷ rest

abbrev pub remap_value : Option (ℤ → ℤ) → Value → Value
remap_value (some remap) (int_value v) = int_value (remap v)
remap_value (some remap) (int64_value v) = int64_value (remap v)
remap_value _ value = value

abbrev pub remap_entry : Dict ℤ (ℤ → ℤ) → ActorDataItem → ActorDataItem
remap_entry int_remappers entry = record entry {
  value = remap_value (lookup entry.key int_remappers) entry.value;
}

abbrev pub is_empty {ℓ} : {A : Type ℓ} → List A → Bool
is_empty [] = true
is_empty (x ∷ xs) = false

-- What `_remap_actor_data` makes of the list.
unfoldable pub remapped : SoundRewriter → List ActorDataItem → List ActorDataItem
unfolding without_dropped
remapped self entries =
    let kept =
      if is_empty self.dropped_keys then entries else without_dropped self.dropped_keys entries in
    map (remap_entry self.int_remappers) kept

unfoldable pub remap_actor_data : SoundRewriter → PacketHandler
remap_actor_data self = do
  entries ← read actor_data_list
  write actor_data_list (remapped self entries)

abbrev pub then_all : PacketHandler → PacketHandler
then_all handler = handler >> (passthrough_all >>= λ remaining. pure tt)

unfoldable pub rewrite_level_sound_event : SoundRewriter → PacketHandler
rewrite_level_sound_event self = do
  event_id ← read uvar_int
  write uvar_int (self.sound_remap event_id)
  _ ← passthrough_all
  pure tt

unfoldable pub rewrite_set_actor_data : SoundRewriter → PacketHandler
rewrite_set_actor_data self = do
  _ ← passthrough uvar_int64
  remap_actor_data self
  _ ← passthrough_all
  pure tt

-- One round of the loop over an actor's attributes.
abbrev pub attribute : PacketHandler
attribute = do
  _ ← passthrough string
  _ ← passthrough float_le
  _ ← passthrough float_le
  _ ← passthrough float_le
  pure tt

unfoldable pub rewrite_add_actor : SoundRewriter → PacketHandler
rewrite_add_actor self = do
  _ ← passthrough var_int64
  _ ← passthrough uvar_int64
  _ ← passthrough string
  _ ← passthrough vec3
  _ ← passthrough vec3
  _ ← passthrough vec2
  _ ← passthrough float_le
  _ ← passthrough float_le
  attr_count ← passthrough uvar_int
  _ ← repeat (pos_part attr_count) attribute
  remap_actor_data self
  _ ← passthrough_all
  pure tt

unfoldable pub rewrite_add_item_actor : SoundRewriter → PacketHandler
rewrite_add_item_actor self = do
  _ ← passthrough var_int64
  _ ← passthrough uvar_int64
  _ ← passthrough item_instance
  _ ← passthrough vec3
  _ ← passthrough vec3
  remap_actor_data self
  _ ← passthrough_all
  pure tt

unfoldable pub rewrite_add_player : SoundRewriter → PacketHandler
rewrite_add_player self = do
  _ ← passthrough uuid
  _ ← passthrough string
  _ ← passthrough uvar_int64
  _ ← passthrough string
  _ ← passthrough vec3
  _ ← passthrough vec3
  _ ← passthrough vec2
  _ ← passthrough float_le
  _ ← passthrough item_instance
  _ ← passthrough var_int
  remap_actor_data self
  _ ← passthrough_all
  pure tt

abbrev pub level_sound_event : ℕ
level_sound_event = 123

abbrev pub set_actor_data : ℕ
set_actor_data = 39

abbrev pub add_actor : ℕ
add_actor = 13

abbrev pub add_item_actor : ℕ
add_item_actor = 15

abbrev pub add_player : ℕ
add_player = 12

unfoldable pub register : SoundRewriter → Protocol → Protocol
register self protocol = Protocol.register clientbound add_player (rewrite_add_player self) (
    Protocol.register clientbound add_item_actor (rewrite_add_item_actor self) (
      Protocol.register clientbound add_actor (rewrite_add_actor self) (
        Protocol.register clientbound set_actor_data (rewrite_set_actor_data self) (
          Protocol.register clientbound level_sound_event (rewrite_level_sound_event self)
            protocol))))

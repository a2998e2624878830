-- ===== src/Rewriter/Sound/Rewritten.antt =====
-- rewriter/sound.py: sounds and metadata in a packet.
pub mod Spawn
use endweave.Prelude.{
  ℕ, zero, suc, ◌+◌, ◌*◌, ◌^◌, ◌<◌, ◌≡◌, refl, ap, sym, ◌∙◌, Bool, true, false, Option, none, some,
  List, [], ◌∷◌, ◌++◌, map, length, ℤ, pos, mask, contains, lookup, int_eq, arith, if◌then◌else◌,
  append-nil, append_assoc,
}
use endweave.Exec.{Exec, ok, pure, ◌>>=◌, ◌>>◌}
use endweave.Codec.Leb128.{groups}
use endweave.Codec.FieldType.{FieldType, uvar_int, uvar_int64}
use endweave.Codec.FieldType.Codes.{Codes, CodesAll}
use endweave.Codec.FieldType.Variable.{Codes-uvar_int, Codes-uvar_int64}
use endweave.Codec.FieldType.Compound.{Codes-array_type}
use endweave.Codec.Writer.Varint.{Writes-write_uvarint}
use endweave.Codec.Wrapper.{PacketWrapper, wrap, read, write, passthrough, passthrough_all}
use endweave.Codec.Wrapper.Fields.{
  moved, Rewrites, Rewrites-bind, Rewrites-passthrough, Rewrites-read, Rewrites-write,
}
use endweave.Codec.Wrapper.Whole.{
  Finishes, Finishes-bind, Finishes-last, Finishes-packet, Rewrites-written, Rewrites-replace,
}
use endweave.Codec.ActorData.{Value, ActorDataItem, actor_data_item, actor_data_list}
use endweave.Connection.{User}
use endweave.Protocol.{PacketHandler}
use endweave.Protocol.Base.Detect.{Forwards}
use endweave.Rewriter.Sound.{
  SoundRewriter, without_dropped, remapped, remap_entry, remap_actor_data,
  rewrite_level_sound_event, rewrite_set_actor_data, is_empty,
}

pub Finishes-Forwards :
    (m : PacketHandler) {old new : List ℕ} (rest : List ℕ) (u : User)
    → Finishes m old new
    → Forwards (m (wrap (old ++ rest) (some u))) (new ++ rest) u
Finishes-Forwards m {old} {new} rest u f =
    let (run, output) = Finishes-packet m rest (some u) f in
    record {
      returns = ap (λ r. r.0) run;
      passes = ap (λ r. r.1.cancelled) run;
      output = output;
      user = ap (λ r. r.1.connection) run;
    }

-- The sound's number is remapped, kept to 32 bits; the rest of the packet stays.
pub rewrite_level_sound_event_lem :
    (self : SoundRewriter) (event_id : ℕ) (rest : List ℕ) (u : User)
    → event_id < 2 ^ 32
    → Forwards
        (rewrite_level_sound_event self (wrap (groups 4 event_id ++ rest) (some u)))
        (groups 4 (mask (self.sound_remap (pos event_id)) (2 ^ 32)) ++ rest)
        u
unfolding rewrite_level_sound_event
rewrite_level_sound_event_lem self event_id rest u h =
    Finishes-Forwards (rewrite_level_sound_event self) rest u
      (rw (append-nil (groups 4 event_id)) at rewritten)
  where
    rewritten :
        Finishes
          (rewrite_level_sound_event self)
          (groups 4 event_id ++ [])
          (groups 4 (mask (self.sound_remap (pos event_id)) (2 ^ 32)))
    rewritten =
        Finishes-bind (read uvar_int) _
          (Rewrites-read uvar_int (pos event_id) (groups 4 event_id) (Codes-uvar_int event_id h))
          (Finishes-last (write uvar_int (self.sound_remap (pos event_id))) (
            Rewrites-written uvar_int (self.sound_remap (pos event_id)) _ (Writes-write_uvarint _)))

-- The bytes of a list of metadata: the number of entries, then the entries.
abbrev pub list_bytes : List ActorDataItem → List ℕ → List ℕ
list_bytes entries bs = groups 4 (length entries) ++ bs

-- A list of metadata with its bytes.
pub record CodedList (entries : List ActorDataItem) (bs : List ℕ) : Type 0 where
  pub entry_bytes : List ℕ
  pub coded : CodesAll actor_data_item entries entry_bytes
  pub short : length entries < 2 ^ 32
  pub layout : bs ≡ list_bytes entries entry_bytes

pub Codes-list :
    {entries : List ActorDataItem} {bs : List ℕ}
    → CodedList entries bs
    → Codes actor_data_list entries bs
Codes-list {entries} c =
    rw c.layout (Codes-array_type actor_data_item entries c.entry_bytes c.coded c.short)

pub Rewrites-actor_data :
    (self : SoundRewriter) (entries : List ActorDataItem) {old new : List ℕ}
    → CodedList entries old
    → CodedList (remapped self entries) new
    → Rewrites (remap_actor_data self) old new tt
unfolding remap_actor_data
Rewrites-actor_data self entries {old} {new} c c' =
    Rewrites-replace actor_data_list actor_data_list (remapped self)
      (Rewrites-read actor_data_list entries old (Codes-list c))
      (Rewrites-write actor_data_list (remapped self entries) new (Codes-list c'))

-- SetActorData: the metadata is remapped; the actor and what follows stay.
pub rewrite_set_actor_data_lem :
    (self : SoundRewriter) (id : ℕ) (entries : List ActorDataItem) (old new rest : List ℕ)
    (u : User)
    → id < 2 ^ 64
    → CodedList entries old
    → CodedList (remapped self entries) new
    → Forwards
        (rewrite_set_actor_data self (wrap ((groups 9 id ++ old) ++ rest) (some u)))
        ((groups 9 id ++ new) ++ rest)
        u
unfolding rewrite_set_actor_data
rewrite_set_actor_data_lem self id entries old new rest u h c c' =
    Finishes-Forwards (rewrite_set_actor_data self) rest u (
      Finishes-bind (passthrough uvar_int64) _
        (Rewrites-passthrough uvar_int64 (pos id) (groups 9 id) (Codes-uvar_int64 id h))
        (Finishes-last (remap_actor_data self) (Rewrites-actor_data self entries c c')))

without-none : (entries : List ActorDataItem) → without_dropped [] entries ≡ entries
unfolding without_dropped contains
without-none [] = refl
without-none (e ∷ entries) = ap (λ es. e ∷ es) (without-none entries)

-- The remapped list: the entries whose keys are not dropped, in order, under the same keys. The test
-- for an empty set of keys makes no difference.
pub remapped_lem :
    (self : SoundRewriter) (entries : List ActorDataItem)
    → remapped self entries
      ≡ map (remap_entry self.int_remappers) (without_dropped self.dropped_keys entries)
unfolding remapped
remapped_lem self entries = go self.dropped_keys
  where
    go :
        (dropped : List ℤ)
        → map
            (remap_entry self.int_remappers)
            (if is_empty dropped then entries else without_dropped dropped entries)
          ≡ map (remap_entry self.int_remappers) (without_dropped dropped entries)
    go [] = ap (map (remap_entry self.int_remappers)) (sym (without-none entries))
    go (k ∷ ks) = refl

-- ===== src/Rewriter/Sound/Rewritten/Spawn.antt =====
-- rewriter/sound.py: the packets that spawn something.
use endweave.Prelude.{ℕ, zero, suc, ◌^◌, ◌<◌, some, List, [], ◌∷◌, ◌++◌, append-nil, pos}
use endweave.Exec.{Exec, pure, ◌>>=◌, ◌>>◌, repeat}
use endweave.Codec.Leb128.{groups}
use endweave.Codec.FieldType.{
  FieldType, uvar_int, uvar_int64, var_int, var_int64, string, vec3, vec2, float_le, uuid,
}
use endweave.Codec.FieldType.Codes.{Field}
use endweave.Codec.FieldType.Variable.{Codes-uvar_int}
use endweave.Codec.ItemInstance.{item_instance}
use endweave.Codec.ActorData.{ActorDataItem}
use endweave.Codec.Wrapper.{PacketWrapper, wrap, passthrough}
use endweave.Codec.Wrapper.Fields.{Rewrites, Rewrites-bind, Rewrites-pure, Rewrites-passthrough}
use endweave.Codec.Wrapper.Whole.{Finishes, Finishes-bind, Finishes-last}
use endweave.Connection.{User}
use endweave.Protocol.{PacketHandler}
use endweave.Protocol.Base.Detect.{Forwards}
use endweave.Rewriter.Sound.{
  SoundRewriter, remapped, remap_actor_data, attribute, rewrite_add_actor, rewrite_add_item_actor,
  rewrite_add_player,
}
use endweave.Rewriter.Sound.Rewritten.{CodedList, Rewrites-actor_data, Finishes-Forwards}

-- A handler that passes a field on.
Finishes-field :
    {A : Type 0} {T : FieldType A} (field : Field T) (f : A → PacketHandler) {old new : List ℕ}
    → Finishes (f field.value) old new
    → Finishes (passthrough T >>= f) (field.bytes ++ old) (field.bytes ++ new)
Finishes-field {T = T} field f r =
    Finishes-bind (passthrough T) f (Rewrites-passthrough T field.value field.bytes field.coded) r

Rewrites-field :
    {A B : Type 0} {T : FieldType A} (field : Field T) (f : A → Exec (PacketWrapper User) B)
    {old new : List ℕ} {v : B}
    → Rewrites (f field.value) old new v
    → Rewrites (passthrough T >>= f) (field.bytes ++ old) (field.bytes ++ new) v
Rewrites-field {T = T} field f r =
    Rewrites-bind (passthrough T) f (Rewrites-passthrough T field.value field.bytes field.coded) r

-- An attribute: its name, and its least, current and greatest value.
pub record Attribute : Type 0 where
  pub name : Field string
  pub least : Field float_le
  pub current : Field float_le
  pub greatest : Field float_le

abbrev pub attribute_bytes : Attribute → List ℕ
attribute_bytes a = a.name.bytes ++ (a.least.bytes ++ (a.current.bytes ++ (a.greatest.bytes ++ [])))

abbrev pub attributes_bytes : List Attribute → List ℕ
attributes_bytes [] = []
attributes_bytes (a ∷ attributes) = attribute_bytes a ++ attributes_bytes attributes

abbrev pub count_attributes : List Attribute → ℕ
count_attributes [] = 0
count_attributes (a ∷ attributes) = suc (count_attributes attributes)

Rewrites-attribute : (a : Attribute) → Rewrites attribute (attribute_bytes a) (attribute_bytes a) tt
Rewrites-attribute a = Rewrites-field a.name _ (
    Rewrites-field a.least _
      (Rewrites-field a.current _ (Rewrites-field a.greatest _ (Rewrites-pure tt))))

abbrev units : ℕ → List (Unit {0})
units zero = []
units (suc n) = tt ∷ units n

Rewrites-last :
    {A B : Type 0} (m : Exec (PacketWrapper User) A) (f : A → B) {old new : List ℕ} {v : A}
    → Rewrites m old new v
    → Rewrites {U = User} (m >>= λ x. pure (f x)) old new (f v)
Rewrites-last m f {old} {new} {v} r =
    rw (append-nil old, append-nil new) at
      (Rewrites-bind m (λ x. pure (f x)) r (Rewrites-pure (f v)))

Rewrites-attributes :
    (attributes : List Attribute)
    → Rewrites
        (repeat (count_attributes attributes) attribute)
        (attributes_bytes attributes)
        (attributes_bytes attributes)
        (units (count_attributes attributes))
unfolding repeat
Rewrites-attributes [] = Rewrites-pure []
Rewrites-attributes (a ∷ attributes) = Rewrites-bind attribute _ (Rewrites-attribute a) (
    Rewrites-last (repeat (count_attributes attributes) attribute) (λ us. tt ∷ us)
      (Rewrites-attributes attributes))

module _ (self : SoundRewriter) (entries : List ActorDataItem) (old new rest : List ℕ) (u : User)
    (coded : CodedList entries old) (coded' : CodedList (remapped self entries) new) where
  metadata :
      Finishes
        (do remap_actor_data self; _ ← endweave.Codec.Wrapper.passthrough_all; pure tt)
        old
        new
  metadata = Finishes-last (remap_actor_data self) (Rewrites-actor_data self entries coded coded')

  -- AddItemActor: only the metadata behind the five fields changes.
  pub rewrite_add_item_actor_lem :
      (actor : Field var_int64) (runtime : Field uvar_int64) (item : Field item_instance)
      (position velocity : Field vec3)
      → let front = λ (list : List ℕ).
        actor.bytes
        ++ (runtime.bytes ++ (item.bytes ++ (position.bytes ++ (velocity.bytes ++ list)))) in
        Forwards
          (rewrite_add_item_actor self (wrap (front old ++ rest) (some u)))
          (front new ++ rest)
          u
  unfolding rewrite_add_item_actor
  rewrite_add_item_actor_lem actor runtime item position velocity =
      Finishes-Forwards (rewrite_add_item_actor self) rest u (
        Finishes-field actor _ (
          Finishes-field runtime _ (
            Finishes-field item _
              (Finishes-field position _ (Finishes-field velocity _ metadata)))))

  -- AddPlayer: only the metadata behind the ten fields changes.
  pub rewrite_add_player_lem :
      (id : Field uuid) (name : Field string) (runtime : Field uvar_int64) (chat : Field string)
      (position velocity : Field vec3) (rotation : Field vec2) (head : Field float_le)
      (item : Field item_instance) (game_type : Field var_int)
      → let front = λ (list : List ℕ).
        id.bytes
        ++ (name.bytes
            ++ (runtime.bytes
                ++ (chat.bytes
                    ++ (position.bytes
                        ++ (velocity.bytes
                            ++ (rotation.bytes
                                ++ (head.bytes
                                    ++ (item.bytes ++ (game_type.bytes ++ list))))))))) in
        Forwards (rewrite_add_player self (wrap (front old ++ rest) (some u))) (front new ++ rest) u
  unfolding rewrite_add_player
  rewrite_add_player_lem id name runtime chat position velocity rotation head item game_type =
      Finishes-Forwards (rewrite_add_player self) rest u (
        Finishes-field id _ (
          Finishes-field name _ (
            Finishes-field runtime _ (
              Finishes-field chat _ (
                Finishes-field position _ (
                  Finishes-field velocity _ (
                    Finishes-field rotation _ (
                      Finishes-field head _
                        (Finishes-field item _ (Finishes-field game_type _ metadata))))))))))

  -- AddActor: only the metadata behind the eight fields and the list of attributes changes.
  pub rewrite_add_actor_lem :
      (actor : Field var_int64) (runtime : Field uvar_int64) (type : Field string)
      (position velocity : Field vec3) (rotation : Field vec2) (head body : Field float_le)
      (attributes : List Attribute)
      → count_attributes attributes < 2 ^ 32
      → let front = λ (list : List ℕ).
        actor.bytes
        ++ (runtime.bytes
            ++ (type.bytes
                ++ (position.bytes
                    ++ (velocity.bytes
                        ++ (rotation.bytes
                            ++ (head.bytes
                                ++ (body.bytes
                                    ++ (groups 4 (count_attributes attributes)
                                        ++ (attributes_bytes attributes ++ list))))))))) in
        Forwards (rewrite_add_actor self (wrap (front old ++ rest) (some u))) (front new ++ rest) u
  unfolding rewrite_add_actor
  rewrite_add_actor_lem actor runtime type position velocity rotation head body attributes few =
      let counted : Field uvar_int = record {
        value = pos (count_attributes attributes);
        bytes = groups 4 (count_attributes attributes);
        coded = Codes-uvar_int (count_attributes attributes) few;
      } in
      Finishes-Forwards (rewrite_add_actor self) rest u (
        Finishes-field actor _ (
          Finishes-field runtime _ (
            Finishes-field type _ (
              Finishes-field position _ (
                Finishes-field velocity _ (
                  Finishes-field rotation _ (
                    Finishes-field head _ (
                      Finishes-field body _ (
                        Finishes-field counted _ (
                          Finishes-bind (repeat (count_attributes attributes) attribute) _
                            (Rewrites-attributes attributes) metadata))))))))))

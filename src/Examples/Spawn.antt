-- ===== src/Examples/Spawn.antt =====
-- The packets that spawn a player, an actor and an item.
use endweave.Prelude.{ℕ, ◌≡◌, refl, some, List, [], ◌∷◌, ◌++◌, pos, negsuc, arith}
use endweave.Codec.Utf8.{encode}
use endweave.Codec.Word.{to_le}
use endweave.Codec.Leb128.{groups}
use endweave.Codec.Zigzag.{place}
use endweave.Codec.FieldType.{var_int, var_int64, uvar_int64, string, vec3, vec2, float_le, uuid}
use endweave.Codec.FieldType.Primitives.{Codes-float_le}
use endweave.Codec.FieldType.Variable.{
  Codes-string, Codes-var_int, Codes-var_int64, Codes-uvar_int64,
}
use endweave.Codec.FieldType.Compound.{Codes-vec3, Codes-vec2, Codes-uuid}
use endweave.Codec.ItemInstance.{item_instance, air}
use endweave.Codec.ItemInstance.RoundTrip.{Codes-air}
use endweave.Codec.Wrapper.{wrap}
use endweave.Protocol.Base.Detect.{Forwards}
use endweave.Rewriter.Sound.{rewrite_add_actor, rewrite_add_player}
use endweave.Codec.FieldType.Codes.{Field}
use endweave.Rewriter.Sound.Rewritten.Spawn.{
  Attribute, attributes_bytes, rewrite_add_actor_lem, rewrite_add_player_lem,
}
use endweave.Examples.Packets.{
  player, sounds, before, before_bytes, after_bytes, before_coded, after_coded,
}

abbrev actor : Field var_int64
actor = record {
  value = negsuc 0;
  bytes = groups 9 (place (negsuc 0));
  coded = Codes-var_int64 (negsuc 0) (omega arith);
}

abbrev runtime : Field uvar_int64
runtime = record { value = pos 5; bytes = groups 9 5; coded = Codes-uvar_int64 5 (omega arith) }

abbrev origin : Field vec3
origin = record {
  value = (0, 0, 0);
  bytes = to_le 4 0 ++ (to_le 4 0 ++ to_le 4 0);
  coded = Codes-vec3 0 0 0 (omega arith) (omega arith) (omega arith);
}

abbrev rotation : Field vec2
rotation = record {
  value = (0, 0);
  bytes = to_le 4 0 ++ to_le 4 0;
  coded = Codes-vec2 0 0 (omega arith) (omega arith);
}

abbrev zero_float : Field float_le
zero_float = record { value = 0; bytes = to_le 4 0; coded = Codes-float_le 0 (omega arith) }

abbrev no_item : Field item_instance
no_item = record { value = air; bytes = 0 ∷ []; coded = Codes-air.0 }

abbrev survival : Field var_int
survival = record {
  value = pos 0;
  bytes = groups 4 (place (pos 0));
  coded = Codes-var_int (pos 0) (omega arith);
}

hi_encoded : encode (0x68 ∷ 0x69 ∷ []) ≡ some (0x68 ∷ 0x69 ∷ [])
unfolding encode
hi_encoded = refl

abbrev hi : Field string
hi = record {
  value = 0x68 ∷ 0x69 ∷ [];
  bytes = groups 4 2 ++ (0x68 ∷ 0x69 ∷ []);
  coded = Codes-string (0x68 ∷ 0x69 ∷ []) (0x68 ∷ 0x69 ∷ []) hi_encoded (omega arith);
}

abbrev id : Field uuid
id = record {
  value = record { msb = pos 1; lsb = pos 2 };
  bytes = to_le 8 1 ++ to_le 8 2;
  coded = Codes-uuid 1 2 (omega arith) (omega arith);
}

abbrev health : Attribute
health = record { name = hi; least = zero_float; current = zero_float; greatest = zero_float }

abbrev item_front : List ℕ → List ℕ
item_front list =
    actor.bytes ++ (runtime.bytes ++ (no_item.bytes ++ (origin.bytes ++ (origin.bytes ++ list))))

abbrev player_front : List ℕ → List ℕ
player_front list =
    id.bytes
    ++ (hi.bytes
        ++ (runtime.bytes
            ++ (hi.bytes
                ++ (origin.bytes
                    ++ (origin.bytes
                        ++ (rotation.bytes
                            ++ (zero_float.bytes
                                ++ (no_item.bytes ++ (survival.bytes ++ list)))))))))

rewrite_add_player_lem_example :
    Forwards
      (rewrite_add_player sounds (wrap (player_front before_bytes ++ (0 ∷ [])) (some player)))
      (player_front after_bytes ++ (0 ∷ []))
      player
rewrite_add_player_lem_example =
    rewrite_add_player_lem sounds before before_bytes after_bytes (0 ∷ []) player before_coded
      after_coded id hi runtime hi origin origin rotation zero_float no_item survival

abbrev actor_front : List ℕ → List ℕ
actor_front list =
    actor.bytes
    ++ (runtime.bytes
        ++ (hi.bytes
            ++ (origin.bytes
                ++ (origin.bytes
                    ++ (rotation.bytes
                        ++ (zero_float.bytes
                            ++ (zero_float.bytes
                                ++ (groups 4 1 ++ (attributes_bytes (health ∷ []) ++ list)))))))))

rewrite_add_actor_lem_example :
    Forwards
      (rewrite_add_actor sounds (wrap (actor_front before_bytes ++ (0 ∷ [])) (some player)))
      (actor_front after_bytes ++ (0 ∷ []))
      player
rewrite_add_actor_lem_example =
    rewrite_add_actor_lem sounds before before_bytes after_bytes (0 ∷ []) player before_coded
      after_coded actor runtime hi origin origin rotation zero_float zero_float (health ∷ [])
      (omega arith)

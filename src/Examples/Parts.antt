-- ===== src/Examples/Parts.antt =====
-- Fields of packets with their bytes.
use endweave.Prelude.{
  ◌^◌, ◌≡◌, refl, true, false, none, some, [], ◌∷◌, ◌++◌, pos, negsuc, arith, mask,
}
use endweave.Codec.Leb128.{groups}
use endweave.Codec.Word.{to_le}
use endweave.Codec.Utf8.{encode}
use endweave.Codec.Zigzag.{place}
use endweave.Codec.FieldType.{
  block_pos, bool, byte, float_le, int64_le, int_le, network_block_pos, optional_type, short_le,
  string, uint_le, ushort_le, uuid, uvar_int, uvar_int64, var_int, var_int64, vec2, vec3,
}
use endweave.Codec.FieldType.Codes.{Field, none_left}
use endweave.Codec.FieldType.Primitives.{
  Codes-bool, Codes-byte, Codes-float_le, Codes-int64_le, Codes-int_le, Codes-short_le,
  Codes-uint_le, Codes-ushort_le,
}
use endweave.Codec.FieldType.Variable.{
  Codes-string, Codes-uvar_int, Codes-uvar_int64, Codes-var_int, Codes-var_int64,
}
use endweave.Codec.FieldType.Compound.{
  Codes-array_type, Codes-block_pos, Codes-network_block_pos, Codes-none, Codes-uuid, Codes-vec2,
  Codes-vec3,
}
use endweave.Codec.Gameplay.{game_rule, game_rules, experiments}
use endweave.Codec.Gameplay.RoundTrip.{Codes-experiments_type}
use endweave.Codec.Nbt.{named_compound_tag, no_entries}
use endweave.Codec.Nbt.RoundTrip.{Codes-named_compound_tag}
use endweave.Codec.Nbt.Coded.{ended}
use endweave.Codec.Wrapper.Chunk.{Twin, alike}

abbrev pub no_flag : Field bool
no_flag = record { value = false; bytes = 0 ∷ []; coded = Codes-bool false }

abbrev pub set_flag : Field bool
set_flag = record { value = true; bytes = 1 ∷ []; coded = Codes-bool true }

abbrev pub three : Field byte
three = record { value = pos 3; bytes = 3 ∷ []; coded = Codes-byte 3 (omega arith) }

abbrev pub seven : Field uvar_int
seven = record { value = pos 7; bytes = groups 4 7; coded = Codes-uvar_int 7 (omega arith) }

abbrev pub player_id : Field uvar_int64
player_id = record { value = pos 1; bytes = groups 9 1; coded = Codes-uvar_int64 1 (omega arith) }

abbrev pub zero_int : Field var_int
zero_int = record { value = pos 0; bytes = groups 4 0; coded = Codes-var_int (pos 0) (omega arith) }

abbrev pub sixteen : Field var_int
sixteen = record {
  value = pos 16;
  bytes = groups 4 (place (pos 16));
  coded = Codes-var_int (pos 16) (omega arith);
}

abbrev pub minus_five : Field var_int64
minus_five = record {
  value = negsuc 4;
  bytes = groups 9 (place (negsuc 4));
  coded = Codes-var_int64 (negsuc 4) (omega arith);
}

abbrev pub zero_int_le : Field int_le
zero_int_le = record { value = pos 0; bytes = to_le 4 0; coded = Codes-int_le (pos 0) 0 refl }

abbrev pub zero_short : Field short_le
zero_short = record { value = pos 0; bytes = to_le 2 0; coded = Codes-short_le (pos 0) 0 refl }

abbrev pub one_short : Field ushort_le
one_short = record { value = pos 1; bytes = to_le 2 1; coded = Codes-ushort_le 1 (omega arith) }

abbrev pub nine_long : Field int64_le
nine_long = record { value = pos 9; bytes = to_le 8 9; coded = Codes-int64_le (pos 9) 9 refl }

abbrev pub one_word : Field uint_le
one_word = record { value = pos 1; bytes = to_le 4 1; coded = Codes-uint_le 1 (omega arith) }

abbrev pub half : Field float_le
half = record {
  value = 0x3F000000;
  bytes = to_le 4 0x3F000000;
  coded = Codes-float_le 0x3F000000 (omega arith);
}

abbrev pub origin : Field vec3
origin = record {
  value = (0, 0, 0);
  bytes = to_le 4 0 ++ (to_le 4 0 ++ to_le 4 0);
  coded = Codes-vec3 0 0 0 (omega arith) (omega arith) (omega arith);
}

abbrev pub forward : Field vec2
forward = record {
  value = (0, 0);
  bytes = to_le 4 0 ++ to_le 4 0;
  coded = Codes-vec2 0 0 (omega arith) (omega arith);
}

pub hi_encoded : encode (0x68 ∷ 0x69 ∷ []) ≡ some (0x68 ∷ 0x69 ∷ [])
unfolding encode
hi_encoded = refl

-- "hi"
abbrev pub hi : Field string
hi = record {
  value = 0x68 ∷ 0x69 ∷ [];
  bytes = groups 4 2 ++ (0x68 ∷ 0x69 ∷ []);
  coded = Codes-string (0x68 ∷ 0x69 ∷ []) (0x68 ∷ 0x69 ∷ []) hi_encoded (omega arith);
}

abbrev pub unset : Field (optional_type bool)
unset = record { value = none; bytes = 0 ∷ []; coded = Codes-none bool }

abbrev pub nobody : Field uuid
nobody = record {
  value = record { msb = pos 0; lsb = pos 0 };
  bytes = to_le 8 0 ++ to_le 8 0;
  coded = Codes-uuid 0 0 (omega arith) (omega arith);
}

abbrev pub no_tag : Field named_compound_tag
no_tag = record {
  value = some no_entries;
  bytes = 10 ∷ 0 ∷ 0 ∷ [];
  coded = Codes-named_compound_tag {entries = no_entries} {bs = 0 ∷ []} refl ended;
}

abbrev pub no_rules : Field game_rules
no_rules = record {
  value = [];
  bytes = groups 4 0 ++ [];
  coded = Codes-array_type game_rule [] [] none_left (omega arith);
}

abbrev pub no_experiments : Field experiments
no_experiments = record {
  value = [];
  bytes = to_le 4 0 ++ [];
  coded =
      Codes-experiments_type uint_le [] (to_le 4 0) [] (Codes-uint_le 0 (omega arith)) none_left;
}

-- A block below zero.
abbrev pub block : Field block_pos
block = record {
  value = (pos 12, negsuc 63, negsuc 4);
  bytes =
      groups 4 (place (pos 12)) ++ (groups 4 (place (negsuc 63)) ++ groups 4 (place (negsuc 4)));
  coded = Codes-block_pos (pos 12) (negsuc 63) (negsuc 4) (omega arith) (omega arith) (omega arith);
}

abbrev pub position : Twin network_block_pos block_pos
position =
    alike (pos 12, negsuc 63, negsuc 4)
      (groups 4 (place (pos 12))
        ++ (groups 4 (mask (negsuc 63) (2 ^ 32)) ++ groups 4 (place (negsuc 4))))
      block.bytes
      (Codes-network_block_pos (pos 12) (negsuc 63) (negsuc 4) (omega arith) (omega arith)
        (omega arith))
      block.coded

-- ===== src/Codec/ActorData.antt =====
-- codec/types/actor_data.py: the metadata of an entity, with a value of one of nine types.
pub mod RoundTrip
use endweave.Prelude.{ℕ, Option, List, ℤ, pos, eqb_ℤ, if◌then◌else◌}
use endweave.Exec.{pure, raise, key_error, ◌>>=◌, ◌>>◌}
use endweave.Codec.Reader.{Read, read_uvarint}
use endweave.Codec.Writer.{Write}
use endweave.Codec.FieldType.{
  FieldType, byte, short_le, var_int, float_le, string, block_pos, var_int64, vec3, uvar_int,
  unsigned, array_type, Position,
}
use endweave.Codec.Nbt.{Entries, named_compound_tag}

-- A value carries the type that it is read as: a constructor for each row of `_VALUE_TYPES`.
pub data Value : Type 0 where
  byte_value short_value int_value int64_value : ℤ → Value
  float_value : ℕ → Value
  string_value : List ℕ → Value
  compound_value : Option Entries → Value
  block_pos_value : Position → Value
  vec3_value : ℕ × ℕ × ℕ → Value

-- `type_id`
abbrev pub type_id : Value → ℕ
type_id (byte_value v) = 0
type_id (short_value v) = 1
type_id (int_value v) = 2
type_id (float_value v) = 3
type_id (string_value v) = 4
type_id (compound_value v) = 5
type_id (block_pos_value v) = 6
type_id (int64_value v) = 7
type_id (vec3_value v) = 8

pub record ActorDataItem : Type 0 where
  pub key : ℤ
  pub value : Value

abbrev pub as_value : {A : Type 0} → FieldType A → (A → Value) → Read Value
as_value field_type f = field_type.read >>= λ v. pure (f v)

-- `_VALUE_TYPES[type_id].read(reader)`: a `KeyError` for other numbers.
unfoldable pub read_typed : ℤ → Read Value
read_typed t =
    if eqb_ℤ t (pos 0)
    then as_value byte (λ v. byte_value v)
    else if eqb_ℤ t (pos 1)
    then as_value short_le (λ v. short_value v)
    else if eqb_ℤ t (pos 2)
    then as_value var_int (λ v. int_value v)
    else if eqb_ℤ t (pos 3)
    then as_value float_le (λ v. float_value v)
    else if eqb_ℤ t (pos 4)
    then as_value string (λ v. string_value v)
    else if eqb_ℤ t (pos 5)
    then as_value named_compound_tag (λ v. compound_value v)
    else if eqb_ℤ t (pos 6)
    then as_value block_pos (λ v. block_pos_value v)
    else if eqb_ℤ t (pos 7)
    then as_value var_int64 (λ v. int64_value v)
    else if eqb_ℤ t (pos 8)
    then as_value vec3 (λ v. vec3_value v)
    else raise key_error

unfoldable pub write_typed : Value → Write
write_typed (byte_value v) = byte.write v
write_typed (short_value v) = short_le.write v
write_typed (int_value v) = var_int.write v
write_typed (float_value v) = float_le.write v
write_typed (string_value v) = string.write v
write_typed (compound_value v) = named_compound_tag.write v
write_typed (block_pos_value v) = block_pos.write v
write_typed (int64_value v) = var_int64.write v
write_typed (vec3_value v) = vec3.write v

-- `ACTOR_DATA_ITEM`
unfoldable pub actor_data_item : FieldType ActorDataItem
actor_data_item = record {
  read = do
    key ← uvar_int.read
    type_id ← uvar_int.read
    value ← read_typed type_id
    pure (record { key = key; value = value });
  write = λ item. (do
    uvar_int.write item.key
    uvar_int.write (pos (type_id item.value))
    write_typed item.value);
}

-- `ACTOR_DATA_LIST`
abbrev pub actor_data_list : FieldType (List ActorDataItem)
actor_data_list = array_type actor_data_item

-- ===== src/Codec/FieldType.antt =====
-- codec/types/primitives.py: the types of packet fields. Each reads a value from a `PacketReader`
-- and writes it to a `PacketWriter`. The source calls the class `Type`.
pub mod Codes
pub mod Primitives
pub mod Variable
pub mod Compound
use endweave.Prelude.{
  ℕ, ◌^◌, Bool, true, false, Option, none, some, List, [], ◌∷◌, length, leb, ℤ, pos, sub_ℕ,
  if◌then◌else◌,
}
use endweave.Exec.{Exec, pure, ◌>>=◌, ◌>>◌, repeat, for_each}
use endweave.Codec.Reader.{
  Read, read_byte, read_signed_byte, read_bool, read_short_le, read_ushort_le, read_int_le,
  read_int_be, read_uint_le, read_int64_le, read_uint64_le, read_float_le, read_double_le,
  read_varint, read_uvarint, read_varint64, read_uvarint64, read_string, read_bytes, read_remaining,
}
use endweave.Codec.Writer.{
  Write, write_byte, write_signed_byte, write_bool, write_short_le, write_ushort_le, write_int_le,
  write_int_be, write_uint_le, write_int64_le, write_uint64_le, write_float_le, write_double_le,
  write_varint, write_uvarint, write_varint64, write_uvarint64, write_string, write_bytes,
}

pub record FieldType (A : Type 0) : Type 0 where
  pub read : Read A
  pub write : A → Write

-- An unsigned read, as a Python integer.
abbrev pub unsigned : Read ℕ → Read ℤ
unsigned m = m >>= λ n. pure (pos n)

abbrev pub byte : FieldType ℤ
byte = record { read = unsigned read_byte; write = write_byte }

abbrev pub int8 : FieldType ℤ
int8 = record { read = read_signed_byte; write = write_signed_byte }

abbrev pub bool : FieldType Bool
bool = record { read = read_bool; write = write_bool }

abbrev pub short_le : FieldType ℤ
short_le = record { read = read_short_le; write = write_short_le }

abbrev pub ushort_le : FieldType ℤ
ushort_le = record { read = unsigned read_ushort_le; write = write_ushort_le }

abbrev pub int_le : FieldType ℤ
int_le = record { read = read_int_le; write = write_int_le }

abbrev pub int_be : FieldType ℤ
int_be = record { read = read_int_be; write = write_int_be }

abbrev pub uint_le : FieldType ℤ
uint_le = record { read = unsigned read_uint_le; write = write_uint_le }

abbrev pub int64_le : FieldType ℤ
int64_le = record { read = read_int64_le; write = write_int64_le }

abbrev pub uint64_le : FieldType ℤ
uint64_le = record { read = unsigned read_uint64_le; write = write_uint64_le }

abbrev pub float_le : FieldType ℕ
float_le = record { read = read_float_le; write = write_float_le }

abbrev pub double_le : FieldType ℕ
double_le = record { read = read_double_le; write = write_double_le }

abbrev pub var_int : FieldType ℤ
var_int = record { read = read_varint; write = write_varint }

abbrev pub uvar_int : FieldType ℤ
uvar_int = record { read = unsigned read_uvarint; write = write_uvarint }

abbrev pub var_int64 : FieldType ℤ
var_int64 = record { read = read_varint64; write = write_varint64 }

abbrev pub uvar_int64 : FieldType ℤ
uvar_int64 = record { read = unsigned read_uvarint64; write = write_uvarint64 }

-- A text is the list of its code points.
abbrev pub string : FieldType (List ℕ)
string = record { read = read_string; write = write_string }

abbrev pub bytes : ℤ → FieldType (List ℕ)
bytes length' = record { read = read_bytes length'; write = write_bytes }

abbrev pub remaining_bytes : FieldType (List ℕ)
remaining_bytes = record { read = read_remaining; write = write_bytes }

abbrev pub Position : Type 0
Position = ℤ × ℤ × ℤ

-- `if y >= 0x80000000: y -= 0x100000000`
abbrev pub signed_y : ℕ → ℤ
signed_y y = if leb (2 ^ 31) y then sub_ℕ y (2 ^ 32) else pos y

unfoldable pub network_block_pos : FieldType Position
network_block_pos = record {
  read = (do x ← read_varint; y ← read_uvarint; z ← read_varint; pure (x, signed_y y, z));
  write = λ value. (do write_varint value.0; write_uvarint value.1; write_varint value.2);
}

unfoldable pub block_pos : FieldType Position
block_pos = record {
  read = (do x ← read_varint; y ← read_varint; z ← read_varint; pure (x, y, z));
  write = λ value. (do write_varint value.0; write_varint value.1; write_varint value.2);
}

unfoldable pub vec3 : FieldType (ℕ × ℕ × ℕ)
vec3 = record {
  read = (do x ← read_float_le; y ← read_float_le; z ← read_float_le; pure (x, y, z));
  write = λ value. (do write_float_le value.0; write_float_le value.1; write_float_le value.2);
}

unfoldable pub vec2 : FieldType (ℕ × ℕ)
vec2 = record {
  read = (do x ← read_float_le; y ← read_float_le; pure (x, y));
  write = λ value. (do write_float_le value.0; write_float_le value.1);
}

pub record MceUuid : Type 0 where
  pub msb : ℤ
  pub lsb : ℤ

unfoldable pub uuid : FieldType MceUuid
uuid = record {
  read = do
    msb ← read_uint64_le
    lsb ← read_uint64_le
    pure (record { msb = pos msb; lsb = pos lsb });
  write = λ value. (do write_uint64_le value.msb; write_uint64_le value.lsb);
}

module _ {A : Type 0} where
  unfoldable pub array_type : FieldType A → FieldType (List A)
  array_type inner = record {
    read = (do count ← read_uvarint; repeat count inner.read);
    write = λ value. (do write_uvarint (pos (length value)); for_each value inner.write);
  }

  abbrev pub read_optional : FieldType A → Bool → Read (Option A)
  read_optional inner true = inner.read >>= λ v. pure (some v)
  read_optional inner false = pure none

  abbrev pub write_optional : FieldType A → Option A → Write
  write_optional inner (some v) = write_bool true >> inner.write v
  write_optional inner none = write_bool false

  unfoldable pub optional_type : FieldType A → FieldType (Option A)
  optional_type inner = record {
    read = (do present ← read_bool; read_optional inner present);
    write = write_optional inner;
  }

-- ===== src/Codec/ActorData/RoundTrip.antt =====
-- codec/types/actor_data.py: entries of metadata and their bytes.
use endweave.Prelude.{ℕ, ◌^◌, ◌<◌, ◌≡◌, refl, Option, List, ◌++◌, ℤ, pos, arith}
use endweave.Codec.Leb128.{groups}
use endweave.Codec.FieldType.{
  byte, short_le, var_int, float_le, string, block_pos, var_int64, vec3, uvar_int, Position,
}
use endweave.Codec.FieldType.Codes.{Codes}
use endweave.Codec.FieldType.Variable.{Codes-uvar_int}
use endweave.Codec.Reader.View.{Reads, Reads-bind, Reads-map}
use endweave.Codec.Writer.View.{Writes, Writes-then}
use endweave.Codec.Nbt.{Entries, named_compound_tag}
use endweave.Codec.ActorData.{
  Value, byte_value, short_value, int_value, int64_value, float_value, string_value, compound_value,
  block_pos_value, vec3_value, type_id, read_typed, write_typed, actor_data_item,
}

-- A type number, a value of that type and its bytes: the table of the wire format, a row for each type.
pub data CodedValue : ℕ → Value → List ℕ → Type 0 where
  coded_byte : {v : ℤ} {bs : List ℕ} → Codes byte v bs → CodedValue 0 (byte_value v) bs
  coded_short : {v : ℤ} {bs : List ℕ} → Codes short_le v bs → CodedValue 1 (short_value v) bs
  coded_int : {v : ℤ} {bs : List ℕ} → Codes var_int v bs → CodedValue 2 (int_value v) bs
  coded_float : {v : ℕ} {bs : List ℕ} → Codes float_le v bs → CodedValue 3 (float_value v) bs
  coded_string : {v : List ℕ} {bs : List ℕ} → Codes string v bs → CodedValue 4 (string_value v) bs
  coded_compound :
      {v : Option Entries} {bs : List ℕ}
      → Codes named_compound_tag v bs
      → CodedValue 5 (compound_value v) bs
  coded_block_pos :
      {v : Position} {bs : List ℕ} → Codes block_pos v bs → CodedValue 6 (block_pos_value v) bs
  coded_int64 : {v : ℤ} {bs : List ℕ} → Codes var_int64 v bs → CodedValue 7 (int64_value v) bs
  coded_vec3 : {v : ℕ × ℕ × ℕ} {bs : List ℕ} → Codes vec3 v bs → CodedValue 8 (vec3_value v) bs

Reads-typed :
    {t : ℕ} {v : Value} {bs : List ℕ} → CodedValue t v bs → Reads (read_typed (pos t)) bs v
unfolding read_typed
Reads-typed (coded_byte c) = Reads-map _ (λ v. byte_value v) c.reads refl
Reads-typed (coded_short c) = Reads-map _ (λ v. short_value v) c.reads refl
Reads-typed (coded_int c) = Reads-map _ (λ v. int_value v) c.reads refl
Reads-typed (coded_float c) = Reads-map _ (λ v. float_value v) c.reads refl
Reads-typed (coded_string c) = Reads-map _ (λ v. string_value v) c.reads refl
Reads-typed (coded_compound c) = Reads-map _ (λ v. compound_value v) c.reads refl
Reads-typed (coded_block_pos c) = Reads-map _ (λ v. block_pos_value v) c.reads refl
Reads-typed (coded_int64 c) = Reads-map _ (λ v. int64_value v) c.reads refl
Reads-typed (coded_vec3 c) = Reads-map _ (λ v. vec3_value v) c.reads refl

Writes-typed : {t : ℕ} {v : Value} {bs : List ℕ} → CodedValue t v bs → Writes (write_typed v) bs
unfolding write_typed
Writes-typed (coded_byte c) = c.writes
Writes-typed (coded_short c) = c.writes
Writes-typed (coded_int c) = c.writes
Writes-typed (coded_float c) = c.writes
Writes-typed (coded_string c) = c.writes
Writes-typed (coded_compound c) = c.writes
Writes-typed (coded_block_pos c) = c.writes
Writes-typed (coded_int64 c) = c.writes
Writes-typed (coded_vec3 c) = c.writes

-- The number that the entry is written with is the table's.
type_id-coded : {t : ℕ} {v : Value} {bs : List ℕ} → CodedValue t v bs → type_id v ≡ t
type_id-coded (coded_byte c) = refl
type_id-coded (coded_short c) = refl
type_id-coded (coded_int c) = refl
type_id-coded (coded_float c) = refl
type_id-coded (coded_string c) = refl
type_id-coded (coded_compound c) = refl
type_id-coded (coded_block_pos c) = refl
type_id-coded (coded_int64 c) = refl
type_id-coded (coded_vec3 c) = refl

coded-lt : {t : ℕ} {v : Value} {bs : List ℕ} → CodedValue t v bs → t < 2 ^ 32
coded-lt (coded_byte c) = omega arith
coded-lt (coded_short c) = omega arith
coded-lt (coded_int c) = omega arith
coded-lt (coded_float c) = omega arith
coded-lt (coded_string c) = omega arith
coded-lt (coded_compound c) = omega arith
coded-lt (coded_block_pos c) = omega arith
coded-lt (coded_int64 c) = omega arith
coded-lt (coded_vec3 c) = omega arith

-- An entry with a key below 2 ** 32 and a value of one of the nine types, which the field type of
-- its row of the table codes, is written as the key, the number of that row and the value, and read
-- back from these bytes. The rows: byte 0, short 1, int 2, float 3, string 4, compound 5, position of a
-- block 6, int64 7, three floats 8.
pub Codes-actor_data_item :
    (key t : ℕ) (v : Value) (bs : List ℕ)
    → key < 2 ^ 32
    → CodedValue t v bs
    → Codes actor_data_item
        (record { key = pos key; value = v })
        (groups 4 key ++ (groups 4 t ++ bs))
unfolding actor_data_item
Codes-actor_data_item key t v bs h c =
    let k = Codes-uvar_int key h in
    let number = Codes-uvar_int t (coded-lt c) in
    record {
      reads = Reads-bind uvar_int.read _ k.reads (
          Reads-bind uvar_int.read _ number.reads
            (Reads-map (read_typed (pos t)) _ (Reads-typed c) refl));
      writes = Writes-then (uvar_int.write (pos key)) _ k.writes (
          rw (type_id-coded c)
            (Writes-then (uvar_int.write (pos t)) _ number.writes (Writes-typed c)));
    }

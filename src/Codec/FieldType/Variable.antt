-- ===== src/Codec/FieldType/Variable.antt =====
-- The contract of the field types of variable length of codec/types/primitives.py.
use endweave.Prelude.{
  ℕ, ◌*◌, ◌^◌, ◌<◌, ◌≤◌, ◌≡◌, refl, ◌∙◌, some, List, [], ◌++◌, length, arith, append-nil, ℤ, pos,
  negsuc, mask, le→ltb,
}
use endweave.Exec.{pure}
use endweave.Codec.Utf8.{encode}
use endweave.Codec.Utf8.RoundTrip.{decode-encode}
use endweave.Codec.Leb128.{groups}
use endweave.Codec.Zigzag.{place, unzigzag-place, IsInt, zigzag_32, zigzag_64, zigzag_wrapped}
use endweave.Codec.Reader.{
  read_varint, read_varint64, read_uvarint, read_uvarint64, read_string, read_bytes, decoded,
  max_string_bytes, unzigzag,
}
use endweave.Codec.Reader.View.{Reads, Reads-pure, Reads-bind, Reads-map, Reads-read_bytes}
use endweave.Codec.Reader.Varint.{Reads-read_uvarint, Reads-read_uvarint64}
use endweave.Codec.Writer.{
  write_bytes, write_varint, write_varint64, write_uvarint, write_uvarint64, write_string,
}
use endweave.Codec.Writer.View.{Writes, Writes-write_bytes, Writes-then}
use endweave.Codec.Writer.Varint.{Writes-write_uvarint, Writes-write_uvarint64}
use endweave.Codec.FieldType.{var_int, uvar_int, var_int64, uvar_int64, string}
use endweave.Codec.FieldType.Codes.{Codes}

mask_small : (m v : ℕ) → v < m → mask (pos v) m ≡ v
mask_small m v h = ground (arith, native.Mathlib.Nat.mod-eq_of_lt h)

Writes-small : (v : ℕ) → v < 2 ^ 32 → Writes (write_uvarint (pos v)) (groups 4 v)
Writes-small v h = rw (mask_small (2 ^ 32) v h) at (Writes-write_uvarint (pos v))

Writes-small64 : (v : ℕ) → v < 2 ^ 64 → Writes (write_uvarint64 (pos v)) (groups 9 v)
Writes-small64 v h = rw (mask_small (2 ^ 64) v h) at (Writes-write_uvarint64 (pos v))

pub Codes-uvar_int : (v : ℕ) → v < 2 ^ 32 → Codes uvar_int (pos v) (groups 4 v)
Codes-uvar_int v h = record {
  reads = Reads-map read_uvarint pos (Reads-read_uvarint v (omega arith)) refl;
  writes = Writes-small v h;
}

pub Codes-uvar_int64 : (v : ℕ) → v < 2 ^ 64 → Codes uvar_int64 (pos v) (groups 9 v)
Codes-uvar_int64 v h = record {
  reads = Reads-map read_uvarint64 pos (Reads-read_uvarint64 v (omega arith)) refl;
  writes = Writes-small64 v h;
}

place-lt : (half : ℕ) (v : ℤ) → IsInt half v → place v < half * 2
place-lt half (pos n) h = omega arith
place-lt half (negsuc n) h = omega arith

-- A signed number of 32 bits is written as the groups of seven bits of its zigzag number, and read
-- back from these bytes whatever follows them.
pub Codes-var_int : (v : ℤ) → IsInt (2 ^ 31) v → Codes var_int v (groups 4 (place v))
unfolding read_varint write_varint
Codes-var_int v h = record {
  reads =
      Reads-map read_uvarint unzigzag
        (Reads-read_uvarint (place v) (omega (arith, place-lt (2 ^ 31) v h))) (unzigzag-place v);
  writes = rw (zigzag_32 v h) (Writes-small (place v) (place-lt (2 ^ 31) v h));
}

-- The unsigned reading of a signed number is written like the number.
pub Writes-wrapped :
    (v : ℤ) → IsInt (2 ^ 31) v → Writes (write_varint (pos (mask v (2 ^ 32)))) (groups 4 (place v))
unfolding write_varint
Writes-wrapped v h =
    rw (zigzag_wrapped v h ∙ zigzag_32 v h) (Writes-small (place v) (place-lt (2 ^ 31) v h))

-- A signed number of 64 bits is written as the groups of seven bits of its zigzag number, and read
-- back from these bytes whatever follows them.
pub Codes-var_int64 : (v : ℤ) → IsInt (2 ^ 63) v → Codes var_int64 v (groups 9 (place v))
unfolding read_varint64 write_varint64
Codes-var_int64 v h = record {
  reads =
      Reads-map read_uvarint64 unzigzag
        (Reads-read_uvarint64 (place v) (omega (arith, place-lt (2 ^ 63) v h))) (unzigzag-place v);
  writes = rw (zigzag_64 v h) (Writes-small64 (place v) (place-lt (2 ^ 63) v h));
}

pub Reads-decoded : (cs bs : List ℕ) → encode cs ≡ some bs → Reads (decoded bs) [] cs
Reads-decoded cs bs e =
    let returned : Reads (pure cs) [] cs = Reads-pure cs in
    record { at = λ r rest h. rw (decode-encode cs bs e, decoded) (returned.at r rest h) }

-- A text whose encoding has at most 131068 bytes is written as the length of the encoding and the
-- encoding, and read back from these bytes whatever follows them.
pub Codes-string :
    (cs bs : List ℕ)
    → encode cs ≡ some bs
    → length bs ≤ max_string_bytes
    → Codes string cs (groups 4 (length bs) ++ bs)
unfolding read_string write_string
Codes-string cs bs e h = record {
  reads = Reads-bind read_uvarint _ (Reads-read_uvarint (length bs) (omega arith)) (
      rw (le→ltb max_string_bytes (length bs) h) (
        rw append-nil at (
          Reads-bind (read_bytes (pos (length bs))) decoded (Reads-read_bytes _ bs refl)
            (Reads-decoded cs bs e))));
  writes = rw e (
      Writes-then (write_uvarint (pos (length bs))) (write_bytes bs)
        (Writes-small (length bs) (omega arith)) (Writes-write_bytes bs));
}

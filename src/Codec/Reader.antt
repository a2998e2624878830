-- ===== src/Codec/Reader.antt =====
-- codec/reader.py: `PacketReader`, with its `_data` and `_pos`. A byte is a number below 256.
pub mod View
pub mod Varint
pub mod Bounds
use Prim.Native.Nat.{bit_or}
use endweave.Prelude.{
  ℕ, zero, suc, ◌+◌, ◌-◌, ◌*◌, ◌/◌, ◌%◌, ◌^◌, Bool, ◌||◌, not, Option, none, some, List, reverse,
  length, get_elem?, take, drop, ltb, leb, ◌==◌, ℤ, pos, pos_part, sub_ℕ, ltb_ℤ, neg, shr, xor_ℤ,
  if◌then◌else◌,
}
use endweave.Exec.{
  Exec, Result, ok, raised, index_error, struct_error, value_error, unicode_decode_error, diverges,
  pure, raise, ◌>>=◌,
}
use endweave.Codec.Utf8.{decode}
use endweave.Codec.Word.{of_le, of_signed_word}

pub record PacketReader : Type 0 where
  pub bytes : List ℕ
  pub position : ℕ

abbrev pub Read : Type 0 → Type 0
Read A = Exec PacketReader A

abbrev pub has_remaining : PacketReader → Bool
has_remaining r = ltb r.position (length r.bytes)

abbrev pub remaining : PacketReader → ℤ
remaining r = sub_ℕ (length r.bytes) r.position

abbrev pub advance : ℕ → PacketReader → PacketReader
advance n r = record r { position = r.position + n }

abbrev out_of_bounds : PacketReader → ℤ → Bool
out_of_bounds r n = ltb_ℤ n (pos 0) || ltb_ℤ (remaining r) n

unfoldable pub skip : ℤ → Read (Unit {0})
skip n r = if out_of_bounds r n then (raised value_error, r) else (ok tt, advance (pos_part n) r)

-- `self._data[self._pos]` raises an IndexError past the end.
unfoldable pub read_byte : Read ℕ
read_byte r = elim (get_elem? r.bytes r.position) [
  | none ↦ (raised index_error, r)
  | some val ↦ (ok val, advance 1 r)
]

unfoldable pub read_signed_byte : Read ℤ
read_signed_byte = do val ← read_byte; pure (if leb 128 val then sub_ℕ val 256 else pos val)

unfoldable pub read_bytes : ℤ → Read (List ℕ)
read_bytes n r =
    if out_of_bounds r n
    then (raised value_error, r)
    else (ok (take (pos_part n) (drop r.position r.bytes)), advance (pos_part n) r)

unfoldable pub read_remaining : Read (List ℕ)
read_remaining r = (ok (drop r.position r.bytes), record r { position = length r.bytes })

unfoldable pub read_bool : Read Bool
read_bool = do b ← read_byte; pure (not (b == 0))

-- `unpack_from(self._data, self._pos)` of a format of `n` bytes, then `self._pos += n`
unfoldable pub unpack_from : ℕ → Read (List ℕ)
unpack_from n r =
    if leb (r.position + n) (length r.bytes)
    then (ok (take n (drop r.position r.bytes)), advance n r)
    else (raised struct_error, r)

unfoldable pub read_short_le : Read ℤ
read_short_le = do bs ← unpack_from 2; pure (of_signed_word (256 ^ 2) (of_le bs))

unfoldable pub read_ushort_le : Read ℕ
read_ushort_le = do bs ← unpack_from 2; pure (of_le bs)

unfoldable pub read_int_le : Read ℤ
read_int_le = do bs ← unpack_from 4; pure (of_signed_word (256 ^ 4) (of_le bs))

unfoldable pub read_int_be : Read ℤ
read_int_be = do bs ← unpack_from 4; pure (of_signed_word (256 ^ 4) (of_le (reverse bs)))

unfoldable pub read_uint_le : Read ℕ
read_uint_le = do bs ← unpack_from 4; pure (of_le bs)

unfoldable pub read_int64_le : Read ℤ
read_int64_le = do bs ← unpack_from 8; pure (of_signed_word (256 ^ 8) (of_le bs))

unfoldable pub read_uint64_le : Read ℕ
read_uint64_le = do bs ← unpack_from 8; pure (of_le bs)

-- A float is kept as its IEEE 754 bit pattern.
unfoldable pub read_float_le : Read ℕ
read_float_le = do bs ← unpack_from 4; pure (of_le bs)

unfoldable pub read_double_le : Read ℕ
read_double_le = do bs ← unpack_from 8; pure (of_le bs)

-- The loop of `read_uvarint` (limit 35) and of `read_uvarint64` (limit 70). `b & 0x7F` is `b % 128`,
-- and `b & 0x80` is the digit `b / 128 % 2`.
unfoldable pub uvarint_loop : ℕ → ℕ → ℕ → ℕ → Read ℕ
uvarint_loop zero limit result shift = raise diverges
uvarint_loop (suc fuel) limit result shift = do
  b ← read_byte
  let result' = bit_or result (b % 128 * 2 ^ shift)
  let again = uvarint_loop fuel limit result' (shift + 7)
  if b / 128 % 2 == 0
      then pure result'
      else if leb limit (shift + 7)
      then raise value_error
      else again

-- A first byte below 0x80 is the number; from there on one round for each 7 bits of the limit.
unfoldable pub uvarint : ℕ → ℕ → Read ℕ
unfolding uvarint_loop
uvarint rounds limit = do
  b ← read_byte
  let more = uvarint_loop rounds limit (b % 128) 7
  if ltb b 0x80 then pure b else more

unfoldable pub read_uvarint : Read ℕ
read_uvarint = uvarint 4 35

unfoldable pub read_uvarint64 : Read ℕ
read_uvarint64 = uvarint 9 70

-- `(raw >> 1) ^ -(raw & 1)`
abbrev pub unzigzag : ℕ → ℤ
unzigzag raw = xor_ℤ (shr (pos raw) 2) (neg (raw % 2))

unfoldable pub read_varint : Read ℤ
read_varint = do raw ← read_uvarint; pure (unzigzag raw)

unfoldable pub read_varint64 : Read ℤ
read_varint64 = do raw ← read_uvarint64; pure (unzigzag raw)

abbrev pub max_string_bytes : ℕ
max_string_bytes = 131068

-- `bytes.decode("utf-8")`
abbrev pub decoded : List ℕ → Read (List ℕ)
decoded bs r = elim (decode bs) [ none ↦ (raised unicode_decode_error, r) | some s ↦ (ok s, r) ]

unfoldable pub read_string : Read (List ℕ)
read_string = do
  length' ← read_uvarint
  if ltb max_string_bytes length'
      then raise value_error
      else do bs ← read_bytes (pos length'); decoded bs

-- ===== src/Codec/Writer.antt =====
-- codec/writer.py: `PacketWriter`, with its `_buf`.
pub mod View
pub mod Varint
use Prim.Native.Nat.{bit_or}
use endweave.Prelude.{
  ℕ, zero, suc, ◌*◌, ◌/◌, ◌%◌, ◌^◌, Bool, Option, none, some, List, [], ◌∷◌, ◌++◌, reverse, length,
  ltb, ◌==◌, ℤ, pos, sub_ℕ, mask, shl_one, shr, xor_ℤ, if◌then◌else◌,
}
use endweave.Exec.{
  Exec, Result, ok, raised, struct_error, unicode_encode_error, diverges, raise, ◌>>=◌, ◌>>◌,
}
use endweave.Codec.Utf8.{encode}
use endweave.Codec.Word.{to_le, unsigned_word, signed_word}

pub record PacketWriter : Type 0 where
  pub buf : List ℕ

abbrev pub Write : Type 0
Write = Exec PacketWriter (Unit {0})

abbrev pub empty : PacketWriter
empty = record { buf = [] }

-- `to_bytes` and `__len__`
abbrev pub to_bytes : PacketWriter → List ℕ
to_bytes w = w.buf

abbrev pub size : PacketWriter → ℕ
size w = length w.buf

-- `self._buf.extend(data)`
unfoldable pub write_bytes : List ℕ → Write
write_bytes bs w = (ok tt, record w { buf = w.buf ++ bs })

-- `self._buf.append(val & 0xFF)`
unfoldable pub write_byte : ℤ → Write
unfolding write_bytes
write_byte val = write_bytes (mask val 256 ∷ [])

unfoldable pub write_signed_byte : ℤ → Write
unfolding write_bytes
write_signed_byte val = write_bytes (mask val 256 ∷ [])

unfoldable pub write_bool : Bool → Write
unfolding write_bytes
write_bool val = write_bytes ((if val then 1 else 0) ∷ [])

-- `self._buf.extend(_FORMAT.pack(val))`, from the bit pattern of `val` if it is in range
abbrev pub extend_packed : Option ℕ → (ℕ → List ℕ) → Write
extend_packed none bytes = raise struct_error
extend_packed (some word) bytes = write_bytes (bytes word)

unfoldable pub write_short_le : ℤ → Write
write_short_le val = extend_packed (signed_word (256 ^ 2) val) (to_le 2)

unfoldable pub write_ushort_le : ℤ → Write
write_ushort_le val = extend_packed (unsigned_word (256 ^ 2) val) (to_le 2)

unfoldable pub write_int_le : ℤ → Write
write_int_le val = extend_packed (signed_word (256 ^ 4) val) (to_le 4)

unfoldable pub write_int_be : ℤ → Write
write_int_be val = extend_packed (signed_word (256 ^ 4) val) (λ word. reverse (to_le 4 word))

unfoldable pub write_uint_le : ℤ → Write
write_uint_le val = extend_packed (unsigned_word (256 ^ 4) val) (to_le 4)

unfoldable pub write_int64_le : ℤ → Write
write_int64_le val = extend_packed (signed_word (256 ^ 8) val) (to_le 8)

unfoldable pub write_uint64_le : ℤ → Write
write_uint64_le val = extend_packed (unsigned_word (256 ^ 8) val) (to_le 8)

-- A float is its IEEE 754 bit pattern.
unfoldable pub write_float_le : ℕ → Write
write_float_le val = write_bytes (to_le 4 val)

unfoldable pub write_double_le : ℕ → Write
write_double_le val = write_bytes (to_le 8 val)

-- The loop of `write_uvarint` and `write_uvarint64`; `val >>= 7` is `val / 128`.
unfoldable pub uvarint_loop : ℕ → ℕ → Write
uvarint_loop zero val = raise diverges
uvarint_loop (suc fuel) val =
    let byte = val % 128 in
    let more = uvarint_loop fuel (val / 128) in
    if val / 128 == 0 then write_bytes (byte ∷ []) else write_bytes (bit_or byte 0x80 ∷ []) >> more

-- Both take the short way out below 0x80. The fuel is the number of groups of 7 bits.
unfoldable pub uvarint : ℕ → ℕ → Write
unfolding uvarint_loop
uvarint rounds val = if ltb val 0x80 then write_bytes (val ∷ []) else uvarint_loop rounds val

unfoldable pub write_uvarint : ℤ → Write
write_uvarint val = uvarint 5 (mask val (2 ^ 32))

unfoldable pub write_uvarint64 : ℤ → Write
write_uvarint64 val = uvarint 10 (mask val (2 ^ 64))

-- `val & 0x80000000` is the digit `val / 2 ** 31 % 2` of the masked value. `half` is 2 ** 31 or 2 ** 63.
abbrev pub zigzag : ℕ → ℤ → ℤ
zigzag half val =
    let word = mask val (half * 2) in
    let signed = if word / half % 2 == 0 then pos word else sub_ℕ word (half * 2) in
    xor_ℤ (shl_one signed) (shr signed half)

unfoldable pub write_varint : ℤ → Write
write_varint val = write_uvarint (zigzag (2 ^ 31) val)

unfoldable pub write_varint64 : ℤ → Write
write_varint64 val = write_uvarint64 (zigzag (2 ^ 63) val)

abbrev pub extend_string : Option (List ℕ) → Write
extend_string none = raise unicode_encode_error
extend_string (some encoded) = write_uvarint (pos (length encoded)) >> write_bytes encoded

unfoldable pub write_string : List ℕ → Write
write_string val = extend_string (encode val)

-- ===== src/Codec/FieldType/Primitives.antt =====
-- The contract of the primitive field types of codec/types/primitives.py.
use endweave.Prelude.{
  ℕ, ◌^◌, ◌<◌, ◌≡◌, refl, Bool, Option, some, List, [], ◌∷◌, reverse, reverse-reverse, length,
  arith, ◌==◌, not, leb, sub_ℕ, ℤ, pos, negsuc, mask, if◌then◌else◌,
}
use endweave.Exec.{pure, ◌>>=◌}
use endweave.Codec.Word.{to_le, of_le, signed_word, of_signed_word}
use endweave.Codec.Word.RoundTrip.{
  length-to_le, of_le-to_le, signed_word-lt, of_signed_word-signed_word,
}
use endweave.Codec.Reader.{
  read_byte, read_signed_byte, read_bool, unpack_from, read_short_le, read_ushort_le, read_int_le,
  read_int_be, read_uint_le, read_int64_le, read_uint64_le, read_float_le, read_double_le,
}
use endweave.Codec.Reader.View.{
  Reads, Reads-map, Reads-read_byte, Reads-unpack_from, Reads-read_bytes,
}
use endweave.Codec.Writer.{
  write_byte, write_bool, extend_packed, write_short_le, write_ushort_le, write_int_le,
  write_signed_byte, write_int_be, write_uint_le, write_int64_le, write_uint64_le, write_float_le,
  write_double_le,
}
use endweave.Codec.Writer.View.{Writes, Writes-write_bytes}
use endweave.Codec.FieldType.{
  byte, int8, bool, short_le, ushort_le, int_le, int_be, uint_le, int64_le, uint64_le, float_le,
  double_le, bytes,
}
use endweave.Codec.FieldType.Codes.{Codes}
use endweave.Codec.Zigzag.{IsInt}

pub Codes-byte : (b : ℕ) → b < 256 → Codes byte (pos b) (b ∷ [])
unfolding write_byte
Codes-byte b h = record {
  reads = Reads-map read_byte pos (Reads-read_byte b) refl;
  writes = rw same (Writes-write_bytes (b ∷ []));
}
  where
    same : mask (pos b) 256 ≡ b
    same = omega arith

abbrev of_signed_byte : ℕ → ℤ
of_signed_byte val = if leb 128 val then sub_ℕ val 256 else pos val

signed : (v : ℤ) → IsInt (2 ^ 7) v → of_signed_byte (mask v 256) ≡ v
signed (pos n) h = ground arith
signed (negsuc n) h = ground arith

pub Codes-int8 : (v : ℤ) → IsInt (2 ^ 7) v → Codes int8 v (mask v 256 ∷ [])
unfolding read_signed_byte write_signed_byte
Codes-int8 v h = record {
  reads = Reads-map read_byte of_signed_byte (Reads-read_byte (mask v 256)) (signed v h);
  writes = Writes-write_bytes (mask v 256 ∷ []);
}

pub Codes-bool : (b : Bool) → Codes bool b ((if b then 1 else 0) ∷ [])
unfolding write_bool read_bool
Codes-bool b = record {
  reads =
      Reads-map read_byte (λ n. not (n == 0)) (Reads-read_byte (if b then 1 else 0)) (ground arith);
  writes = Writes-write_bytes _;
}

-- The formats of `struct`: a bit pattern of `n` bytes that stands for `v`.
Reads-packed :
    {A : Type 0} (n : ℕ) (f : List ℕ → A) {v : A} (bs : List ℕ)
    → length bs ≡ n
    → f bs ≡ v
    → Reads (unpack_from n >>= λ cs. pure (f cs)) bs v
Reads-packed n f bs e value = Reads-map (unpack_from n) f (Reads-unpack_from n bs e) value

Writes-packed :
    (o : Option ℕ) (f : ℕ → List ℕ) (w : ℕ) → o ≡ some w → Writes (extend_packed o f) (f w)
Writes-packed o f w e = rw e (Writes-write_bytes (f w))

Reads-signed :
    (n : ℕ) (v : ℤ) (w : ℕ)
    → signed_word (256 ^ n) v ≡ some w
    → Reads (unpack_from n >>= λ cs. pure (of_signed_word (256 ^ n) (of_le cs))) (to_le n w) v
Reads-signed n v w h =
    Reads-packed n (λ cs. of_signed_word (256 ^ n) (of_le cs)) (to_le n w) (length-to_le n w)
      (rw (of_le-to_le n w (signed_word-lt _ v w h)) (of_signed_word-signed_word _ v w h))

Reads-unsigned :
    (n w : ℕ) → w < 256 ^ n → Reads (unpack_from n >>= λ cs. pure (of_le cs)) (to_le n w) w
Reads-unsigned n w h = Reads-packed n of_le (to_le n w) (length-to_le n w) (of_le-to_le n w h)

pub Codes-short_le :
    (v : ℤ) (w : ℕ) → signed_word (256 ^ 2) v ≡ some w → Codes short_le v (to_le 2 w)
unfolding write_short_le read_short_le
Codes-short_le v w h = record {
  reads = Reads-signed 2 v w h;
  writes = Writes-packed _ (to_le 2) w h;
}

pub Codes-int_le : (v : ℤ) (w : ℕ) → signed_word (256 ^ 4) v ≡ some w → Codes int_le v (to_le 4 w)
unfolding write_int_le read_int_le
Codes-int_le v w h = record { reads = Reads-signed 4 v w h; writes = Writes-packed _ (to_le 4) w h }

pub Codes-int64_le :
    (v : ℤ) (w : ℕ) → signed_word (256 ^ 8) v ≡ some w → Codes int64_le v (to_le 8 w)
unfolding write_int64_le read_int64_le
Codes-int64_le v w h = record {
  reads = Reads-signed 8 v w h;
  writes = Writes-packed _ (to_le 8) w h;
}

pub Codes-int_be :
    (v : ℤ) (w : ℕ) → signed_word (256 ^ 4) v ≡ some w → Codes int_be v (reverse (to_le 4 w))
unfolding write_int_be read_int_be
Codes-int_be v w h = record {
  reads =
      Reads-packed 4 (λ cs. of_signed_word (256 ^ 4) (of_le (reverse cs))) (reverse (to_le 4 w))
        (unfold to_le in refl)
        (rw (reverse-reverse (to_le 4 w), of_le-to_le 4 w (signed_word-lt _ v w h))
          (of_signed_word-signed_word _ v w h));
  writes = Writes-packed _ (λ word. reverse (to_le 4 word)) w h;
}

pub Codes-ushort_le : (v : ℕ) → v < 2 ^ 16 → Codes ushort_le (pos v) (to_le 2 v)
unfolding write_ushort_le read_ushort_le
Codes-ushort_le v h = record {
  reads = Reads-map read_ushort_le pos (Reads-unsigned 2 v h) refl;
  writes = Writes-packed _ (to_le 2) v (ground arith);
}

pub Codes-uint_le : (v : ℕ) → v < 2 ^ 32 → Codes uint_le (pos v) (to_le 4 v)
unfolding write_uint_le read_uint_le
Codes-uint_le v h = record {
  reads = Reads-map read_uint_le pos (Reads-unsigned 4 v h) refl;
  writes = Writes-packed _ (to_le 4) v (ground arith);
}

pub Reads-read_uint64_le : (v : ℕ) → v < 2 ^ 64 → Reads read_uint64_le (to_le 8 v) v
unfolding read_uint64_le
Reads-read_uint64_le v h = Reads-unsigned 8 v h

pub Codes-uint64_le : (v : ℕ) → v < 2 ^ 64 → Codes uint64_le (pos v) (to_le 8 v)
unfolding write_uint64_le read_uint64_le
Codes-uint64_le v h = record {
  reads = Reads-map read_uint64_le pos (Reads-unsigned 8 v h) refl;
  writes = Writes-packed _ (to_le 8) v (ground arith);
}

pub Codes-float_le : (v : ℕ) → v < 2 ^ 32 → Codes float_le v (to_le 4 v)
unfolding write_float_le read_float_le
Codes-float_le v h = record {
  reads = Reads-unsigned 4 v h;
  writes = Writes-write_bytes (to_le 4 v);
}

pub Codes-double_le : (v : ℕ) → v < 2 ^ 64 → Codes double_le v (to_le 8 v)
unfolding write_double_le read_double_le
Codes-double_le v h = record {
  reads = Reads-unsigned 8 v h;
  writes = Writes-write_bytes (to_le 8 v);
}

pub Codes-bytes : (n : ℕ) (bs : List ℕ) → length bs ≡ n → Codes (bytes (pos n)) bs bs
Codes-bytes n bs e = record { reads = Reads-read_bytes n bs e; writes = Writes-write_bytes bs }

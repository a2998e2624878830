-- ===== src/Codec/FieldType/Compound.antt =====
-- The contract of the types of codec/types/primitives.py that are made of others.
use endweave.Prelude.{
  ℕ, ◌^◌, ◌<◌, ◌≡◌, refl, true, false, some, none, List, [], ◌∷◌, ◌++◌, length, arith, ℤ, pos,
  negsuc, mask,
}
use endweave.Codec.Leb128.{groups}
use endweave.Codec.Word.{to_le}
use endweave.Codec.Zigzag.{place, IsInt}
use endweave.Codec.Reader.{read_varint, read_uvarint, read_float_le, read_uint64_le, read_bool}
use endweave.Codec.Reader.View.{Reads-pure, Reads-bind, Reads-map}
use endweave.Codec.Reader.Varint.{Reads-read_uvarint}
use endweave.Codec.Writer.{write_varint, write_uvarint, write_float_le, write_uint64_le, write_bool}
use endweave.Codec.Writer.View.{Writes-then}
use endweave.Codec.Writer.Varint.{Writes-write_uvarint}
use endweave.Codec.FieldType.{
  FieldType, signed_y, network_block_pos, block_pos, vec3, vec2, uuid, array_type, optional_type,
}
use endweave.Codec.FieldType.Codes.{Codes, CodesAll, Reads-repeat, Writes-for_each}
use endweave.Codec.FieldType.Primitives.{
  Reads-read_uint64_le, Codes-uint64_le, Codes-float_le, Codes-bool,
}
use endweave.Codec.FieldType.Variable.{Codes-var_int, Codes-uvar_int}

pub Codes-block_pos :
    (x y z : ℤ)
    → IsInt (2 ^ 31) x
    → IsInt (2 ^ 31) y
    → IsInt (2 ^ 31) z
    → Codes block_pos (x, y, z) (groups 4 (place x) ++ (groups 4 (place y) ++ groups 4 (place z)))
unfolding block_pos
Codes-block_pos x y z hx hy hz =
    let cx = Codes-var_int x hx in
    let cy = Codes-var_int y hy in
    let cz = Codes-var_int z hz in
    record {
      reads = Reads-bind read_varint _ cx.reads (
          Reads-bind read_varint _ cy.reads (Reads-map read_varint (λ z. (x, y, z)) cz.reads refl));
      writes =
          Writes-then (write_varint x) _ cx.writes
            (Writes-then (write_varint y) (write_varint z) cy.writes cz.writes);
    }

-- A position whose three coordinates have 32 bits with their sign: the height is written as the
-- unsigned number of its bits, and the position is read back as it was.
pub Codes-network_block_pos :
    (x y z : ℤ)
    → IsInt (2 ^ 31) x
    → IsInt (2 ^ 31) y
    → IsInt (2 ^ 31) z
    → Codes network_block_pos
        (x, y, z)
        (groups 4 (place x) ++ (groups 4 (mask y (2 ^ 32)) ++ groups 4 (place z)))
unfolding network_block_pos
Codes-network_block_pos x y z hx hy hz =
    let cx = Codes-var_int x hx in
    let cz = Codes-var_int z hz in
    record {
      reads = Reads-bind read_varint _ cx.reads (
          Reads-bind read_uvarint _ (Reads-read_uvarint (mask y (2 ^ 32)) (below y)) (
            Reads-map read_varint (λ z. (x, signed_y (mask y (2 ^ 32)), z)) cz.reads
              (rw (signed y hy))));
      writes =
          Writes-then (write_varint x) _ cx.writes
            (Writes-then (write_uvarint y) (write_varint z) (Writes-write_uvarint y) cz.writes);
    }
  where
    below : (v : ℤ) → mask v (2 ^ 32) < 2 ^ 35
    below v = ground arith

    signed : (v : ℤ) → IsInt (2 ^ 31) v → signed_y (mask v (2 ^ 32)) ≡ v
    signed (pos n) h = ground arith
    signed (negsuc n) h = ground arith

pub Codes-vec3 :
    (x y z : ℕ)
    → x < 2 ^ 32
    → y < 2 ^ 32
    → z < 2 ^ 32
    → Codes vec3 (x, y, z) (to_le 4 x ++ (to_le 4 y ++ to_le 4 z))
unfolding vec3
Codes-vec3 x y z hx hy hz =
    let cx = Codes-float_le x hx in
    let cy = Codes-float_le y hy in
    let cz = Codes-float_le z hz in
    record {
      reads = Reads-bind read_float_le _ cx.reads (
          Reads-bind read_float_le _ cy.reads
            (Reads-map read_float_le (λ z. (x, y, z)) cz.reads refl));
      writes =
          Writes-then (write_float_le x) _ cx.writes
            (Writes-then (write_float_le y) (write_float_le z) cy.writes cz.writes);
    }

pub Codes-vec2 : (x y : ℕ) → x < 2 ^ 32 → y < 2 ^ 32 → Codes vec2 (x, y) (to_le 4 x ++ to_le 4 y)
unfolding vec2
Codes-vec2 x y hx hy =
    let cx = Codes-float_le x hx in
    let cy = Codes-float_le y hy in
    record {
      reads =
          Reads-bind read_float_le _ cx.reads (Reads-map read_float_le (λ y. (x, y)) cy.reads refl);
      writes = Writes-then (write_float_le x) (write_float_le y) cx.writes cy.writes;
    }

pub Codes-uuid :
    (msb lsb : ℕ)
    → msb < 2 ^ 64
    → lsb < 2 ^ 64
    → Codes uuid (record { msb = pos msb; lsb = pos lsb }) (to_le 8 msb ++ to_le 8 lsb)
unfolding uuid
Codes-uuid msb lsb hm hl =
    let cm = Codes-uint64_le msb hm in
    let cl = Codes-uint64_le lsb hl in
    record {
      reads = Reads-bind read_uint64_le _ (Reads-read_uint64_le msb hm) (
          Reads-map read_uint64_le (λ l. record { msb = pos msb; lsb = pos l })
            (Reads-read_uint64_le lsb hl) refl);
      writes =
          Writes-then (write_uint64_le (pos msb)) (write_uint64_le (pos lsb)) cm.writes cl.writes;
    }

module _ {A : Type 0} (inner : FieldType A) where
  -- A list of fewer than 2 ** 32 values that `inner` codes is written as its length and the bytes of
  -- the values, and read back from these bytes whatever follows them.
  pub Codes-array_type :
      (vs : List A) (bs : List ℕ)
      → CodesAll inner vs bs
      → length vs < 2 ^ 32
      → Codes (array_type inner) vs (groups 4 (length vs) ++ bs)
  unfolding array_type
  Codes-array_type vs bs all h =
      let count = Codes-uvar_int (length vs) h in
      record {
        reads =
            Reads-bind read_uvarint _ (Reads-read_uvarint (length vs) (omega arith))
              (Reads-repeat inner all);
        writes =
            Writes-then (write_uvarint (pos (length vs))) _ count.writes
              (Writes-for_each inner all);
      }

  pub Codes-some :
      (v : A) (bs : List ℕ) → Codes inner v bs → Codes (optional_type inner) (some v) (1 ∷ bs)
  unfolding optional_type
  Codes-some v bs c =
      let flag = Codes-bool true in
      record {
        reads = Reads-bind read_bool _ flag.reads (Reads-map inner.read (λ v. some v) c.reads refl);
        writes = Writes-then (write_bool true) (inner.write v) flag.writes c.writes;
      }

  pub Codes-none : Codes (optional_type inner) none (0 ∷ [])
  unfolding optional_type
  Codes-none =
      let flag = Codes-bool false in
      record { reads = Reads-bind read_bool _ flag.reads (Reads-pure none); writes = flag.writes }

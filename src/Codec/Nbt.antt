-- ===== src/Codec/Nbt.antt =====
-- codec/types/nbt.py: the tags of Bedrock's network NBT, and the two types of a root tag.
pub mod Coded
pub mod Reading
pub mod RoundTrip
pub mod Bounds
use endweave.Prelude.{
  ℕ, zero, suc, ◌+◌, ◌&&◌, Bool, true, false, not, Option, none, some, List, [], ◌∷◌, ◌==◌, length,
  ltb_ℤ, ℤ, pos, pos_part, if◌then◌else◌,
}
use endweave.Exec.{
  pure, raise, value_error, unicode_encode_error, diverges, ◌>>=◌, ◌>>◌, repeat, for_each,
}
use endweave.Codec.Utf8.{encode}
use endweave.Codec.Reader.{
  PacketReader, Read, read_byte, read_short_le, read_varint, read_varint64, read_float_le,
  read_bytes, read_uvarint, decoded,
}
use endweave.Codec.Word.{of_le, to_le}
use endweave.Codec.Writer.{
  Write, write_byte, write_short_le, write_varint, write_varint64, write_float_le, write_bytes,
  write_uvarint, extend_string,
}
use endweave.Codec.FieldType.{FieldType}

-- `_MAX_DEPTH`
abbrev pub max_depth : ℕ
max_depth = 512

-- `Tag` and its subclasses. `Tags` is the list of a `ListTag`, and `Entries` the dict of a
-- `CompoundTag`, in insertion order; a name is the list of its code points.
mutual
  pub data Tag : Type 0 where
    byte_tag short_tag int_tag long_tag : ℤ → Tag
    float_tag double_tag : ℕ → Tag
    byte_array_tag string_tag : List ℕ → Tag
    list_tag : ℕ → Tags → Tag
    compound_tag : Entries → Tag
    int_array_tag long_array_tag : List ℤ → Tag

  pub data Tags : Type 0 where
    no_tags : Tags
    tag_then : Tag → Tags → Tags

  pub data Entries : Type 0 where
    no_entries : Entries
    entry_then : List ℕ → Tag → Entries → Entries

-- `tag_id`
abbrev pub tag_id : Tag → ℕ
tag_id (byte_tag v) = 1
tag_id (short_tag v) = 2
tag_id (int_tag v) = 3
tag_id (long_tag v) = 4
tag_id (float_tag v) = 5
tag_id (double_tag v) = 6
tag_id (byte_array_tag v) = 7
tag_id (string_tag v) = 8
tag_id (list_tag element_type tags) = 9
tag_id (compound_tag value) = 10
tag_id (int_array_tag v) = 11
tag_id (long_array_tag v) = 12

abbrev pub same_name : List ℕ → List ℕ → Bool
same_name [] [] = true
same_name (c ∷ cs) (d ∷ ds) = c == d && same_name cs ds
same_name _ _ = false

-- `entries[name] = tag`
abbrev pub set_entry : List ℕ → Tag → Entries → Entries
set_entry name tag no_entries = entry_then name tag no_entries
set_entry name tag (entry_then name' tag' entries) =
    let rest = set_entry name tag entries in
    if same_name name name' then entry_then name' tag entries else entry_then name' tag' rest

abbrev pub tags_of : List Tag → Tags
tags_of [] = no_tags
tags_of (tag ∷ tags) = tag_then tag (tags_of tags)

unfoldable pub read_nbt_string : Read (List ℕ)
read_nbt_string = do length' ← read_uvarint; bs ← read_bytes (pos length'); decoded bs

-- A child's reader, by its type.
abbrev pub Child : Type 0
Child = ℕ → Read Tag

-- The `while True` loop of a compound.
unfoldable pub entries_loop : Child → ℕ → Entries → Read Entries
entries_loop child zero found = raise diverges
entries_loop child (suc fuel) found = do
  child_type ← read_byte
  let again = entries_loop child fuel
  if child_type == 0
      then pure found
      else do name ← read_nbt_string; tag ← child child_type; again (set_entry name tag found)

-- Each round takes a byte, so there are at most as many rounds as bytes, and one.
unfoldable pub read_entries : Child → Read Entries
read_entries child r = entries_loop child (suc (length r.bytes)) no_entries r

abbrev pub as_tag : {A : Type 0} → Read A → (A → Tag) → Read Tag
as_tag m f = m >>= λ v. pure (f v)

-- `range(count)` of a negative count is empty.
unfoldable pub read_list : Child → Read Tag
read_list child = do
  elem_type ← read_byte
  count ← read_varint
  if not (elem_type == 0) && ltb_ℤ (pos 0) count
      then as_tag (repeat (pos_part count) (child elem_type))
          (λ tags. list_tag elem_type (tags_of tags))
      else pure (list_tag elem_type no_tags)

unfoldable pub read_array : Read ℤ → Read (List ℤ)
read_array element = do count ← read_varint; repeat (pos_part count) element

-- `struct.unpack("<d", reader.read_bytes(8))[0]`
abbrev pub read_double : Read ℕ
read_double = read_bytes (pos 8) >>= λ bs. pure (of_le bs)

abbrev pub read_byte_array : Read (List ℕ)
read_byte_array = read_varint >>= read_bytes

-- `levels` is how many levels the depth is still below the limit, `max_depth + 1 - depth`.
unfoldable pub read_value : ℕ → ℕ → Read Tag
read_value zero tag_type = raise value_error
read_value (suc levels) tag_type =
    let child = read_value levels in
    if tag_type == 1
    then as_tag read_byte (λ n. byte_tag (pos n))
    else if tag_type == 2
    then as_tag read_short_le (λ v. short_tag v)
    else if tag_type == 3
    then as_tag read_varint (λ v. int_tag v)
    else if tag_type == 4
    then as_tag read_varint64 (λ v. long_tag v)
    else if tag_type == 5
    then as_tag read_float_le (λ v. float_tag v)
    else if tag_type == 6
    then as_tag read_double (λ v. double_tag v)
    else if tag_type == 7
    then as_tag read_byte_array (λ v. byte_array_tag v)
    else if tag_type == 8
    then as_tag read_nbt_string (λ v. string_tag v)
    else if tag_type == 9
    then read_list child
    else if tag_type == 10
    then as_tag (read_entries child) (λ v. compound_tag v)
    else if tag_type == 11
    then as_tag (read_array read_varint) (λ v. int_array_tag v)
    else if tag_type == 12
    then as_tag (read_array read_varint64) (λ v. long_array_tag v)
    else raise value_error

-- A root compound; its children are at depth 1. `read_name` says whether a name stands before them.
unfoldable pub read_nbt : Bool → Read (Option Entries)
read_nbt read_name = do
  root_type ← read_byte
  if root_type == 0 then pure none else if not (root_type == 10) then raise value_error else do
    if read_name then read_nbt_string >>= (λ name. pure tt) else pure tt
    entries ← read_entries (read_value max_depth)
    pure (some entries)

abbrev pub write_nbt_string : List ℕ → Write
write_nbt_string value = extend_string (encode value)

abbrev pub length_tags : Tags → ℕ
length_tags no_tags = 0
length_tags (tag_then tag tags) = suc (length_tags tags)

abbrev pub write_array : (ℤ → Write) → List ℤ → Write
write_array element v = write_varint (pos (length v)) >> for_each v element

unfoldable mutual
  pub write_value : Tag → Write
  write_value (byte_tag v) = write_byte v
  write_value (short_tag v) = write_short_le v
  write_value (int_tag v) = write_varint v
  write_value (long_tag v) = write_varint64 v
  write_value (float_tag v) = write_float_le v
  write_value (double_tag v) = write_bytes (to_le 8 v)
  write_value (byte_array_tag v) = write_varint (pos (length v)) >> write_bytes v
  write_value (string_tag v) = write_nbt_string v
  write_value (list_tag element_type tags) =
      write_byte (pos element_type) >> (write_varint (pos (length_tags tags)) >> write_tags tags)
  write_value (compound_tag value) = write_entries value
  write_value (int_array_tag v) = write_array write_varint v
  write_value (long_array_tag v) = write_array write_varint64 v

  pub write_tags : Tags → Write
  write_tags no_tags = pure tt
  write_tags (tag_then tag tags) = write_value tag >> write_tags tags

  -- The entries of a compound, and the `TAG_END` behind them.
  pub write_entries : Entries → Write
  write_entries no_entries = write_byte (pos 0)
  write_entries (entry_then name tag entries) =
      write_byte (pos (tag_id tag))
      >> (write_nbt_string name >> (write_value tag >> write_entries entries))

abbrev pub write_root_name : Option (List ℕ) → Write
write_root_name none = pure tt
write_root_name (some name) = write_nbt_string name

unfoldable pub write_nbt : Option (List ℕ) → Option Entries → Write
write_nbt name none = write_byte (pos 0)
write_nbt name (some value) =
    write_byte (pos 10) >> (write_root_name name >> write_value (compound_tag value))

-- `NAMED_COMPOUND_TAG` and `COMPOUND_TAG`
abbrev pub named_compound_tag : FieldType (Option Entries)
named_compound_tag = record { read = read_nbt true; write = write_nbt (some []) }

abbrev pub compound_tag_type : FieldType (Option Entries)
compound_tag_type = record { read = read_nbt false; write = write_nbt none }

-- ===== src/Codec/Nbt/RoundTrip.antt =====
-- codec/types/nbt.py: writing a tag, and the two formats of a root tag.
use endweave.Codec.Nbt.Reading.{
  tag_id-lt, Codes-count, Reads-nbt_string, Writes-nbt_string, Writes-array, size-le, Reads-entries,
  Reads-loop,
}
use endweave.Prelude.{ℕ, refl, none, some, List, [], ◌∷◌, length, arith, pos}
use endweave.Exec.{pure, ◌>>=◌}
use endweave.Codec.Word.{to_le}
use endweave.Codec.Utf8.{encode}
use endweave.Codec.Leb128.{groups}
use endweave.Codec.FieldType.{var_int, var_int64}
use endweave.Codec.FieldType.Codes.{Codes}
use endweave.Codec.FieldType.Primitives.{Codes-byte, Codes-short_le, Codes-float_le}
use endweave.Codec.FieldType.Variable.{Codes-var_int, Codes-var_int64}
use endweave.Codec.Reader.{read_byte}
use endweave.Codec.Reader.View.{Reads, Reads-pure, Reads-bind, Reads-map, Reads-read_byte}
use endweave.Codec.Writer.{write_byte, write_varint}
use endweave.Codec.Writer.View.{Writes, Writes-pure, Writes-then, Writes-write_bytes}
use endweave.Codec.Nbt.{
  Tag, Tags, Entries, no_entries, tag_id, length_tags, read_entries, read_nbt_string, read_value,
  write_value, write_tags, write_entries, write_nbt_string, max_depth, named_compound_tag,
  compound_tag_type, read_nbt, write_nbt,
}
use endweave.Codec.Nbt.Coded.{
  CodedName, IsDict, Coded, CodedTags, CodedEntries, no_more, one_more, ended, one_entry,
  coded_byte, coded_short, coded_int, coded_long, coded_float, coded_double, coded_byte_array,
  coded_string, coded_list, coded_compound, coded_int_array, coded_long_array,
}

mutual
  unfolding write_value

  Writes-value : {l : ℕ} {tag : Tag} {bs : List ℕ} → Coded l tag bs → Writes (write_value tag) bs
  Writes-value (coded_byte b h) = (Codes-byte b h).writes
  Writes-value (coded_short v w h) = (Codes-short_le v w h).writes
  Writes-value (coded_int v h) = (Codes-var_int v h).writes
  Writes-value (coded_long v h) = (Codes-var_int64 v h).writes
  Writes-value (coded_float v h) = (Codes-float_le v h).writes
  Writes-value (coded_double v h) = Writes-write_bytes (to_le 8 v)
  Writes-value (coded_byte_array v h) =
      Writes-then (write_varint (pos (length v))) _ (Codes-count (length v) h).writes
        (Writes-write_bytes v)
  Writes-value (coded_string v bs n) = Writes-nbt_string n
  Writes-value (coded_list {l} {element_type} {tags} small few all) =
      Writes-then (write_byte (pos element_type)) _ (Codes-byte element_type small).writes (
        Writes-then (write_varint (pos (length_tags tags))) _
          (Codes-count (length_tags tags) few).writes (Writes-tags all))
  Writes-value (coded_compound dict es) = Writes-entries es
  Writes-value (coded_int_array few all) = Writes-array var_int few all
  Writes-value (coded_long_array few all) = Writes-array var_int64 few all

  Writes-tags :
      {l t : ℕ} {tags : Tags} {bs : List ℕ} → CodedTags l t tags bs → Writes (write_tags tags) bs
  Writes-tags no_more = Writes-pure
  Writes-tags (one_more {l} {tag} {tags} c more) =
      Writes-then (write_value tag) (write_tags tags) (Writes-value c) (Writes-tags more)

  Writes-entries :
      {l : ℕ} {es : Entries} {bs : List ℕ} → CodedEntries l es bs → Writes (write_entries es) bs
  Writes-entries ended = (Codes-byte 0 (omega arith)).writes
  Writes-entries (one_entry {l} {name} {ns} {tag} {entries} n c more) =
      Writes-then (write_byte (pos (tag_id tag))) _ (Codes-byte (tag_id tag) (tag_id-lt tag)).writes
        (Writes-then (write_nbt_string name) _ (Writes-nbt_string n) (
          Writes-then (write_value tag) (write_entries entries) (Writes-value c)
            (Writes-entries more)))

empty_name : CodedName [] (0 ∷ [])
unfolding encode groups
empty_name = record { encoded = []; is_encoding = refl; is_short = omega arith; layout = refl }

module _ {entries : Entries} {bs : List ℕ} (dict : IsDict entries)
    (coded : CodedEntries max_depth entries bs) where
  Reads-root : Reads (read_entries (read_value max_depth)) bs entries
  Reads-root = rw dict at (
      Reads-entries (read_value max_depth) entries bs
        (λ fuel lt. Reads-loop coded fuel no_entries lt) (size-le coded))

  -- The entries of a dict, whose tags are in range and nested in at most 512 levels, are written as a
  -- compound with an empty root name, and read back from these bytes whatever follows them.
  pub Codes-named_compound_tag : Codes named_compound_tag (some entries) (10 ∷ 0 ∷ bs)
  unfolding read_nbt write_nbt write_value
  Codes-named_compound_tag = record {
    reads = Reads-bind read_byte _ (Reads-read_byte 10) (
        Reads-bind (read_nbt_string >>= λ name. pure tt) _
          (Reads-map read_nbt_string (λ name. tt) (Reads-nbt_string empty_name) refl)
          (Reads-map _ (λ es. some es) Reads-root refl));
    writes =
        Writes-then (write_byte (pos 10)) _ (Codes-byte 10 (omega arith)).writes (
          Writes-then (write_nbt_string []) _ (Writes-nbt_string empty_name)
            (Writes-entries coded));
  }

  pub Codes-compound_tag : Codes compound_tag_type (some entries) (10 ∷ bs)
  unfolding read_nbt write_nbt write_value
  Codes-compound_tag = record {
    reads =
        Reads-bind read_byte _ (Reads-read_byte 10) (Reads-map _ (λ es. some es) Reads-root refl);
    writes =
        Writes-then (write_byte (pos 10)) _ (Codes-byte 10 (omega arith)).writes
          (Writes-then (pure tt) _ Writes-pure (Writes-entries coded));
  }

-- An absent root is one byte.
pub Codes-absent : Codes named_compound_tag none (0 ∷ []) × Codes compound_tag_type none (0 ∷ [])
unfolding read_nbt write_nbt
Codes-absent = (
  record {
    reads = Reads-bind read_byte _ (Reads-read_byte 0) (Reads-pure none);
    writes = (Codes-byte 0 (omega arith)).writes;
  },
  record {
    reads = Reads-bind read_byte _ (Reads-read_byte 0) (Reads-pure none);
    writes = (Codes-byte 0 (omega arith)).writes;
  },
)

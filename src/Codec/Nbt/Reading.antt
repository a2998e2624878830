-- ===== src/Codec/Nbt/Reading.antt =====
-- codec/types/nbt.py: reading a tag from its bytes.
use endweave.Prelude.{
  ℕ, zero, suc, ◌^◌, ◌<◌, ◌≤◌, ◌≡◌, refl, ap, Bool, true, false, List, [], ◌∷◌, ◌++◌, append-nil,
  length, arith, ℤ, pos, length-append, ◌==◌, not, ◌&&◌, ltb_ℤ,
}
use endweave.Exec.{repeat}
use endweave.Codec.Word.{of_le, to_le}
use endweave.Codec.Word.RoundTrip.{length-to_le, of_le-to_le}
use endweave.Codec.FieldType.{FieldType, var_int, var_int64}
use endweave.Codec.FieldType.Codes.{Codes, CodesAll, Reads-repeat, Writes-for_each}
use endweave.Codec.FieldType.Primitives.{Codes-short_le, Codes-float_le}
use endweave.Codec.FieldType.Variable.{
  Codes-var_int, Codes-var_int64, Codes-uvar_int, Reads-decoded,
}
use endweave.Codec.Reader.{read_byte, read_varint, read_uvarint, read_bytes, decoded}
use endweave.Codec.Reader.View.{
  Holds-length, Reads, Reads-pure, Reads-bind, Reads-map, Reads-read_byte, Reads-read_bytes,
}
use endweave.Codec.Reader.Varint.{Reads-read_uvarint}
use endweave.Codec.Writer.{write_bytes, write_varint, write_uvarint}
use endweave.Codec.Writer.View.{Writes, Writes-then, Writes-write_bytes}
use endweave.Codec.Nbt.{
  Tag, Tags, no_tags, tag_then, Entries, no_entries, entry_then, list_tag, byte_tag, short_tag,
  int_tag, long_tag, float_tag, double_tag, byte_array_tag, string_tag, compound_tag, int_array_tag,
  long_array_tag, read_double, tag_id, tags_of, length_tags, set_entry, Child, entries_loop,
  read_entries, read_list, read_array, read_nbt_string, read_value, write_nbt_string, write_array,
}
use endweave.Codec.Nbt.Coded.{
  count_bytes, CodedName, set_all, Coded, CodedTags, CodedEntries, no_more, one_more, ended,
  one_entry, coded_byte, coded_short, coded_int, coded_long, coded_float, coded_double,
  coded_byte_array, coded_string, coded_list, coded_compound, coded_int_array, coded_long_array,
}

pub Reads-nbt_string : {name bs : List ℕ} → CodedName name bs → Reads read_nbt_string bs name
unfolding read_nbt_string
Reads-nbt_string {name} {bs} c = rw c.layout (
    Reads-bind read_uvarint _ (Reads-read_uvarint (length c.encoded) (omega (arith, c.is_short))) (
      rw append-nil at (
        Reads-bind (read_bytes (pos (length c.encoded))) decoded (Reads-read_bytes _ c.encoded refl)
          (Reads-decoded name c.encoded c.is_encoding))))

pub Writes-nbt_string : {name bs : List ℕ} → CodedName name bs → Writes (write_nbt_string name) bs
Writes-nbt_string {name} {bs} c =
    rw (c.layout, c.is_encoding)
      (Writes-then (write_uvarint (pos (length c.encoded))) (write_bytes c.encoded)
        (Codes-uvar_int (length c.encoded) c.is_short).writes (Writes-write_bytes c.encoded))

pub Codes-count : (n : ℕ) → n < 2 ^ 31 → Codes var_int (pos n) (count_bytes n)
Codes-count n h = Codes-var_int (pos n) h

module _ (T : FieldType ℤ) {vs : List ℤ} {bs : List ℕ} (small : length vs < 2 ^ 31)
    (all : CodesAll T vs bs) where
  Reads-array : Reads (read_array T.read) (count_bytes (length vs) ++ bs) vs
  unfolding read_array
  Reads-array = Reads-bind read_varint _ (Codes-count (length vs) small).reads (Reads-repeat T all)

  pub Writes-array : Writes (write_array T.write vs) (count_bytes (length vs) ++ bs)
  Writes-array =
      Writes-then (write_varint (pos (length vs))) _ (Codes-count (length vs) small).writes
        (Writes-for_each T all)

abbrev list_of : Tags → List Tag
list_of no_tags = []
list_of (tag_then tag tags) = tag ∷ list_of tags

tags_of-list_of : (tags : Tags) → tags_of (list_of tags) ≡ tags
tags_of-list_of no_tags = refl
tags_of-list_of (tag_then tag tags) = ap (tag_then tag) (tags_of-list_of tags)

abbrev pub size : Entries → ℕ
size no_entries = 0
size (entry_then name tag more) = suc (size more)

pub size-le :
    {l : ℕ} {es : Entries} {bs : List ℕ} → CodedEntries l es bs → suc (size es) ≤ length bs
size-le ended = omega arith
size-le (one_entry {ns = ns} {bs = bs} {cs = cs} n c more) =
    omega (arith, size-le more, length-append ns (bs ++ cs), length-append bs cs)

-- A nonempty list has elements of a type that is not `TAG_END`.
tag_id-positive : (tag : Tag) → (tag_id tag == 0) ≡ false
tag_id-positive tag = ground arith

Reads-double : (v : ℕ) → v < 2 ^ 64 → Reads read_double (to_le 8 v) v
Reads-double v h =
    Reads-map (read_bytes (pos 8)) of_le (Reads-read_bytes 8 (to_le 8 v) (length-to_le 8 v))
      (of_le-to_le 8 v h)

pub tag_id-lt : (tag : Tag) → tag_id tag < 256
tag_id-lt tag = ground arith

module _ (child : Child) where
  pub Reads-entries :
      (es : Entries) (bs : List ℕ)
      → ((fuel : ℕ)
          → size es < fuel
          → Reads (entries_loop child fuel no_entries) bs (set_all no_entries es))
      → suc (size es) ≤ length bs
      → Reads (read_entries child) bs (set_all no_entries es)
  unfolding read_entries
  Reads-entries es bs loop le = record {
    at = λ r rest h.
        (loop (suc (length r.bytes)) (omega (arith, le, Holds-length r bs rest h))).at r rest h;
  }

  Reads-ended : (fuel : ℕ) (acc : Entries) → Reads (entries_loop child (suc fuel) acc) (0 ∷ []) acc
  unfolding entries_loop
  Reads-ended fuel acc = Reads-bind read_byte _ (Reads-read_byte 0) (Reads-pure acc)

  Reads-entry :
      (fuel : ℕ) (acc : Entries) (tag : Tag) {name ns bs cs : List ℕ} {result : Entries}
      → CodedName name ns
      → Reads (child (tag_id tag)) bs tag
      → Reads (entries_loop child fuel (set_entry name tag acc)) cs result
      → Reads (entries_loop child (suc fuel) acc) ((tag_id tag ∷ []) ++ (ns ++ (bs ++ cs))) result
  unfolding entries_loop
  Reads-entry fuel acc tag n one more = Reads-bind read_byte _ (Reads-read_byte (tag_id tag)) (
      rw (tag_id-positive tag) (
        Reads-bind read_nbt_string _ (Reads-nbt_string n)
          (Reads-bind (child (tag_id tag)) _ one more)))

  Reads-no_tags :
      (element_type : ℕ)
      → Reads
          (read_list child)
          ((element_type ∷ []) ++ (count_bytes 0 ++ []))
          (list_tag element_type no_tags)
  unfolding read_list
  Reads-no_tags element_type = Reads-bind read_byte _ (Reads-read_byte element_type) (
      Reads-bind read_varint _ (Codes-count 0 (omega arith)).reads
        (rw (untyped (not (element_type == 0))) (Reads-pure (list_tag element_type no_tags))))
    where
      untyped : (b : Bool) → (b && false) ≡ false
      untyped true = refl
      untyped false = refl

  Reads-tags_then :
      (tag : Tag) (tags : Tags) (bs : List ℕ)
      → length_tags (tag_then tag tags) < 2 ^ 31
      → Reads
          (repeat (length_tags (tag_then tag tags)) (child (tag_id tag)))
          bs
          (list_of (tag_then tag tags))
      → Reads
          (read_list child)
          ((tag_id tag ∷ []) ++ (count_bytes (length_tags (tag_then tag tags)) ++ bs))
          (list_tag (tag_id tag) (tag_then tag tags))
  unfolding read_list
  Reads-tags_then tag tags bs small all = Reads-bind read_byte _ (Reads-read_byte (tag_id tag)) (
      Reads-bind read_varint _ (Codes-count (suc (length_tags tags)) small).reads (
        rw (tag_id-positive tag, counted (length_tags tags))
          (Reads-map _ (λ ts. list_tag (tag_id tag) (tags_of ts)) all
            (ap (λ ts. list_tag (tag_id tag) ts) (tags_of-list_of (tag_then tag tags))))))
    where
      counted : (n : ℕ) → ltb_ℤ (pos 0) (pos (suc n)) ≡ true
      counted n = ground arith

mutual
  unfolding read_value repeat

  Reads-value :
      {l : ℕ} {tag : Tag} {bs : List ℕ} → Coded l tag bs → Reads (read_value l (tag_id tag)) bs tag
  Reads-value (coded_byte b h) =
      Reads-map read_byte (λ n. byte_tag (pos n)) (Reads-read_byte b) refl
  Reads-value (coded_short v w h) = Reads-map _ (λ v. short_tag v) (Codes-short_le v w h).reads refl
  Reads-value (coded_int v h) = Reads-map _ (λ v. int_tag v) (Codes-var_int v h).reads refl
  Reads-value (coded_long v h) = Reads-map _ (λ v. long_tag v) (Codes-var_int64 v h).reads refl
  Reads-value (coded_float v h) = Reads-map _ (λ v. float_tag v) (Codes-float_le v h).reads refl
  Reads-value (coded_double v h) = Reads-map _ (λ v. double_tag v) (Reads-double v h) refl
  Reads-value (coded_byte_array v h) =
      Reads-map _ (λ v. byte_array_tag v)
        (Reads-bind read_varint _ (Codes-count (length v) h).reads
          (Reads-read_bytes (length v) v refl))
        refl
  Reads-value (coded_string v bs n) = Reads-map _ (λ v. string_tag v) (Reads-nbt_string n) refl
  Reads-value (coded_list {l} {element_type} small few no_more) =
      Reads-no_tags (read_value l) element_type
  Reads-value (coded_list {l} small few (one_more {tag = tag} {tags = tags} c more)) =
      Reads-tags_then (read_value l) tag tags _ few (Reads-tags (one_more c more))
  Reads-value (coded_compound {l} {entries} {bs} dict es) =
      Reads-map (read_entries (read_value l)) (λ v. compound_tag v)
        (Reads-entries (read_value l) entries bs (λ fuel lt. Reads-loop es fuel no_entries lt)
          (size-le es))
        (ap compound_tag dict)
  Reads-value (coded_int_array few all) =
      Reads-map _ (λ v. int_array_tag v) (Reads-array var_int few all) refl
  Reads-value (coded_long_array few all) =
      Reads-map _ (λ v. long_array_tag v) (Reads-array var_int64 few all) refl

  Reads-tags :
      {l t : ℕ} {tags : Tags} {bs : List ℕ}
      → CodedTags l t tags bs
      → Reads (repeat (length_tags tags) (read_value l t)) bs (list_of tags)
  Reads-tags no_more = Reads-pure []
  Reads-tags (one_more {l} {tag} {tags} c more) =
      Reads-bind (read_value l (tag_id tag)) _ (Reads-value c) (
        Reads-map (repeat (length_tags tags) (read_value l (tag_id tag))) (λ ts. tag ∷ ts)
          (Reads-tags more) refl)

  pub Reads-loop :
      {l : ℕ} {es : Entries} {bs : List ℕ}
      → CodedEntries l es bs
      → (fuel : ℕ) (acc : Entries) → size es < fuel
      → Reads (entries_loop (read_value l) fuel acc) bs (set_all acc es)
  Reads-loop ended zero acc lt = absurd (omega arith)
  Reads-loop (ended {l}) (suc fuel) acc lt = Reads-ended (read_value l) fuel acc
  Reads-loop (one_entry n c more) zero acc lt = absurd (omega arith)
  Reads-loop (one_entry {l} {name} {tag = tag} n c more) (suc fuel) acc lt =
      Reads-entry (read_value l) fuel acc tag n (Reads-value c)
        (Reads-loop more fuel (set_entry name tag acc) (omega (arith, lt)))

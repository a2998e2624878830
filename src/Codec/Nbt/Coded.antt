-- ===== src/Codec/Nbt/Coded.antt =====
-- codec/types/nbt.py: the tags that the format can carry, with their bytes.
use endweave.Prelude.{ℕ, suc, ◌^◌, ◌<◌, ◌≡◌, some, List, [], ◌∷◌, ◌++◌, length, ℤ, pos}
use endweave.Codec.Utf8.{encode}
use endweave.Codec.Leb128.{groups}
use endweave.Codec.Word.{to_le, signed_word}
use endweave.Codec.Zigzag.{place, IsInt}
use endweave.Codec.FieldType.{var_int, var_int64}
use endweave.Codec.FieldType.Codes.{CodesAll}
use endweave.Codec.Nbt.{
  Tag, byte_tag, short_tag, int_tag, long_tag, float_tag, double_tag, byte_array_tag, string_tag,
  list_tag, compound_tag, int_array_tag, long_array_tag, Tags, no_tags, tag_then, Entries,
  no_entries, entry_then, tag_id, set_entry, length_tags,
}

-- A count in front of values, as a zigzag number.
abbrev pub count_bytes : ℕ → List ℕ
count_bytes n = groups 4 (place (pos n))

-- A name or text, and the bytes of it.
pub record CodedName (name bs : List ℕ) : Type 0 where
  pub encoded : List ℕ
  pub is_encoding : encode name ≡ some encoded
  pub is_short : length encoded < 2 ^ 32
  pub layout : bs ≡ groups 4 (length encoded) ++ encoded

abbrev pub set_all : Entries → Entries → Entries
set_all entries no_entries = entries
set_all entries (entry_then name tag more) = set_all (set_entry name tag entries) more

-- The entries are those of a dict: no name occurs twice.
abbrev pub IsDict : Entries → Type 0
IsDict entries = set_all no_entries entries ≡ entries

mutual
  -- `Coded levels tag bs`: the numbers of `tag` are in range, lists have elements of their type,
  -- `tag` is nested in at most `levels` levels, and `bs` are its bytes.
  pub data Coded : ℕ → Tag → List ℕ → Type 0 where
    coded_byte : {l : ℕ} (b : ℕ) → b < 256 → Coded (suc l) (byte_tag (pos b)) (b ∷ [])
    coded_short :
        {l : ℕ} (v : ℤ) (w : ℕ)
        → signed_word (256 ^ 2) v ≡ some w
        → Coded (suc l) (short_tag v) (to_le 2 w)
    coded_int : {l : ℕ} (v : ℤ) → IsInt (2 ^ 31) v → Coded (suc l) (int_tag v) (groups 4 (place v))
    coded_long :
        {l : ℕ} (v : ℤ) → IsInt (2 ^ 63) v → Coded (suc l) (long_tag v) (groups 9 (place v))
    coded_float : {l : ℕ} (v : ℕ) → v < 2 ^ 32 → Coded (suc l) (float_tag v) (to_le 4 v)
    coded_double : {l : ℕ} (v : ℕ) → v < 2 ^ 64 → Coded (suc l) (double_tag v) (to_le 8 v)
    coded_byte_array :
        {l : ℕ} (v : List ℕ)
        → length v < 2 ^ 31
        → Coded (suc l) (byte_array_tag v) (count_bytes (length v) ++ v)
    coded_string : {l : ℕ} (v bs : List ℕ) → CodedName v bs → Coded (suc l) (string_tag v) bs
    coded_list :
        {l : ℕ} {element_type : ℕ} {tags : Tags} {bs : List ℕ}
        → element_type < 256
        → length_tags tags < 2 ^ 31
        → CodedTags l element_type tags bs
        → Coded
            (suc l)
            (list_tag element_type tags)
            ((element_type ∷ []) ++ (count_bytes (length_tags tags) ++ bs))
    coded_compound :
        {l : ℕ} {entries : Entries} {bs : List ℕ}
        → IsDict entries
        → CodedEntries l entries bs
        → Coded (suc l) (compound_tag entries) bs
    coded_int_array :
        {l : ℕ} {vs : List ℤ} {bs : List ℕ}
        → length vs < 2 ^ 31
        → CodesAll var_int vs bs
        → Coded (suc l) (int_array_tag vs) (count_bytes (length vs) ++ bs)
    coded_long_array :
        {l : ℕ} {vs : List ℤ} {bs : List ℕ}
        → length vs < 2 ^ 31
        → CodesAll var_int64 vs bs
        → Coded (suc l) (long_array_tag vs) (count_bytes (length vs) ++ bs)

  pub data CodedTags : ℕ → ℕ → Tags → List ℕ → Type 0 where
    no_more : {l element_type : ℕ} → CodedTags l element_type no_tags []
    one_more :
        {l : ℕ} {tag : Tag} {tags : Tags} {bs cs : List ℕ}
        → Coded l tag bs
        → CodedTags l (tag_id tag) tags cs
        → CodedTags l (tag_id tag) (tag_then tag tags) (bs ++ cs)

  pub data CodedEntries : ℕ → Entries → List ℕ → Type 0 where
    ended : {l : ℕ} → CodedEntries l no_entries (0 ∷ [])
    one_entry :
        {l : ℕ} {name ns : List ℕ} {tag : Tag} {entries : Entries} {bs cs : List ℕ}
        → CodedName name ns
        → Coded l tag bs
        → CodedEntries l entries cs
        → CodedEntries l (entry_then name tag entries) ((tag_id tag ∷ []) ++ (ns ++ (bs ++ cs)))

-- ===== src/Examples/Fields.antt =====
-- Values of the field types, with their bytes.
use endweave.Prelude.{
  ℕ, ◌^◌, ◌≡◌, refl, true, false, some, List, [], ◌∷◌, ◌++◌, length, pos, negsuc, arith, mask,
}
use endweave.Exec.{ok}
use endweave.Codec.Utf8.{encode}
use endweave.Codec.Word.{to_le}
use endweave.Codec.Leb128.{groups}
use endweave.Codec.Zigzag.{place}
use endweave.Codec.Reader.{PacketReader, read_uvarint, uvarint_loop, uvarint, read_byte}
use endweave.Codec.Writer.{PacketWriter, write_uvarint, write_varint}
use endweave.Codec.Writer.View.{Writes}
use endweave.Codec.Writer.Varint.{Writes-write_uvarint}
use endweave.Codec.FieldType.{string, uvar_int}
use endweave.Codec.FieldType.Codes.{Codes, CodesAll, none_left, one_more}
use endweave.Codec.FieldType.Variable.{Codes-string, Codes-var_int, Codes-uvar_int}
use endweave.Codec.Nbt.{
  byte_tag, list_tag, no_tags, tag_then, Entries, no_entries, entry_then, max_depth,
  named_compound_tag,
}
use endweave.Codec.Nbt.{read_nbt}
use endweave.Codec.Nbt.Bounds.{Safe-read_nbt}
use endweave.Codec.Reader.Bounds.{Safe}
use endweave.Codec.Nbt.Coded
use endweave.Codec.Nbt.Coded.{
  CodedName, CodedEntries, coded_byte, coded_list, no_more, ended, one_entry, IsDict,
}
use endweave.Codec.Nbt.RoundTrip.{Codes-named_compound_tag}
use endweave.Codec.ItemInstance.{ItemInstance, item_instance, item_instance_v975}
use endweave.Codec.ItemInstance.RoundTrip.{Codes-item_instance, stack_bytes, user_data_bytes}
use endweave.Codec.ItemInstance.Cerealized.{Codes-item_instance_v975, variant_bytes}
use endweave.Codec.ActorData.{int_value, actor_data_item}
use endweave.Codec.ActorData.RoundTrip.{Codes-actor_data_item, coded_int}

-- "h", and a snowman.
abbrev text : List ℕ
text = 0x68 ∷ 0x2603 ∷ []

abbrev text_bytes : List ℕ
text_bytes = 0x68 ∷ 0xE2 ∷ 0x98 ∷ 0x83 ∷ []

text_encoded : encode text ≡ some text_bytes
unfolding encode
text_encoded = refl

abbrev five_bytes : PacketReader
five_bytes = record { bytes = 0xFF ∷ 0xFF ∷ 0xFF ∷ 0xFF ∷ 0x0F ∷ []; position = 0 }

largest_read : (read_uvarint five_bytes).0 ≡ ok 0xFFFFFFFF
unfolding read_uvarint uvarint uvarint_loop read_byte
largest_read = refl

minus_one_written : (write_varint (negsuc 0) (record { buf = [] })).1.buf ≡ 1 ∷ []
unfolding write_varint write_uvarint endweave.Codec.Writer.uvarint endweave.Codec.Writer.write_bytes
minus_one_written = refl

Writes-write_uvarint_example :
    Writes (write_uvarint (negsuc 0)) (groups 4 (mask (negsuc 0) (2 ^ 32)))
Writes-write_uvarint_example = Writes-write_uvarint (negsuc 0)

Codes-string_example : Codes string text (groups 4 (length text_bytes) ++ text_bytes)
Codes-string_example = Codes-string text text_bytes text_encoded (omega arith)

two_numbers : CodesAll uvar_int (pos 5 ∷ pos 300 ∷ []) (groups 4 5 ++ (groups 4 300 ++ []))
two_numbers =
    one_more (Codes-uvar_int 5 (omega arith))
      (one_more (Codes-uvar_int 300 (omega arith)) none_left)

-- {"a": [7]}
abbrev entries : Entries
entries = entry_then (0x61 ∷ []) (list_tag 1 (tag_then (byte_tag (pos 7)) no_tags)) no_entries

name_a : CodedName (0x61 ∷ []) (1 ∷ 0x61 ∷ [])
unfolding encode groups
name_a = record { encoded = 0x61 ∷ []; is_encoding = refl; is_short = omega arith; layout = refl }

abbrev entries_bytes : List ℕ
entries_bytes =
    (9 ∷ []) ++ ((1 ∷ 0x61 ∷ []) ++ (((1 ∷ []) ++ (groups 4 2 ++ ((7 ∷ []) ++ []))) ++ (0 ∷ [])))

entries_coded : CodedEntries max_depth entries entries_bytes
entries_coded =
    one_entry name_a
      (coded_list (omega arith) (omega arith) (Coded.one_more (coded_byte 7 (omega arith)) no_more))
      ended

Codes-named_compound_tag_example : Codes named_compound_tag (some entries) (10 ∷ 0 ∷ entries_bytes)
Codes-named_compound_tag_example =
    Codes-named_compound_tag {entries = entries} {bs = entries_bytes} refl entries_coded

Safe-read_nbt_example : Safe (read_nbt true)
Safe-read_nbt_example = Safe-read_nbt true

abbrev sword : ItemInstance
sword = record {
  network_id = pos 308;
  count = pos 1;
  aux_value = pos 12;
  has_net_id = true;
  stack_net_id = negsuc 1;
  net_id_variant = pos 0;
  block_runtime_id = pos 0;
  user_data = 1 ∷ 2 ∷ [];
}

abbrev sword_bytes : List ℕ
sword_bytes =
    groups 4 (place (pos 308))
    ++ (to_le 2 1
        ++ (groups 4 12
            ++ ((1 ∷ [])
                ++ (stack_bytes true (negsuc 1)
                    ++ (groups 4 (place (pos 0)) ++ user_data_bytes (1 ∷ 2 ∷ []))))))

Codes-item_instance_example : Codes item_instance sword sword_bytes
Codes-item_instance_example =
    Codes-item_instance (pos 308) 1 12 true (negsuc 1) (pos 0) (1 ∷ 2 ∷ []) (omega arith)
      (λ e. cc (e)) (omega arith) (omega arith) (omega arith) (omega arith) (omega arith)
      (λ e. absurd (cc (e)))

abbrev air_bytes : List ℕ
air_bytes =
    to_le 2 0
    ++ (to_le 2 0
        ++ (groups 4 0
            ++ ((0 ∷ [])
                ++ ((variant_bytes false 0 ++ stack_bytes false (pos 0))
                    ++ (groups 4 0 ++ user_data_bytes [])))))

Codes-item_instance_v975_example :
    Codes item_instance_v975 endweave.Codec.ItemInstance.air air_bytes
Codes-item_instance_v975_example =
    Codes-item_instance_v975 (pos 0) 0 0 0 false 0 (pos 0) 0 [] refl (omega arith) (omega arith)
      (omega arith) (omega arith) (omega arith) (omega arith) (λ e. refl) (λ e. refl)

Codes-actor_data_item_example :
    Codes actor_data_item
      (record { key = pos 126; value = int_value (pos 566) })
      (groups 4 126 ++ (groups 4 2 ++ groups 4 (place (pos 566))))
Codes-actor_data_item_example =
    Codes-actor_data_item 126 2 (int_value (pos 566)) (groups 4 (place (pos 566))) (omega arith)
      (coded_int (Codes-var_int (pos 566) (omega arith)))

-- ===== src/Codec/ItemInstance/Cerealized.antt =====
-- codec/types/item.py: the format of v975.
use endweave.Prelude.{
  ℕ, ◌^◌, ◌<◌, ◌≡◌, refl, Bool, true, false, some, List, [], ◌∷◌, ◌++◌, append_assoc, length, ℤ,
  pos, if◌then◌else◌,
}
use endweave.Exec.{◌>>◌}
use endweave.Codec.Leb128.{groups}
use endweave.Codec.Word.{to_le, signed_word}
use endweave.Codec.Zigzag.{IsInt}
use endweave.Codec.FieldType.{unsigned}
use endweave.Codec.FieldType.Codes.{Codes}
use endweave.Codec.FieldType.Primitives.{Codes-ushort_le, Codes-bool, Codes-short_le}
use endweave.Codec.FieldType.Variable.{Codes-var_int, Codes-uvar_int}
use endweave.Codec.Reader.{read_varint, read_uvarint, read_ushort_le, read_bool, read_short_le}
use endweave.Codec.Reader.View.{Reads, Reads-pure, Reads-bind, Reads-map}
use endweave.Codec.Writer.{write_varint, write_uvarint, write_ushort_le, write_bool, write_short_le}
use endweave.Codec.Writer.View.{Writes, Writes-pure, Writes-then}
use endweave.Codec.ItemInstance.{
  only_if, write_only_if, read_user_data, read_item_v975, write_item_v975, item_instance_v975,
}
use endweave.Codec.ItemInstance.RoundTrip.{
  user_data_bytes, Reads-user_data, Writes-user_data, stack_bytes, Reads-stack,
}

abbrev pub variant_bytes : Bool → ℕ → List ℕ
variant_bytes has variant = if has then groups 4 variant else []

Reads-variant :
    (has : Bool) (variant : ℕ)
    → variant < 2 ^ 32
    → (has ≡ false → variant ≡ 0)
    → Reads (only_if has (unsigned read_uvarint)) (variant_bytes has variant) (pos variant)
Reads-variant true variant h k = (Codes-uvar_int variant h).reads
Reads-variant false variant h k = rw (k refl) (Reads-pure (pos 0))

Writes-net_id :
    (has : Bool) (variant : ℕ) (stack : ℤ)
    → variant < 2 ^ 32
    → IsInt (2 ^ 31) stack
    → Writes
        (write_only_if has (write_uvarint (pos variant) >> write_varint stack))
        (variant_bytes has variant ++ stack_bytes has stack)
Writes-net_id true variant stack h k =
    Writes-then (write_uvarint (pos variant)) (write_varint stack) (Codes-uvar_int variant h).writes
      (Codes-var_int stack k).writes
Writes-net_id false variant stack h k = Writes-pure

module _ (network_id : ℤ) (word count aux_value : ℕ) (has_net_id : Bool) (net_id_variant : ℕ)
    (stack_net_id : ℤ) (block_runtime_id : ℕ) (user_data : List ℕ)
    (network_id-IsShort : signed_word (256 ^ 2) network_id ≡ some word)
    (small_count : count < 2 ^ 16) (small_aux : aux_value < 2 ^ 32)
    (small_variant : net_id_variant < 2 ^ 32) (stack_net_id-IsInt : IsInt (2 ^ 31) stack_net_id)
    (small_block : block_runtime_id < 2 ^ 32) (short_data : length user_data < 2 ^ 32) where
  -- An item stack, air included, whose variant and stack number are 0 unless its flag says that it has
  -- them, is written as its fields in order and read back from these bytes. Its numbers are in range: the
  -- network id fits a signed word of 16 bits, the stack number one of 32 bits, the count is below 2 ** 16,
  -- the auxiliary value, the variant, the block runtime id and the length of the data are below 2 ** 32.
  pub Codes-item_instance_v975 :
      (has_net_id ≡ false → net_id_variant ≡ 0)
      → (has_net_id ≡ false → stack_net_id ≡ pos 0)
      → Codes item_instance_v975
          (record {
            network_id = network_id;
            count = pos count;
            aux_value = pos aux_value;
            has_net_id = has_net_id;
            stack_net_id = stack_net_id;
            net_id_variant = pos net_id_variant;
            block_runtime_id = pos block_runtime_id;
            user_data = user_data;
          })
          (to_le 2 word
            ++ (to_le 2 count
                ++ (groups 4 aux_value
                    ++ (((if has_net_id then 1 else 0) ∷ [])
                        ++ ((variant_bytes has_net_id net_id_variant
                              ++ stack_bytes has_net_id stack_net_id)
                            ++ (groups 4 block_runtime_id ++ user_data_bytes user_data))))))
  unfolding read_item_v975 write_item_v975
  Codes-item_instance_v975 no_variant no_stack = record {
    reads = Reads-bind read_short_le _ (Codes-short_le network_id word network_id-IsShort).reads (
        Reads-bind (unsigned read_ushort_le) _ (Codes-ushort_le count small_count).reads (
          Reads-bind (unsigned read_uvarint) _ (Codes-uvar_int aux_value small_aux).reads (
            Reads-bind read_bool _ (Codes-bool has_net_id).reads (
              rw append_assoc (
                Reads-bind (only_if has_net_id (unsigned read_uvarint)) _
                  (Reads-variant has_net_id net_id_variant small_variant no_variant)
                  (Reads-bind (only_if has_net_id read_varint) _
                    (Reads-stack has_net_id stack_net_id stack_net_id-IsInt no_stack)
                    (Reads-bind (unsigned read_uvarint) _
                      (Codes-uvar_int block_runtime_id small_block).reads
                      (Reads-map read_user_data _ (Reads-user_data user_data short_data)
                        refl))))))));
    writes =
        Writes-then (write_short_le network_id) _
          (Codes-short_le network_id word network_id-IsShort).writes
          (Writes-then (write_ushort_le (pos count)) _ (Codes-ushort_le count small_count).writes (
            Writes-then (write_uvarint (pos aux_value)) _
              (Codes-uvar_int aux_value small_aux).writes
              (Writes-then (write_bool has_net_id) _ (Codes-bool has_net_id).writes (
                Writes-then
                  (write_only_if has_net_id
                    (write_uvarint (pos net_id_variant) >> write_varint stack_net_id))
                  _
                  (Writes-net_id has_net_id net_id_variant stack_net_id small_variant
                    stack_net_id-IsInt)
                  (Writes-then (write_uvarint (pos block_runtime_id)) _
                    (Codes-uvar_int block_runtime_id small_block).writes
                    (Writes-user_data user_data short_data))))));
  }

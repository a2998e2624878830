-- ===== src/Codec/ItemInstance/RoundTrip.antt =====
-- codec/types/item.py: the formats that have a short form for air.
use endweave.Prelude.{
  ℕ, ◌^◌, ◌<◌, ◌≡◌, ◌≢◌, refl, Bool, true, false, List, [], ◌∷◌, ◌++◌, length, ℤ, pos, eqb_ℤ,
  eqb_ℤ_iff, arith, if◌then◌else◌,
}
use endweave.Codec.Leb128.{groups}
use endweave.Codec.Word.{to_le}
use endweave.Codec.Zigzag.{place, IsInt}
use endweave.Codec.FieldType.{unsigned}
use endweave.Codec.FieldType.Codes.{Codes}
use endweave.Codec.FieldType.Primitives.{Codes-ushort_le, Codes-bool}
use endweave.Codec.FieldType.Variable.{Codes-var_int, Codes-uvar_int}
use endweave.Codec.Reader.{read_varint, read_uvarint, read_ushort_le, read_bool}
use endweave.Codec.Reader.View.{Reads, Reads-pure, Reads-bind, Reads-map, Reads-read_bytes}
use endweave.Codec.Reader.Varint.{Reads-read_uvarint}
use endweave.Codec.Writer.{write_varint, write_uvarint, write_ushort_le, write_bool}
use endweave.Codec.Writer.View.{Writes, Writes-pure, Writes-then, Writes-write_bytes}
use endweave.Codec.ItemInstance.{
  air, only_if, write_only_if, read_user_data, write_user_data, read_item, write_item,
  item_instance, read_descriptor, write_descriptor, network_item_instance_descriptor,
}

abbrev pub user_data_bytes : List ℕ → List ℕ
user_data_bytes user_data = groups 4 (length user_data) ++ user_data

pub Reads-user_data :
    (bs : List ℕ) → length bs < 2 ^ 32 → Reads read_user_data (user_data_bytes bs) bs
Reads-user_data bs h =
    Reads-bind read_uvarint _ (Reads-read_uvarint (length bs) (omega arith))
      (Reads-read_bytes (length bs) bs refl)

pub Writes-user_data :
    (bs : List ℕ) → length bs < 2 ^ 32 → Writes (write_user_data bs) (user_data_bytes bs)
Writes-user_data bs h =
    Writes-then (write_uvarint (pos (length bs))) _ (Codes-uvar_int (length bs) h).writes
      (Writes-write_bytes bs)

-- A stack number that is there, or none.
abbrev pub stack_bytes : Bool → ℤ → List ℕ
stack_bytes has stack = if has then groups 4 (place stack) else []

pub Reads-stack :
    (has : Bool) (stack : ℤ)
    → IsInt (2 ^ 31) stack
    → (has ≡ false → stack ≡ pos 0)
    → Reads (only_if has read_varint) (stack_bytes has stack) stack
Reads-stack true stack h k = (Codes-var_int stack h).reads
Reads-stack false stack h k = rw (k refl) (Reads-pure (pos 0))

Writes-stack :
    (has : Bool) (stack : ℤ)
    → IsInt (2 ^ 31) stack
    → Writes (write_only_if has (write_varint stack)) (stack_bytes has stack)
Writes-stack true stack h = (Codes-var_int stack h).writes
Writes-stack false stack h = Writes-pure

-- Air is a zero and nothing else.
pub Codes-air :
    Codes item_instance air (0 ∷ []) × Codes network_item_instance_descriptor air (0 ∷ [])
unfolding read_item write_item read_descriptor write_descriptor groups
Codes-air =
    let zero_bytes = Codes-var_int (pos 0) (omega arith) in
    let reads : Reads item_instance.read (0 ∷ []) air =
      Reads-bind read_varint _ zero_bytes.reads (Reads-pure air) in
    let writes : Writes (item_instance.write air) (0 ∷ []) =
      Writes-then (write_varint (pos 0)) _ zero_bytes.writes Writes-pure in
    let reads' : Reads network_item_instance_descriptor.read (0 ∷ []) air =
      Reads-bind read_varint _ zero_bytes.reads (Reads-pure air) in
    let writes' : Writes (network_item_instance_descriptor.write air) (0 ∷ []) =
      Writes-then (write_varint (pos 0)) _ zero_bytes.writes Writes-pure in
    (record { reads = reads; writes = writes }, record { reads = reads'; writes = writes' })

module _ (network_id : ℤ) (count aux_value : ℕ) (has_net_id : Bool)
    (stack_net_id block_runtime_id : ℤ) (user_data : List ℕ)
    (network_id-IsInt : IsInt (2 ^ 31) network_id) (is_item : network_id ≢ pos 0)
    (small_count : count < 2 ^ 16) (small_aux : aux_value < 2 ^ 32)
    (stack_net_id-IsInt : IsInt (2 ^ 31) stack_net_id)
    (block_runtime_id-IsInt : IsInt (2 ^ 31) block_runtime_id)
    (short_data : length user_data < 2 ^ 32) where
  not_air : eqb_ℤ network_id (pos 0) ≡ false
  not_air = ground (arith, eqb_ℤ_iff network_id (pos 0))

  -- An item stack that is not air (the network id is not 0), whose variant is 0 and whose stack number is
  -- 0 unless its flag says that it has one, is written as its fields in order and read back from these
  -- bytes. Its numbers are in range: network id, stack number and block runtime id fit a signed word of
  -- 32 bits, the count is below 2 ** 16, the auxiliary value and the length of the data below 2 ** 32.
  pub Codes-item_instance :
      (has_net_id ≡ false → stack_net_id ≡ pos 0)
      → Codes item_instance
          (record {
            network_id = network_id;
            count = pos count;
            aux_value = pos aux_value;
            has_net_id = has_net_id;
            stack_net_id = stack_net_id;
            net_id_variant = pos 0;
            block_runtime_id = block_runtime_id;
            user_data = user_data;
          })
          (groups 4 (place network_id)
            ++ (to_le 2 count
                ++ (groups 4 aux_value
                    ++ (((if has_net_id then 1 else 0) ∷ [])
                        ++ (stack_bytes has_net_id stack_net_id
                            ++ (groups 4 (place block_runtime_id) ++ user_data_bytes user_data))))))
  unfolding read_item write_item
  Codes-item_instance absent = record {
    reads = Reads-bind read_varint _ (Codes-var_int network_id network_id-IsInt).reads (
        rw not_air (
          Reads-bind (unsigned read_ushort_le) _ (Codes-ushort_le count small_count).reads (
            Reads-bind (unsigned read_uvarint) _ (Codes-uvar_int aux_value small_aux).reads (
              Reads-bind read_bool _ (Codes-bool has_net_id).reads (
                Reads-bind (only_if has_net_id read_varint) _
                  (Reads-stack has_net_id stack_net_id stack_net_id-IsInt absent)
                  (Reads-bind read_varint _
                    (Codes-var_int block_runtime_id block_runtime_id-IsInt).reads
                    (Reads-map read_user_data _ (Reads-user_data user_data short_data) refl)))))));
    writes =
        Writes-then (write_varint network_id) _ (Codes-var_int network_id network_id-IsInt).writes (
          rw not_air (
            Writes-then (write_ushort_le (pos count)) _ (Codes-ushort_le count small_count).writes (
              Writes-then (write_uvarint (pos aux_value)) _
                (Codes-uvar_int aux_value small_aux).writes
                (Writes-then (write_bool has_net_id) _ (Codes-bool has_net_id).writes (
                  Writes-then (write_only_if has_net_id (write_varint stack_net_id)) _
                    (Writes-stack has_net_id stack_net_id stack_net_id-IsInt)
                    (Writes-then (write_varint block_runtime_id) _
                      (Codes-var_int block_runtime_id block_runtime_id-IsInt).writes
                      (Writes-user_data user_data short_data)))))));
  }

  -- A recipe's result: the same, without the stack number.
  pub Codes-network_item_instance_descriptor :
      Codes network_item_instance_descriptor
        (record {
          network_id = network_id;
          count = pos count;
          aux_value = pos aux_value;
          has_net_id = false;
          stack_net_id = pos 0;
          net_id_variant = pos 0;
          block_runtime_id = block_runtime_id;
          user_data = user_data;
        })
        (groups 4 (place network_id)
          ++ (to_le 2 count
              ++ (groups 4 aux_value
                  ++ (groups 4 (place block_runtime_id) ++ user_data_bytes user_data))))
  unfolding read_descriptor write_descriptor
  Codes-network_item_instance_descriptor = record {
    reads = Reads-bind read_varint _ (Codes-var_int network_id network_id-IsInt).reads (
        rw not_air (
          Reads-bind (unsigned read_ushort_le) _ (Codes-ushort_le count small_count).reads (
            Reads-bind (unsigned read_uvarint) _ (Codes-uvar_int aux_value small_aux).reads (
              Reads-bind read_varint _ (Codes-var_int block_runtime_id block_runtime_id-IsInt).reads
                (Reads-map read_user_data _ (Reads-user_data user_data short_data) refl)))));
    writes =
        Writes-then (write_varint network_id) _ (Codes-var_int network_id network_id-IsInt).writes (
          rw not_air (
            Writes-then (write_ushort_le (pos count)) _ (Codes-ushort_le count small_count).writes (
              Writes-then (write_uvarint (pos aux_value)) _
                (Codes-uvar_int aux_value small_aux).writes
                (Writes-then (write_varint block_runtime_id) _
                  (Codes-var_int block_runtime_id block_runtime_id-IsInt).writes
                  (Writes-user_data user_data short_data)))));
  }

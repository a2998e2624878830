-- ===== src/Examples/Items.antt =====
-- The items and the sounds of protocol 1001.
use endweave.Prelude.{
  ℕ, ◌≡◌, refl, true, none, some, List, [], ◌∷◌, ◌++◌, pos, negsuc, mask, arith, lookup, int_eq,
}
use endweave.Codec.Leb128.{groups}
use endweave.Codec.Word.{to_le}
use endweave.Codec.Utf8.{encode}
use endweave.Codec.Zigzag.{place}
use endweave.Codec.FieldType.{byte, int8, string, uvar_int, var_int}
use endweave.Codec.FieldType.Codes.{Codes, Field}
use endweave.Codec.FieldType.Primitives.{Codes-byte, Codes-int8}
use endweave.Codec.FieldType.Variable.{Codes-string, Codes-uvar_int, Codes-var_int}
use endweave.Codec.ItemInstance.{ItemInstance, item_instance, item_instance_v975}
use endweave.Codec.ItemInstance.RoundTrip.{Codes-item_instance, stack_bytes, user_data_bytes}
use endweave.Codec.ItemInstance.Cerealized.{Codes-item_instance_v975, variant_bytes}
use endweave.Codec.Wrapper.{wrap}
use endweave.Codec.Wrapper.Chunk.{Twin, alike, chain, counted, each, only, same, twin}
use endweave.Protocol.{serverbound, clientbound}
use endweave.Protocol.Base.Detect.{Forwards}
use endweave.Steps.Rounds.{Rounds}
use endweave.Steps.Actions.{Action, ItemTwin, with_number, without}
use endweave.Steps.Transactions.{
  Transaction, UseItem, UseItemOnEntity, ReleaseItem, transaction_chunks, transaction_round,
}
use endweave.Steps.V975ToV1001.Transaction.{
  rewrite_inventory_transaction, rewrite_inventory_transaction_clientbound,
}
use endweave.Steps.V975ToV1001.ItemStack.{rewrite_inventory_content}
use endweave.Steps.V975ToV1001.SoundNames.{sound_event_names}
use endweave.Steps.V975ToV1001.LevelSound.{rewrite_level_sound_event}
use endweave.Steps.Items.{item_chunk, rewrite_inventory_content_lem}
use endweave.Steps.Sounds.{level_sound_event_round}
use endweave.Examples.Packets.{player}
use endweave.Examples.Parts.{three, seven, player_id, sixteen, origin, set_flag, one_word, block}

abbrev pub sword : ItemInstance
sword = record {
  network_id = pos 308;
  count = pos 1;
  aux_value = pos 12;
  has_net_id = true;
  stack_net_id = negsuc 1;
  net_id_variant = pos 0;
  block_runtime_id = pos 0;
  user_data = 1 ∷ 2 ∷ [];
}

abbrev pub sword_bytes : List ℕ
sword_bytes =
    groups 4 (place (pos 308))
    ++ (to_le 2 1
        ++ (groups 4 12
            ++ ((1 ∷ [])
                ++ (stack_bytes true (negsuc 1)
                    ++ (groups 4 (place (pos 0)) ++ user_data_bytes (1 ∷ 2 ∷ []))))))

abbrev pub sword_bytes_v975 : List ℕ
sword_bytes_v975 =
    to_le 2 308
    ++ (to_le 2 1
        ++ (groups 4 12
            ++ ((1 ∷ [])
                ++ ((variant_bytes true 0 ++ stack_bytes true (negsuc 1))
                    ++ (groups 4 0 ++ user_data_bytes (1 ∷ 2 ∷ []))))))

pub sword_coded : Codes item_instance sword sword_bytes
sword_coded =
    Codes-item_instance (pos 308) 1 12 true (negsuc 1) (pos 0) (1 ∷ 2 ∷ []) (omega arith)
      (λ e. cc (e)) (omega arith) (omega arith) (omega arith) (omega arith) (omega arith)
      (λ e. absurd (cc (e)))

pub sword_coded_v975 : Codes item_instance_v975 sword sword_bytes_v975
sword_coded_v975 =
    Codes-item_instance_v975 (pos 308) 308 1 12 true 0 (negsuc 1) 0 (1 ∷ 2 ∷ []) refl (omega arith)
      (omega arith) (omega arith) (omega arith) (omega arith) (omega arith) (λ e. absurd (cc (e)))
      (λ e. absurd (cc (e)))

abbrev pub item : ItemTwin
item = alike sword sword_bytes sword_bytes_v975 sword_coded sword_coded_v975

rewrite_inventory_content_lem_example :
    let packet = chain (
      same seven
      ∷ same (counted 1 (omega arith))
      ∷ each item_chunk (item ∷ [])
      ∷ same three
      ∷ same set_flag
      ∷ only true (chain (same one_word ∷ []))
      ∷ twin item
      ∷ []) in
    Forwards
      (rewrite_inventory_content (wrap (packet.older ++ []) (some player)))
      (packet.newer ++ [])
      player
rewrite_inventory_content_lem_example =
    rewrite_inventory_content_lem seven (item ∷ []) (omega arith) three set_flag one_word item []
      player

-- A drop, whose source is the world.
abbrev source : Field uvar_int
source = record { value = pos 2; bytes = groups 4 2; coded = Codes-uvar_int 2 (omega arith) }

abbrev drop : Action
drop = record {
  source = source;
  window_id = none;
  window = [];
  window' = [];
  has_window_id = without;
  source_flags = some (pos 7);
  flags = groups 4 7;
  flags' = groups 4 7;
  has_flags = with_number seven.coded seven.coded;
  slot = seven;
  old_item = item;
  new_item = item;
}

abbrev wide : Twin uvar_int var_int
wide =
    alike (pos 1) (groups 4 1) (groups 4 (place (pos 1))) (Codes-uvar_int 1 (omega arith))
      (Codes-var_int (pos 1) (omega arith))

abbrev narrow : Twin uvar_int byte
narrow =
    alike (pos 1) (groups 4 1) (1 ∷ []) (Codes-uvar_int 1 (omega arith))
      (Codes-byte 1 (omega arith))

abbrev release : ReleaseItem
release = record {
  action_type = wide;
  hot_bar_slot = sixteen;
  held_item = item;
  head_position = origin;
}

abbrev use_on_entity : UseItemOnEntity
use_on_entity = record {
  entity = player_id;
  action_type = wide;
  hot_bar_slot = sixteen;
  held_item = item;
  position = origin;
  clicked_position = origin;
}

abbrev face : Twin var_int int8
face =
    alike (negsuc 0) (groups 4 (place (negsuc 0))) (mask (negsuc 0) 256 ∷ [])
      (Codes-var_int (negsuc 0) (omega arith)) (Codes-int8 (negsuc 0) (omega arith))

abbrev placed : UseItem
placed = record {
  action_type = wide;
  trigger_type = narrow;
  block_position = block;
  block_face = face;
  hot_bar_slot = sixteen;
  held_item = item;
  position = origin;
  clicked_position = origin;
  block_runtime_id = seven;
  client_prediction = narrow;
  cooldown = three;
}

-- An item is dropped and another used.
abbrev transaction : Transaction
transaction = record {
  request = sixteen;
  slots = record { container = three; slots = three ∷ []; few = omega arith } ∷ [];
  few = omega arith;
  type = source;
  actions = drop ∷ [];
  few' = omega arith;
  use_item = placed;
  on_entity = use_on_entity;
  release = release;
}

transaction_round_example :
    Rounds rewrite_inventory_transaction_clientbound rewrite_inventory_transaction
      (transaction_chunks transaction)
transaction_round_example = transaction_round transaction

-- "hit", the sound 1.
abbrev pub hit_id : Field uvar_int
hit_id = record { value = pos 1; bytes = groups 4 1; coded = Codes-uvar_int 1 (omega arith) }

pub hit_encoded : encode (0x68 ∷ 0x69 ∷ 0x74 ∷ []) ≡ some (0x68 ∷ 0x69 ∷ 0x74 ∷ [])
unfolding encode
hit_encoded = refl

abbrev pub hit : Field string
hit = record {
  value = 0x68 ∷ 0x69 ∷ 0x74 ∷ [];
  bytes = groups 4 3 ++ (0x68 ∷ 0x69 ∷ 0x74 ∷ []);
  coded =
      Codes-string (0x68 ∷ 0x69 ∷ 0x74 ∷ []) (0x68 ∷ 0x69 ∷ 0x74 ∷ []) hit_encoded (omega arith);
}

pub named : lookup hit_id.value sound_event_names ≡ some hit.value
unfolding lookup sound_event_names
named = refl

level_sound_event_round_example :
    Forwards
      (rewrite_level_sound_event clientbound (wrap (hit_id.bytes ++ (9 ∷ [])) (some player)))
      (hit.bytes ++ (9 ∷ []))
      player
    × Forwards
        (rewrite_level_sound_event serverbound (wrap (hit.bytes ++ (9 ∷ [])) (some player)))
        (hit_id.bytes ++ (9 ∷ []))
        player
level_sound_event_round_example = level_sound_event_round hit_id hit (9 ∷ []) player named

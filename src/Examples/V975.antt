-- ===== src/Examples/V975.antt =====
-- Packets between protocols 944 and 975.
use endweave.Prelude.{◌≡◌, refl, true, some, List, [], ◌∷◌, ◌++◌, arith}
use endweave.Codec.FieldType.{float_le}
use endweave.Codec.FieldType.Codes.{Field}
use endweave.Codec.Wrapper.{wrap}
use endweave.Codec.Wrapper.Chunk.{chain, each, only, same, added, twin, counted}
use endweave.Protocol.Base.Detect.{Forwards}
use endweave.Steps.Actions.{flag}
use endweave.Steps.Movement.{
  Bitset, ends, goes_on, movement, rewrite_client_movement_prediction_sync_lem,
}
use endweave.Steps.Enchants.{
  Enchantments, EnchantOption, option_chunk, rewrite_player_enchant_options_lem,
}
use endweave.Steps.Slots.{storage_chunk, rewrite_inventory_slot_lem}
use endweave.Steps.V944ToV975.Added.{
  rewrite_player_enchant_options, rewrite_client_movement_prediction_sync,
}
use endweave.Steps.V944ToV975.Waypoints.{rewrite_inventory_slot}
use endweave.Exec.{pure}
use endweave.Pipeline.{passed, run}
use endweave.Protocol.{serverbound, clientbound}
use endweave.Protocol.MappingData.{shift_up}
use endweave.Rewriter.Sound.{level_sound_event}
use endweave.Steps.Relayed.{Heard, heard, level_sound_event_relayed}
use endweave.Steps.V944ToV975 as V975
use endweave.Steps.V975ToV1001 as V1001
use endweave.Examples.Packets.{player}
use endweave.Examples.Parts.{
  half, hi, sixteen, nine_long, origin, minus_five, no_flag, one_word, set_flag, seven, three,
  zero_int_le,
}
use endweave.Examples.Items.{item, hit_id, hit, named}

abbrev nine : List (Field float_le)
nine = half ∷ half ∷ half ∷ half ∷ half ∷ half ∷ half ∷ half ∷ half ∷ []

abbrev three_more : List (Field float_le)
three_more = half ∷ half ∷ half ∷ []

-- A set of two bytes.
two_bytes : Bitset (200 ∷ 3 ∷ [])
two_bytes = goes_on (omega arith) (omega arith) (ends (omega arith))

rewrite_client_movement_prediction_sync_lem_example :
    Forwards
      (rewrite_client_movement_prediction_sync (
        wrap
          ((movement (200 ∷ 3 ∷ []) nine three_more minus_five set_flag).older ++ (5 ∷ []))
          (some player)))
      ((movement (200 ∷ 3 ∷ []) nine three_more minus_five set_flag).newer ++ (5 ∷ []))
      player
rewrite_client_movement_prediction_sync_lem_example =
    rewrite_client_movement_prediction_sync_lem (200 ∷ 3 ∷ []) two_bytes nine three_more minus_five
      set_flag (5 ∷ []) player refl refl

abbrev enchantments : Enchantments
enchantments = record { list = record { type = three; level = three } ∷ []; few = omega arith }

-- It costs more than a byte holds.
abbrev costly : EnchantOption
costly = record {
  cost = 300;
  is_int = omega arith;
  slot = zero_int_le;
  lists = enchantments ∷ enchantments ∷ enchantments ∷ [];
  has_three = refl;
  name = hi;
  net_id = seven;
}

rewrite_player_enchant_options_lem_example :
    let packet = chain (same (counted 1 (omega arith)) ∷ each option_chunk (costly ∷ []) ∷ []) in
    Forwards
      (rewrite_player_enchant_options (wrap (packet.older ++ []) (some player)))
      (packet.newer ++ [])
      player
rewrite_player_enchant_options_lem_example =
    rewrite_player_enchant_options_lem (costly ∷ []) (omega arith) [] player

rewrite_inventory_slot_lem_example :
    let packet = chain (
      same seven
      ∷ same seven
      ∷ added (flag true)
      ∷ same three
      ∷ same set_flag
      ∷ only true (chain (same one_word ∷ []))
      ∷ storage_chunk item
      ∷ twin item
      ∷ []) in
    Forwards
      (rewrite_inventory_slot (wrap (packet.older ++ []) (some player)))
      (packet.newer ++ [])
      player
rewrite_inventory_slot_lem_example =
    rewrite_inventory_slot_lem seven seven three set_flag one_word item item [] player

-- A hit, close to the origin.
abbrev heard_hit : Heard
heard_hit = record {
  position = origin;
  extra = sixteen;
  entity = hi;
  is_baby = no_flag;
  is_global = set_flag;
  unique = nine_long;
}

level_sound_event_relayed_example :
    (run clientbound level_sound_event
        (V975.create_protocol (λ w. pure tt w) (λ w. pure tt w) ∷ V1001.create_protocol ∷ [])
        ((hit_id.bytes ++ (heard heard_hit).older) ++ [])
        player
      ≡ (passed ((hit.bytes ++ (heard heard_hit).newer) ++ []), player))
    × (run serverbound level_sound_event
          (V1001.create_protocol ∷ V975.create_protocol (λ w. pure tt w) (λ w. pure tt w) ∷ [])
          ((hit.bytes ++ (heard heard_hit).newer) ++ [])
          player
        ≡ (passed ((hit_id.bytes ++ (heard heard_hit).newer) ++ []), player))
unfolding shift_up
level_sound_event_relayed_example =
    level_sound_event_relayed (λ w. pure tt w) (λ w. pure tt w) hit_id hit_id hit heard_hit []
      player refl named

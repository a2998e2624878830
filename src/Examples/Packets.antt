-- ===== src/Examples/Packets.antt =====
-- Handlers on packets.
use endweave.Prelude.{
  ℕ, suc, ◌^◌, ◌<◌, ◌≤◌, ◌≡◌, refl, Bool, true, false, Option, none, some, List, [], ◌∷◌, ◌++◌,
  length, map, ℤ, pos, negsuc, arith, mask, Dict, leb_ℤ, ◌+ℤ◌, if◌then◌else◌,
}
use endweave.Codec.Utf8.{encode}
use endweave.Codec.Leb128.{groups}
use endweave.Codec.Zigzag.{place}
use endweave.Codec.FieldType.Codes.{Codes, none_left, one_more}
use endweave.Codec.FieldType.Variable.{Codes-var_int}
use endweave.Codec.ActorData.{int_value, ActorDataItem, actor_data_item}
use endweave.Codec.ActorData.RoundTrip.{Codes-actor_data_item, coded_int}
use endweave.Codec.Wrapper.{wrap}
use endweave.Codec.Wrapper.Fields.{Rewrites}
use endweave.Connection.{User, debug_connected, warn_violation, warn_undecoded, log}
use endweave.Protocol.Base.{detect_client_protocol, log_packet_violation}
use endweave.Protocol.Base.Detect.{version_bytes, Forwards, detect_client_protocol_lem}
use endweave.Protocol.Base.Warning.{
  front_bytes, log_packet_violation_lem, log_packet_violation_oversized,
}
use endweave.Protocol.MappingData.{IdShift, shift_up}
use endweave.Rewriter.ActorEvent.{rewrite_upgrade, rewrite_downgrade}
use endweave.Rewriter.ActorEvent.Events.{upgrade-downgrade}
use endweave.Rewriter.Sound.{
  SoundRewriter, remapped, rewrite_level_sound_event, rewrite_set_actor_data, rewrite_add_actor,
  rewrite_add_item_actor, rewrite_add_player,
}
use endweave.Rewriter.Sound.Rewritten.{list_bytes, CodedList}

abbrev pub player : User
player = record {
  address = "10.0.0.1:50000";
  logger = [];
  client_protocol = pos 0;
  server_protocol = pos 924;
  storage = [];
}

-- A client of protocol 944 asks for the network settings of a server of protocol 924.
detect_client_protocol_lem_example :
    Forwards
      (detect_client_protocol (wrap (version_bytes 944 ++ (1 ∷ [])) (some player)))
      (version_bytes 924 ++ (1 ∷ []))
      (log (debug_connected (pos 944) (pos 924)) (record player { client_protocol = pos 944 }))
detect_client_protocol_lem_example =
    detect_client_protocol_lem player (pos 944) 944 924 (1 ∷ []) refl refl

log_packet_violation_lem_example :
    Forwards
      (log_packet_violation (
        wrap
          (front_bytes (pos 0) (pos 1) (pos 12) ++ ((groups 4 2 ++ (0x68 ∷ 0x69 ∷ [])) ++ (9 ∷ [])))
          (some player)))
      (front_bytes (pos 0) (pos 1) (pos 12) ++ ((groups 4 2 ++ (0x68 ∷ 0x69 ∷ [])) ++ (9 ∷ [])))
      (log (warn_violation (pos 0) (pos 1) (pos 12) (0x68 ∷ 0x69 ∷ [])) player)
unfolding encode
log_packet_violation_lem_example =
    log_packet_violation_lem player (pos 0) (pos 1) (pos 12) (omega arith) (omega arith)
      (omega arith) (0x68 ∷ 0x69 ∷ []) (0x68 ∷ 0x69 ∷ []) (9 ∷ []) refl (omega arith)

log_packet_violation_oversized_example :
    Forwards
      (log_packet_violation (
        wrap
          (front_bytes (pos 0) (pos 1) (pos 12) ++ (groups 4 131069 ++ (0x68 ∷ [])))
          (some player)))
      (front_bytes (pos 0) (pos 1) (pos 12) ++ (0x68 ∷ []))
      (log warn_undecoded player)
log_packet_violation_oversized_example =
    log_packet_violation_oversized player (pos 0) (pos 1) (pos 12) (omega arith) (omega arith)
      (omega arith) 131069 (0x68 ∷ []) (omega arith) (omega arith)

-- The event that was inserted at 80.
abbrev one_at_80 : IdShift
one_at_80 = record { insert_at = pos 80; count = pos 1 }

upgrade-downgrade_example :
    Rewrites
      (rewrite_upgrade (record { shift = one_at_80; upgrade = true }))
      (groups 9 5 ++ (80 ∷ []))
      (groups 9 5 ++ (81 ∷ []))
      tt
    × Rewrites
        (rewrite_downgrade (record { shift = one_at_80; upgrade = false }))
        (groups 9 5 ++ (81 ∷ []))
        (groups 9 5 ++ (80 ∷ []))
        tt
unfolding shift_up
upgrade-downgrade_example =
    upgrade-downgrade one_at_80 5 80 81 (omega arith) (omega arith) (omega arith) refl refl

-- Twelve sounds that were inserted at 566; the key of the heartbeat sound is 126, and 136 is dropped.
abbrev pub sounds : SoundRewriter
sounds = record {
  sound_remap = shift_up (record { insert_at = pos 566; count = pos 12 });
  int_remappers = (pos 126, shift_up (record { insert_at = pos 566; count = pos 12 })) ∷ [];
  dropped_keys = pos 136 ∷ [];
}

abbrev heartbeat : ℤ → ActorDataItem
heartbeat sound = record { key = pos 126; value = int_value sound }

abbrev aim_assist : ActorDataItem
aim_assist = record { key = pos 136; value = int_value (pos 1) }

abbrev pub before : List ActorDataItem
before = heartbeat (pos 566) ∷ aim_assist ∷ []

abbrev item_bytes : ℕ → ℕ → List ℕ
item_bytes key value = groups 4 key ++ (groups 4 2 ++ groups 4 (place (pos value)))

abbrev pub before_bytes : List ℕ
before_bytes = list_bytes before (item_bytes 126 566 ++ (item_bytes 136 1 ++ []))

abbrev pub after_bytes : List ℕ
after_bytes = groups 4 1 ++ (item_bytes 126 578 ++ [])

item_coded :
    (key value : ℕ)
    → key < 2 ^ 32
    → value < 2 ^ 31
    → Codes actor_data_item
        (record { key = pos key; value = int_value (pos value) })
        (item_bytes key value)
item_coded key value h k =
    Codes-actor_data_item key 2 (int_value (pos value)) _ h
      (coded_int (Codes-var_int (pos value) k))

pub before_coded : CodedList before before_bytes
before_coded = record {
  entry_bytes = item_bytes 126 566 ++ (item_bytes 136 1 ++ []);
  coded =
      one_more (item_coded 126 566 (omega arith) (omega arith))
        (one_more (item_coded 136 1 (omega arith) (omega arith)) none_left);
  short = omega arith;
  layout = refl;
}

remapped-before : remapped sounds before ≡ heartbeat (pos 578) ∷ []
unfolding remapped endweave.Rewriter.Sound.without_dropped endweave.Prelude.contains
    endweave.Prelude.lookup shift_up
remapped-before = refl

pub after_coded : CodedList (remapped sounds before) after_bytes
after_coded = rw remapped-before (record {
  entry_bytes = item_bytes 126 578 ++ [];
  coded = one_more (item_coded 126 578 (omega arith) (omega arith)) none_left;
  short = omega arith;
  layout = refl;
})

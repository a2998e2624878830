-- ===== src/Examples/Steps.antt =====
-- Packets between protocols 924 and 944.
use endweave.Prelude.{arith, int_eq}
use endweave.Protocol.{transform, serverbound, clientbound}
use endweave.Steps.Rounds.{Rounds}
use endweave.Steps.Whole944.{
  ServerPacket, ClientPacket, tile_event, command_block_update', packet_id, packet_id', chunks,
  chunks', clientbound_round, serverbound_round,
}
use endweave.Steps.V924ToV944 as Up
use endweave.Steps.V944ToV924 as Down
use endweave.Protocol.MappingData.{shift_up}
use endweave.Examples.Parts.{sixteen, zero_int, set_flag, position}

-- A note block plays the instrument 16, which arrives as 20.
abbrev note : ServerPacket
unfolding shift_up
note = tile_event position zero_int sixteen (omega arith)

clientbound_round_example :
    Rounds
      (transform clientbound (packet_id note) Up.create_protocol)
      (transform clientbound (packet_id note) Down.create_protocol)
      (chunks note)
clientbound_round_example = clientbound_round note

abbrev command_block : ClientPacket
command_block = command_block_update' set_flag position

serverbound_round_example :
    Rounds
      (transform serverbound (packet_id' command_block) Down.create_protocol)
      (transform serverbound (packet_id' command_block) Up.create_protocol)
      (chunks' command_block)
serverbound_round_example = serverbound_round command_block

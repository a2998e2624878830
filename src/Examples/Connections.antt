-- ===== src/Examples/Connections.antt =====
-- Connections, and events that go through their pipelines.
use endweave.Plugin.{EndweavePlugin, on_enable, on_player_login, on_player_quit}
use endweave.Plugin.Enabled.{registered, on_enable_lem}
use endweave.Plugin.Gate.{arriving, answer, asking, on_player_login-asked}
use endweave.Protocol.Manager.{ProtocolPath, ProtocolManager, register, register_base, empty}
use endweave.Protocol.Manager.Search.{Chain}
use endweave.Prelude.{
  contains, leb_ℤ, int_eq, ◌≡◌, ◌≢◌, ◌↔◌, refl, true, false, Option, none, some, List, insert, [],
  ◌∷◌, String, pos, eqb_ℤ_iff, lookup,
}
use endweave.Connection.{StoredObject, User, UserConnection, ConnectionManager, get_connection}
use endweave.Protocol.{Protocol, create, serverbound, clientbound}
use endweave.Protocol.Manager.{get_path}
use endweave.Protocol.Manager.Cache.{registering, registering_base}
use endweave.Pipeline.{
  PacketEvent, ProtocolPipeline, run, get_pipeline, on_packet_receive, on_packet_send,
}
use endweave.Pipeline.Run.{translate_all, run_lem}
use endweave.Pipeline.Build.{get_pipeline_lem, IsBuilt}
use endweave.Pipeline.Events.{on_packet_receive-other, on_packet_send-untranslated}
use endweave.Pipeline.Steps.{Reach, start, next, receiving, managing, initial}
use endweave.Pipeline.Mirrored.{Seen, AllPaired}
use endweave.Pipeline.Paired.{Reach-AllPaired}
use endweave.Examples.Routes.{base, manager, manager-Reach}
use endweave.Examples.Packets.{player}

abbrev tracker : StoredObject
tracker = record { cls = "EntityTracker"; identity = 1 }

abbrev connected : User
connected = record player { client_protocol = pos 975 }

abbrev connection : UserConnection Protocol
connection = record {
  user = connected;
  warned_no_chain = false;
  protocol_pipeline = none;
  clientbound_pipeline = none;
}

abbrev table : ConnectionManager Protocol
table = record { server_protocol = pos 924; connections = ("10.0.0.1:50000", connection) ∷ [] }

abbrev state : ProtocolPipeline
state = record { manager = manager; connections = table; logger = []; failures = [] }

abbrev login_event : String → PacketEvent
login_event address = record {
  address = address;
  packet_id = 1;
  payload = 0 ∷ 0 ∷ 3 ∷ 207 ∷ 5 ∷ [];
  is_cancelled = false;
}

run_lem_example :
    run serverbound 1 (base ∷ []) (0 ∷ 0 ∷ 3 ∷ 207 ∷ 5 ∷ []) connected
    ≡ translate_all serverbound 1 (base ∷ []) (0 ∷ 0 ∷ 3 ∷ 207 ∷ 5 ∷ []) connected
run_lem_example = run_lem serverbound 1 (base ∷ []) (0 ∷ 0 ∷ 3 ∷ 207 ∷ 5 ∷ []) connected

get_pipeline_lem_example :
    IsBuilt state connection
      (get_path (pos 924) (pos 975) manager).0
      (get_pipeline connection state)
get_pipeline_lem_example = get_pipeline_lem connection state manager-Reach refl refl

known : pos 975 ≢ pos 0
known e = cc ((eqb_ℤ_iff (pos 975) (pos 0)).1 e)

on_packet_receive-other_example :
    get_connection "10.0.0.1:50000"
      (on_packet_receive (login_event "10.0.0.2:50000") state).1.connections
    ≡ get_connection "10.0.0.1:50000" state.connections
on_packet_receive-other_example =
    on_packet_receive-other (login_event "10.0.0.2:50000") state "10.0.0.1:50000" refl

-- A connection of the server's own version, whose pipeline is built.
abbrev same_version : UserConnection Protocol
same_version = record connection {
  user = record player { client_protocol = pos 924 };
  protocol_pipeline = some (base ∷ []);
}

abbrev same_version_state : ProtocolPipeline
same_version_state = record state {
  connections = record {
    server_protocol = pos 924;
    connections = ("10.0.0.1:50000", same_version) ∷ [];
  };
}

abbrev violation_event : PacketEvent
violation_event = record (login_event "10.0.0.1:50000") { packet_id = 156 }

on_packet_send-untranslated_example :
    ((on_packet_send violation_event same_version_state).0 ≡ violation_event)
    × ((on_packet_send violation_event same_version_state).1.failures ≡ [])
    × (get_connection "10.0.0.1:50000"
          (on_packet_send violation_event same_version_state).1.connections
        ≡ some same_version)
unfolding get_connection lookup
on_packet_send-untranslated_example =
    on_packet_send-untranslated violation_event same_version_state same_version refl refl

abbrev step_975 : Protocol
step_975 = create (pos 924) (pos 975) none false

abbrev based : ProtocolManager
based = register_base base empty

abbrev with_base : ProtocolPipeline
with_base = record (initial (pos 924)) { manager = based }

abbrev with_step : ProtocolPipeline
with_step = record with_base { manager = register step_975 based }

abbrev step_1001 : Protocol
step_1001 = create (pos 975) (pos 1001) none false

abbrev ready : ProtocolPipeline
ready = record with_step { manager = register step_1001 with_step.manager }

-- A client of protocol 1001 asks for the network settings.
abbrev handshake_event : PacketEvent
handshake_event = record (login_event "10.0.0.1:50000") {
  packet_id = 193;
  payload = 0 ∷ 0 ∷ 3 ∷ 233 ∷ [];
}

abbrev asked : ProtocolPipeline
asked = (on_packet_receive handshake_event ready).1

abbrev joined : ProtocolPipeline
joined = (on_packet_receive (login_event "10.0.0.1:50000") asked).1

abbrev joining : Reach (pos 924) joined
joining =
    next
      (next
        (next
          (next (next start (managing (initial (pos 924)) (registering_base base empty)))
            (managing with_base (registering step_975 based)))
          (managing with_step (registering step_1001 with_step.manager)))
        (receiving handshake_event ready))
      (receiving (login_event "10.0.0.1:50000") asked)

-- The connection then has both lists, with the chain in opposite orders.
abbrev lists : Option (UserConnection Protocol) → Option (List Protocol) × Option (List Protocol)
lists none = (none, none)
lists (some c) = (c.protocol_pipeline, c.clientbound_pipeline)

joined-translates :
    lists (get_connection "10.0.0.1:50000" joined.connections)
    ≡ (some (base ∷ step_1001 ∷ step_975 ∷ []), some (base ∷ step_975 ∷ step_1001 ∷ []))
unfolding on_packet_receive get_pipeline get_path endweave.Protocol.Manager.find_path
    endweave.Protocol.Manager.bfs endweave.Protocol.Manager.register
    endweave.Protocol.Manager.register_base endweave.Protocol.Manager.loop
    endweave.Protocol.Manager.scan endweave.Protocol.Manager.edges
    endweave.Protocol.Manager.adjacency_from endweave.Protocol.Manager.get create
    endweave.Protocol.register endweave.Protocol.transform endweave.Protocol.has_handler_or_cancel
    lookup insert contains get_connection endweave.Connection.get_or_create
    endweave.Connection.update_connection run endweave.Protocol.Base.create_base_protocol
    endweave.Protocol.Base.detect_client_protocol endweave.Protocol.Base.rewrite_login
    endweave.Codec.Wrapper.user endweave.Codec.Wrapper.set_user endweave.Codec.Wrapper.read
    endweave.Codec.Wrapper.write endweave.Codec.Wrapper.to_bytes endweave.Codec.Reader.read_int_be
    endweave.Codec.Reader.unpack_from endweave.Codec.Writer.write_int_be endweave.Codec.Word.of_le
    endweave.Codec.Word.to_le
joined-translates = refl

Reach-AllPaired_example : AllPaired (Seen joined joining) joined.connections
Reach-AllPaired_example = Reach-AllPaired joining

on_enable_lem_example :
    let self = on_enable (pos 924) (step_975 ∷ []) (pos 1001 ∷ []) "not yet" in
    ((contains self.supported_versions (pos 975) ≡ true) ↔ (
      (ps : ProtocolPath) × Chain
        (registered (pos 924) (step_975 ∷ [])).protocols
        (pos 975)
        (pos 924)
        ps))
    × (contains self.supported_versions self.advertised_protocol ≡ true)
    × (contains self.supported_versions (pos 975) ≡ true
        → leb_ℤ (pos 975) self.advertised_protocol ≡ true)
on_enable_lem_example = on_enable_lem (pos 924) (step_975 ∷ []) (pos 1001 ∷ []) "not yet" (pos 975)

-- A plugin that blocks the protocol 975, before anyone connects.
abbrev gated : EndweavePlugin
gated = record {
  pipeline = ready;
  supported_versions = pos 924 ∷ pos 975 ∷ [];
  advertised_protocol = pos 975;
  blocked_protocols = pos 975 ∷ [];
  block_message = "not yet";
}

-- The plugin once a client of protocol 975 has asked for the network settings.
abbrev gated_asked : EndweavePlugin
gated_asked = record gated {
  pipeline = (on_packet_receive (asking "10.0.0.1:50000" 975 []) ready).1;
}

on_player_login-asked_example :
    (on_player_login (arriving "10.0.0.1:50000") gated_asked
      ≡ answer (pos 975 ∷ []) "not yet" (pos 975) "10.0.0.1:50000")
    × (on_player_login (arriving "10.0.0.2:50000") gated_asked
        ≡ answer (pos 975 ∷ []) "not yet" (pos 0) "10.0.0.2:50000")
    × (on_player_login (arriving "10.0.0.1:50000") (on_player_quit "10.0.0.1:50000" gated_asked)
        ≡ answer (pos 975 ∷ []) "not yet" (pos 0) "10.0.0.1:50000")
unfolding get_connection lookup register_base register
on_player_login-asked_example =
    on_player_login-asked "10.0.0.1:50000" (pos 975) (pos 924) 975 924 [] gated refl refl refl refl
      "10.0.0.2:50000" refl refl

-- The first of them is refused, the others are not.
gated-answers :
    (answer (pos 975 ∷ []) "not yet" (pos 975) "10.0.0.1:50000"
      ≡ record { address = "10.0.0.1:50000"; kick_message = some "not yet"; is_cancelled = true })
    × (answer (pos 975 ∷ []) "not yet" (pos 0) "10.0.0.2:50000" ≡ arriving "10.0.0.2:50000")
unfolding contains
gated-answers = (refl, refl)

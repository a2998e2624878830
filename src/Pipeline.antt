-- ===== src/Pipeline.antt =====
-- pipeline.py: `ProtocolPipeline`, which takes each packet through the protocols of its connection.
-- What the debug handler prints and the crash dump's file are not modelled.
pub mod Run
pub mod Build
pub mod Events
pub mod Steps
pub mod Mirrored
pub mod Paired
pub mod Forwarded
use endweave.Prelude.{
  ℕ, Bool, true, false, not, Option, none, some, List, [], ◌∷◌, ◌++◌, reverse, String, pos, eqb_ℤ,
  if◌then◌else◌,
}
use endweave.Exec.{Exception, Result, ok, raised}
use endweave.Codec.Wrapper.{wrap, to_bytes}
use endweave.Connection.{
  User, LogRecord, warn_no_chain, needs_translation, UserConnection, ConnectionManager,
  get_or_create, get_connection, update_connection,
}
use endweave.Protocol.{
  Direction, serverbound, clientbound, Wrapper, Protocol, init, has_handler_or_cancel, transform,
}
use endweave.Protocol.Manager.{ProtocolManager, ProtocolPath, get_path, or_nil}

-- Endstone's event, as far as the pipeline uses it.
pub record PacketEvent : Type 0 where
  pub address : String
  pub packet_id : ℕ
  pub payload : List ℕ
  pub is_cancelled : Bool

-- What `_handle_translation_failure` reports; the payload is what the dump holds.
pub record Failure : Type 0 where
  pub exception : Exception
  pub direction : Direction
  pub packet_id : ℕ
  pub protocol : Protocol
  pub address : String
  pub payload : List ℕ

pub record ProtocolPipeline : Type 0 where
  pub manager : ProtocolManager
  pub connections : ConnectionManager Protocol
  pub logger : List LogRecord
  pub failures : List Failure

-- How the loop over the protocols ends.
pub data Outcome : Type 0 where
  passed : List ℕ → Outcome
  cancelled : Outcome
  failed : Exception → Protocol → List ℕ → Outcome

-- Handlers change the connection in place; no handler takes it from the wrapper.
abbrev pub user_of : Option User → User → User
user_of none u = u
user_of (some u') u = u'

-- After `transform`: `payload` is the one that the protocol was given.
abbrev pub settle :
    (List ℕ → User → Outcome × User)
    → Protocol
    → List ℕ
    → User
    → Result (Unit {0}) × Wrapper
    → Outcome × User
settle next protocol payload u (raised exc, w) =
    (failed exc protocol payload, user_of w.connection u)
settle next protocol payload u (ok done, w) =
    if w.cancelled
    then (cancelled, user_of w.connection u)
    else next (to_bytes w) (user_of w.connection u)

-- The loop that `on_packet_receive` and `on_packet_send` share.
unfoldable pub run : Direction → ℕ → List Protocol → List ℕ → User → Outcome × User
run direction packet_id [] payload u = (passed payload, u)
run direction packet_id (protocol ∷ protocols) payload u =
    if not (has_handler_or_cancel direction packet_id protocol)
    then run direction packet_id protocols payload u
    else settle (run direction packet_id protocols) protocol payload u
        (transform direction packet_id protocol (wrap payload (some u)))

abbrev pub init_all : ProtocolPath → User → User
init_all [] u = u
init_all (protocol ∷ protocols) u = init_all protocols (init protocol u)

abbrev pub warn : LogRecord → ProtocolPipeline → ProtocolPipeline
warn message s = record s { logger = s.logger ++ message ∷ [] }

abbrev pub State : Type 0
State = UserConnection Protocol × ProtocolPipeline

-- The part of `_get_pipeline` behind `get_path`.
abbrev pub with_chain : List Protocol → Option ProtocolPath → State → List Protocol × State
with_chain base none (connection, s) =
    let message =
      warn_no_chain connection.server_protocol connection.client_protocol connection.address in
    (
      base,
      (
        record connection { warned_no_chain = true; protocol_pipeline = some base },
        if connection.warned_no_chain then s else warn message s,
      ),
    )
with_chain base (some chain) (connection, s) = (
  base ++ chain,
  (
    record connection {
      user = init_all chain connection.user;
      protocol_pipeline = some (base ++ chain);
      clientbound_pipeline = some (base ++ reverse chain);
    },
    s,
  ),
)

abbrev pub built_or : Option (List Protocol) → State → List Protocol × State
built_or (some pipeline) state = (pipeline, state)
built_or none (connection, s) =
    let base = s.manager.base_protocols in
    if eqb_ℤ connection.client_protocol (pos 0)
    then (base, (connection, s))
    else if not (needs_translation connection.user)
    then (base, (record connection { protocol_pipeline = some base }, s))
    else let (chain, manager) =
        get_path connection.server_protocol connection.client_protocol s.manager in
      with_chain base chain (connection, record s { manager = manager })

unfoldable pub get_pipeline : UserConnection Protocol → ProtocolPipeline → List Protocol × State
get_pipeline connection s = built_or connection.protocol_pipeline (connection, s)

-- `event.payload` is only assigned when it changes.
abbrev pub settled : Outcome → PacketEvent → PacketEvent
settled (passed payload) event = record event { payload = payload }
settled cancelled event = record event { is_cancelled = true }
settled (failed exc protocol payload) event = record event { is_cancelled = true }

abbrev pub report : Direction → PacketEvent → Outcome → ProtocolPipeline → ProtocolPipeline
report direction event (passed payload) s = s
report direction event cancelled s = s
report direction event (failed exc protocol payload) s =
    let failure : Failure = record {
      exception = exc;
      direction = direction;
      packet_id = event.packet_id;
      protocol = protocol;
      address = event.address;
      payload = payload;
    } in
    record s { failures = s.failures ++ failure ∷ [] }

-- The connection is the object in the table: what handlers did to it stays there.
abbrev pub finish :
    Direction
    → PacketEvent
    → UserConnection Protocol
    → Outcome × User
    → ProtocolPipeline
    → PacketEvent × ProtocolPipeline
finish direction event connection (outcome, u) s = (
  settled outcome event,
  report direction event outcome (record s {
    connections = update_connection event.address (record connection { user = u }) s.connections;
  }),
)

unfoldable pub on_packet_receive : PacketEvent → ProtocolPipeline → PacketEvent × ProtocolPipeline
on_packet_receive event s =
    let (connection, connections) = get_or_create event.address s.connections in
    let (pipeline, (connection', s')) =
      get_pipeline connection (record s { connections = connections }) in
    finish serverbound event connection'
      (run serverbound event.packet_id pipeline event.payload connection'.user) s'

-- `connection.clientbound_pipeline or []`, once the pipeline is there.
abbrev pub sent_by :
    Option (List Protocol)
    → PacketEvent
    → UserConnection Protocol
    → ProtocolPipeline
    → PacketEvent × ProtocolPipeline
sent_by none event connection s = (event, s)
sent_by (some pipeline) event connection s =
    finish clientbound event connection
      (run clientbound event.packet_id (or_nil connection.clientbound_pipeline) event.payload
        connection.user)
      s

abbrev pub sent_to :
    Option (UserConnection Protocol)
    → PacketEvent
    → ProtocolPipeline
    → PacketEvent × ProtocolPipeline
sent_to none event s = (event, s)
sent_to (some connection) event s = sent_by connection.protocol_pipeline event connection s

unfoldable pub on_packet_send : PacketEvent → ProtocolPipeline → PacketEvent × ProtocolPipeline
on_packet_send event s = sent_to (get_connection event.address s.connections) event s

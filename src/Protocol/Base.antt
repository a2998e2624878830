-- ===== src/Protocol/Base.antt =====
-- protocol/base.py: the protocol that is always on.
pub mod Detect
pub mod Warning
use endweave.Prelude.{ℕ, true, some, List, ℤ, pos, String, if◌then◌else◌}
use endweave.Exec.{Exec, Result, ok, raised, pure, ◌>>=◌, ◌>>◌}
use endweave.Codec.FieldType.{int_be, var_int, string}
use endweave.Codec.Wrapper
use endweave.Codec.Wrapper.{read, write, passthrough}
use endweave.Connection.{User, LogRecord, debug_connected, warn_undecoded, warn_violation, log}
use endweave.Protocol.{
  Wrapper as PacketWrapper, PacketHandler, Protocol, create, register, serverbound, clientbound,
}

unfoldable pub detect_client_protocol : PacketHandler
detect_client_protocol = do
  connection ← Wrapper.user
  client_proto ← read int_be
  let connection' = record connection { client_protocol = client_proto }
  Wrapper.set_user connection'
  write int_be connection'.server_protocol
  Wrapper.set_user (log (debug_connected client_proto connection'.server_protocol) connection')

unfoldable pub rewrite_login : PacketHandler
rewrite_login = do
  connection ← Wrapper.user
  client_network_version ← read int_be
  write int_be connection.server_protocol

-- The fields that the `try` block of `_log_packet_violation` decodes.
pub record Violation : Type 0 where
  pub violation_type : ℤ
  pub severity : ℤ
  pub offending_packet_id : ℤ
  pub context : List ℕ

unfoldable pub decode_violation : Exec PacketWrapper Violation
decode_violation = do
  violation_type ← passthrough var_int
  severity ← passthrough var_int
  offending_packet_id ← passthrough var_int
  context ← passthrough string
  pure (record {
    violation_type = violation_type;
    severity = severity;
    offending_packet_id = offending_packet_id;
    context = context;
  })

-- The message names the numbers where the enums of the source know them.
abbrev pub violation_message : Result Violation → LogRecord
violation_message (ok v) =
    warn_violation v.violation_type v.severity v.offending_packet_id v.context
violation_message (raised e) = warn_undecoded

-- Any exception of the `try` block is caught; what was read and written before it stays so.
unfoldable pub log_packet_violation : PacketHandler
log_packet_violation = do
  connection ← Wrapper.user
  λ w.
      let (result, w') = decode_violation w in
      Wrapper.set_user (log (violation_message result) connection) w'

abbrev pub request_network_settings : ℕ
request_network_settings = 193

abbrev pub login : ℕ
login = 1

abbrev pub packet_violation_warning : ℕ
packet_violation_warning = 156

unfoldable pub create_base_protocol : ℤ → Protocol
create_base_protocol server_protocol =
    register clientbound packet_violation_warning log_packet_violation (
      register serverbound login rewrite_login (
        register serverbound request_network_settings detect_client_protocol
          (create server_protocol (pos 0) (some "base") true)))

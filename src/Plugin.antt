-- ===== src/Plugin.antt =====
-- plugin.py: the plugin's start, its login gate and its event handlers. Its messages, the update check
-- and the metrics are not modelled; the configured gate is given.
pub mod Enabled
pub mod Gate
use endweave.Prelude.{
  ℕ, Bool, true, false, Option, none, some, List, [], ◌∷◌, String, ℤ, pos, leb_ℤ, contains, int_eq,
  if◌then◌else◌,
}
use endweave.Connection.{UserConnection, get_connection, remove_by_address}
use endweave.Protocol.{Protocol}
use endweave.Protocol.Base.{create_base_protocol}
use endweave.Protocol.Manager.{
  ProtocolManager, empty, register, register_base, get_supported_versions,
}
use endweave.Pipeline.{PacketEvent, ProtocolPipeline, on_packet_receive, on_packet_send}

-- Endstone's event of a login, as far as the gate uses it.
pub record PlayerLoginEvent : Type 0 where
  pub address : String
  pub kick_message : Option String
  pub is_cancelled : Bool

pub record EndweavePlugin : Type 0 where
  pub pipeline : ProtocolPipeline
  pub supported_versions : List ℤ
  pub advertised_protocol : ℤ
  pub blocked_protocols : List ℤ
  pub block_message : String

-- `for factory in (...): self._register_protocol(factory())`
unfoldable pub register_all : List Protocol → ProtocolManager → ProtocolManager
register_all [] m = m
register_all (protocol ∷ protocols) m = register_all protocols (register protocol m)

-- `max` of a list that is not empty, from its first element on
abbrev pub max_from : ℤ → List ℤ → ℤ
max_from v [] = v
max_from v (w ∷ ws) = max_from (if leb_ℤ v w then w else v) ws

-- `max(supported) if supported else server_protocol`
abbrev pub max_or : ℤ → List ℤ → ℤ
max_or server_protocol [] = server_protocol
max_or server_protocol (v ∷ vs) = max_from v vs

unfoldable pub on_enable : ℤ → List Protocol → List ℤ → String → EndweavePlugin
on_enable server_protocol protocols blocked_protocols block_message =
    let m = register_all protocols (register_base (create_base_protocol server_protocol) empty) in
    let (supported, m') = get_supported_versions server_protocol m in
    record {
      pipeline = record {
        manager = m';
        connections = record { server_protocol = server_protocol; connections = [] };
        logger = [];
        failures = [];
      };
      supported_versions = supported;
      advertised_protocol = max_or server_protocol supported;
      blocked_protocols = blocked_protocols;
      block_message = block_message;
    }

-- `connection.client_protocol if connection is not None else 0`
abbrev pub protocol_or_zero : Option (UserConnection Protocol) → ℤ
protocol_or_zero none = pos 0
protocol_or_zero (some connection) = connection.client_protocol

abbrev refused : String → PlayerLoginEvent → PlayerLoginEvent
refused message event = record event { kick_message = some message; is_cancelled = true }

abbrev pub is_empty {ℓ} : {A : Type ℓ} → List A → Bool
is_empty [] = true
is_empty (x ∷ xs) = false

unfoldable pub on_player_login : PlayerLoginEvent → EndweavePlugin → PlayerLoginEvent
on_player_login event self =
    let protocol = protocol_or_zero (get_connection event.address self.pipeline.connections) in
    if is_empty self.blocked_protocols
    then event
    else if contains self.blocked_protocols protocol
    then refused self.block_message event
    else event

unfoldable pub on_player_quit : String → EndweavePlugin → EndweavePlugin
on_player_quit address self = record self {
  pipeline = record self.pipeline {
    connections = (remove_by_address address self.pipeline.connections).1;
  };
}

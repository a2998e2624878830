-- ===== src/Plugin/Gate.antt =====
-- plugin.py and pipeline.py: who may log in, from the first packet of a connection to its end.
use text.Mathlib.Text.{◌==◌}
use endweave.Prelude.{
  ℕ, ◌^◌, ◌≡◌, refl, ap, true, false, Option, none, some, List, [], ◌∷◌, ◌++◌, String, ℤ, pos,
  contains, lookup, insert, int_eq, nat_eq, string_eq, beq_refl, ◌∙◌, if◌then◌else◌,
}
use endweave.Codec.Word.{signed_word}
use endweave.Codec.Wrapper.{wrap}
use endweave.Connection.{
  User, UserConnection, new_connection, get_connection, get_or_create, debug_connected, log,
}
use endweave.Connection.Manager.{get_or_create_lem, remove_by_address_lem}
use endweave.Protocol.{Protocol, serverbound, create, register, transform, has_handler_or_cancel}
use endweave.Protocol.Base.{request_network_settings, create_base_protocol}
use endweave.Protocol.Base.Detect.{version_bytes, Forwards, detect_client_protocol_lem}
use endweave.Pipeline.{
  PacketEvent, ProtocolPipeline, passed, run, get_pipeline, finish, on_packet_receive,
}
use endweave.Pipeline.Events.{finish-other, on_packet_receive-other}
use endweave.Pipeline.Forwarded.{run-Forwards}
use endweave.Plugin.{
  EndweavePlugin, PlayerLoginEvent, is_empty, on_player_login, on_player_quit, protocol_or_zero,
}

-- The event of a login at `address`, before any handler saw it.
abbrev pub arriving : String → PlayerLoginEvent
arriving address = record { address = address; kick_message = none; is_cancelled = false }

-- What the gate is to answer to a client of protocol `version`.
abbrev pub answer : List ℤ → String → ℤ → String → PlayerLoginEvent
answer blocked message version address =
    if contains blocked version
    then record { address = address; kick_message = some message; is_cancelled = true }
    else arriving address

-- The gate tests the version that the connection has, or 0.
gate :
    (address : String) (self : EndweavePlugin) (found : Option (UserConnection Protocol))
    → get_connection address self.pipeline.connections ≡ found
    → on_player_login (arriving address) self
      ≡ answer self.blocked_protocols self.block_message (protocol_or_zero found) address
unfolding on_player_login contains
gate address self found e = rw e (cases self.blocked_protocols)
  where
    cases :
        (blocked : List ℤ)
        → (if is_empty blocked
            then arriving address
            else if contains blocked (protocol_or_zero found)
            then record {
              address = address;
              kick_message = some self.block_message;
              is_cancelled = true;
            }
            else arriving address)
          ≡ answer blocked self.block_message (protocol_or_zero found) address
    cases [] = refl
    cases (b ∷ blocked) = refl

-- The request for the network settings, which carries the client's protocol.
abbrev pub asking : String → ℕ → List ℕ → PacketEvent
asking address word rest = record {
  address = address;
  packet_id = request_network_settings;
  payload = version_bytes word ++ rest;
  is_cancelled = false;
}

base-handles :
    (p : ℤ)
    → has_handler_or_cancel serverbound request_network_settings (create_base_protocol p) ≡ true
unfolding has_handler_or_cancel create_base_protocol register create lookup insert contains
base-handles p = refl

base-Forwards :
    (p : ℤ) (u : User) (client : ℤ) (word server_word : ℕ) (rest : List ℕ)
    → signed_word (256 ^ 4) client ≡ some word
    → signed_word (256 ^ 4) u.server_protocol ≡ some server_word
    → Forwards
        (transform serverbound request_network_settings
          (create_base_protocol p)
          (wrap (version_bytes word ++ rest) (some u)))
        (version_bytes server_word ++ rest)
        (log (debug_connected client u.server_protocol) (record u { client_protocol = client }))
unfolding transform create_base_protocol register create lookup insert contains
base-Forwards p u client word server_word rest h k =
    detect_client_protocol_lem u client word server_word rest h k

get_pipeline-new :
    (address : String) (server_protocol : ℤ) (s : ProtocolPipeline)
    → get_pipeline (new_connection address server_protocol) s
      ≡ (s.manager.base_protocols, (new_connection address server_protocol, s))
unfolding get_pipeline
get_pipeline-new address server_protocol s = refl

module _ (address : String) (client server_protocol : ℤ) (word server_word : ℕ) (rest : List ℕ)
    (self : EndweavePlugin) (is_client : signed_word (256 ^ 4) client ≡ some word)
    (is_server : signed_word (256 ^ 4) self.pipeline.connections.server_protocol ≡ some server_word)
    (is_base : self.pipeline.manager.base_protocols ≡ create_base_protocol server_protocol ∷ [])
    (is_new : get_connection address self.pipeline.connections ≡ none) where
  abbrev s : ProtocolPipeline
  s = self.pipeline

  abbrev event : PacketEvent
  event = asking address word rest

  -- The plugin once the pipeline has taken the request.
  abbrev asked : EndweavePlugin
  asked = record self { pipeline = (on_packet_receive event s).1 }

  abbrev new : UserConnection Protocol
  new = new_connection address s.connections.server_protocol

  abbrev learnt : User
  learnt =
      log (debug_connected client new.server_protocol)
        (record new.user { client_protocol = client })

  run-base :
      run serverbound request_network_settings s.manager.base_protocols event.payload new.user
      ≡ (passed (version_bytes server_word ++ rest), learnt)
  unfolding run
  run-base = rw is_base (
      run-Forwards serverbound request_network_settings (create_base_protocol server_protocol) []
        event.payload _ new.user (base-handles server_protocol)
        (base-Forwards server_protocol new.user client word server_word rest is_client is_server))

  created-new : (get_or_create address s.connections).0 ≡ new
  created-new = rw ((get_or_create_lem address address s.connections).1, is_new) refl

  finish-new :
      (s' : ProtocolPipeline)
      → get_connection address
          (finish serverbound event new
            (passed (version_bytes server_word ++ rest), learnt)
            s').1.connections
        ≡ some (record new { user = learnt })
  finish-new s' =
      finish-other serverbound event new (passed (version_bytes server_word ++ rest), learnt) s'
        address
      ∙ ap
          (λ b.
            if b
            then some (record new { user = learnt })
            else get_connection address s'.connections)
          (beq_refl address)

  asked-connection :
      get_connection address asked.pipeline.connections ≡ some (record new { user = learnt })
  unfolding on_packet_receive
  asked-connection =
      rw (created-new, get_pipeline-new address s.connections.server_protocol _, run-base)
        (finish-new (record s { connections = (get_or_create address s.connections).1 }))

  -- A client that has no connection yet asks a server whose base protocols are those of the start, with
  -- the number of its protocol in the request; both numbers fit a signed word of 32 bits. Then its login
  -- is refused with the message exactly if its protocol is blocked. The login of another address
  -- without a connection, and its own after it has left, are tested with protocol 0. An event that is
  -- not refused stays as it was.
  pub on_player_login-asked :
      (other : String)
      → (address == other) ≡ false
      → get_connection other self.pipeline.connections ≡ none
      → (on_player_login (arriving address) asked
          ≡ answer self.blocked_protocols self.block_message client address)
        × (on_player_login (arriving other) asked
            ≡ answer self.blocked_protocols self.block_message (pos 0) other)
        × (on_player_login (arriving address) (on_player_quit address asked)
            ≡ answer self.blocked_protocols self.block_message (pos 0) address)
  unfolding on_player_quit
  on_player_login-asked other different absent = (
    gate address asked _ asked-connection,
    gate other asked none (on_packet_receive-other event s other different ∙ absent),
    gate address (on_player_quit address asked) none (
        (remove_by_address_lem address address asked.pipeline.connections).0
        ∙ ap (λ b. if b then none else get_connection address asked.pipeline.connections)
            (beq_refl address)),
  )

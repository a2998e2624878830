-- ===== src/Protocol.antt =====
-- protocol/__init__.py: `Protocol`, and the classes that build one.
pub mod Transform
pub mod MappingData
pub mod Manager
pub mod Base
use endweave.Prelude.{
  ℕ, Bool, false, ◌||◌, Option, none, some, List, [], ◌∷◌, ◌++◌, String, ℤ, Dict, lookup, insert,
  contains, nat_eq, if◌then◌else◌,
}
use endweave.Exec.{Exec, pure}
use endweave.Codec.Wrapper.{PacketWrapper, cancel}
use endweave.Connection.{User, is_some}

-- protocol/direction.py
pub data Direction : Type 0 where
  serverbound clientbound : Direction

abbrev pub Wrapper : Type 0
Wrapper = PacketWrapper User

abbrev pub PacketHandler : Type 0
PacketHandler = Exec Wrapper (Unit {0})

-- `name or f"{server_protocol}->{client_protocol}"`
pub data ProtocolName : Type 0 where
  named : String → ProtocolName
  versions : ℤ → ℤ → ProtocolName

-- The tables that the source keeps in a dict by direction.
pub record Tables : Type 0 where
  pub handlers : Dict ℕ PacketHandler
  pub cancel : List ℕ

pub record Protocol : Type 0 where
  pub server_protocol : ℤ
  pub client_protocol : ℤ
  pub name : ProtocolName
  pub is_base : Bool
  pub clientbound_tables : Tables
  pub serverbound_tables : Tables

abbrev no_tables : Tables
no_tables = record { handlers = []; cancel = [] }

abbrev named_or_versions : Option String → ℤ → ℤ → ProtocolName
named_or_versions (some name) server_protocol client_protocol = named name
named_or_versions none server_protocol client_protocol = versions server_protocol client_protocol

-- `Protocol(server_protocol, client_protocol, name, is_base)`; no name is the empty default.
unfoldable pub create : ℤ → ℤ → Option String → Bool → Protocol
create server_protocol client_protocol name is_base = record {
  server_protocol = server_protocol;
  client_protocol = client_protocol;
  name = named_or_versions name server_protocol client_protocol;
  is_base = is_base;
  clientbound_tables = no_tables;
  serverbound_tables = no_tables;
}

abbrev pub tables : Direction → Protocol → Tables
tables serverbound p = p.serverbound_tables
tables clientbound p = p.clientbound_tables

abbrev pub set_tables : Direction → Tables → Protocol → Protocol
set_tables serverbound t p = record p { serverbound_tables = t }
set_tables clientbound t p = record p { clientbound_tables = t }

-- `register_clientbound` and `register_serverbound`
unfoldable pub register : Direction → ℕ → PacketHandler → Protocol → Protocol
register direction packet_id handler p =
    let t = tables direction p in
    set_tables direction (record t { handlers = insert packet_id handler t.handlers }) p

-- `cancel_clientbound` and `cancel_serverbound`
unfoldable pub cancel_packets : Direction → List ℕ → Protocol → Protocol
cancel_packets direction packet_ids p =
    let t = tables direction p in
    set_tables direction (record t { cancel = packet_ids ++ t.cancel }) p

-- `init` does nothing, and no protocol of the program overrides it.
abbrev pub init : Protocol → User → User
init p connection = connection

unfoldable pub has_handler_or_cancel : Direction → ℕ → Protocol → Bool
has_handler_or_cancel direction packet_id p =
    is_some (lookup packet_id (tables direction p).handlers)
    || contains (tables direction p).cancel packet_id

abbrev pub handle : Option PacketHandler → PacketHandler
handle none = pure tt
handle (some handler) = handler

unfoldable pub transform : Direction → ℕ → Protocol → PacketHandler
transform direction packet_id p =
    if contains (tables direction p).cancel packet_id
    then cancel
    else handle (lookup packet_id (tables direction p).handlers)

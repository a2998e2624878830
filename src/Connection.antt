-- ===== src/Connection.antt =====
-- connection.py: the state of one player's connection, and the table of all connections.
pub mod Storage
pub mod Manager
use endweave.Prelude.{
  ℕ, Bool, true, false, not, ◌&&◌, Option, none, some, List, [], ◌∷◌, ◌++◌, String, ℤ, pos, eqb_ℤ,
  Dict, lookup, insert, remove, string_eq,
}

-- What is sent to the logger: the level, and what the message tells.
pub data LogRecord : Type 0 where
  -- protocol/base.py
  debug_connected : ℤ → ℤ → LogRecord
  warn_undecoded : LogRecord
  warn_violation : ℤ → ℤ → ℤ → List ℕ → LogRecord
  -- pipeline.py
  warn_no_chain : ℤ → ℤ → String → LogRecord

-- An object that a handler stores, known by its class and its identity.
pub record StoredObject : Type 0 where
  pub cls : String
  pub identity : ℕ

-- The part of `UserConnection` that handlers work on; `logger` is what was logged, oldest first.
pub record User : Type 0 where
  pub address : String
  pub logger : List LogRecord
  pub client_protocol : ℤ
  pub server_protocol : ℤ
  pub storage : Dict String StoredObject

abbrev pub log : LogRecord → User → User
log message u = record u { logger = u.logger ++ message ∷ [] }

abbrev pub needs_translation : User → Bool
needs_translation u =
    not (eqb_ℤ u.client_protocol (pos 0)) && not (eqb_ℤ u.client_protocol u.server_protocol)

unfoldable pub get : String → User → Option StoredObject
get cls u = lookup cls u.storage

unfoldable pub put : StoredObject → User → User
put obj u = record u { storage = insert obj.cls obj u.storage }

abbrev pub is_some {ℓ} : {A : Type ℓ} → Option A → Bool
is_some none = false
is_some (some a) = true

unfoldable pub has : String → User → Bool
has cls u = is_some (lookup cls u.storage)

unfoldable pub remove_stored : String → User → User
remove_stored cls u = record u { storage = remove cls u.storage }

unfoldable pub clear_storage : User → User
clear_storage u = record u { storage = [] }

-- `UserConnection`, with the cached lists of protocols, which are of a type `P`.
pub record UserConnection (P : Type 0) : Type 0 where
  pub user : User
  pub open user use *
  pub warned_no_chain : Bool
  pub protocol_pipeline : Option (List P)
  pub clientbound_pipeline : Option (List P)

pub record ConnectionManager (P : Type 0) : Type 0 where
  pub server_protocol : ℤ
  pub connections : Dict String (UserConnection P)

module _ {P : Type 0} where
  abbrev pub new_connection : String → ℤ → UserConnection P
  new_connection address server_protocol = record {
    user = record {
      address = address;
      logger = [];
      client_protocol = pos 0;
      server_protocol = server_protocol;
      storage = [];
    };
    warned_no_chain = false;
    protocol_pipeline = none;
    clientbound_pipeline = none;
  }

  abbrev created_if :
      Option (UserConnection P)
      → String
      → ConnectionManager P
      → UserConnection P × ConnectionManager P
  created_if (some connection) address m = (connection, m)
  created_if none address m =
      let connection = new_connection address m.server_protocol in
      (connection, record m { connections = insert address connection m.connections })

  unfoldable pub get_or_create :
      String → ConnectionManager P → UserConnection P × ConnectionManager P
  get_or_create address m = created_if (lookup address m.connections) address m

  unfoldable pub get_connection : String → ConnectionManager P → Option (UserConnection P)
  get_connection address m = lookup address m.connections

  -- The object is shared with the table: a change of it is a change of the entry.
  unfoldable pub update_connection :
      String → UserConnection P → ConnectionManager P → ConnectionManager P
  update_connection address connection m = record m {
    connections = insert address connection m.connections;
  }

  -- `remove_by_address`, and `remove_by_player` at the player's address. The storage of the
  -- connection that leaves is cleared; the result is that connection.
  abbrev cleared : Option (UserConnection P) → Option (UserConnection P)
  cleared none = none
  cleared (some c) = some (record c { user = clear_storage c.user })

  unfoldable pub remove_by_address :
      String → ConnectionManager P → Option (UserConnection P) × ConnectionManager P
  unfolding clear_storage
  remove_by_address address m = (
    cleared (lookup address m.connections),
    record m { connections = remove address m.connections },
  )

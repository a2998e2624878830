-- ===== src/Protocol/Manager.antt =====
-- protocol/manager.py: `ProtocolManager`, the search for a chain of protocols and its cache.
pub mod Search
pub mod Cache
pub mod Route
pub mod Supported
use endweave.Prelude.{
  ℕ, zero, suc, ◌+◌, Bool, true, false, Option, none, some, List, [], ◌∷◌, ◌++◌, ℤ, eqb_ℤ, leb_ℤ,
  Dict, lookup, insert, contains, int_eq, pair_eq, length, if◌then◌else◌,
}
use endweave.Protocol.{Protocol}

abbrev pub ProtocolPath : Type 0
ProtocolPath = List Protocol

pub record ProtocolManager : Type 0 where
  pub protocols : Dict (ℤ × ℤ) Protocol
  pub base_protocols : List Protocol
  pub path_cache : Dict (ℤ × ℤ) (Option ProtocolPath)

abbrev pub empty : ProtocolManager
empty = record { protocols = []; base_protocols = []; path_cache = [] }

-- `register` clears the cache.
unfoldable pub register : Protocol → ProtocolManager → ProtocolManager
register protocol m = record m {
  protocols = insert (protocol.server_protocol, protocol.client_protocol) protocol m.protocols;
  path_cache = [];
}

unfoldable pub register_base : Protocol → ProtocolManager → ProtocolManager
register_base protocol m = record m { base_protocols = m.base_protocols ++ protocol ∷ [] }

unfoldable pub get : ℤ → ℤ → ProtocolManager → Option Protocol
get server_protocol client_protocol m = lookup (server_protocol, client_protocol) m.protocols

abbrev pub or_nil {ℓ} : {A : Type ℓ} → Option (List A) → List A
or_nil none = []
or_nil (some xs) = xs

-- `adjacency.setdefault(c, []).append(protocol)`, for each entry
unfoldable pub adjacency_from :
    Dict ℤ (List Protocol) → Dict (ℤ × ℤ) Protocol → Dict ℤ (List Protocol)
adjacency_from adjacency [] = adjacency
adjacency_from adjacency (((s, c), protocol) ∷ entries) =
    adjacency_from (insert c (or_nil (lookup c adjacency) ++ protocol ∷ []) adjacency) entries

-- `adjacency.get(current, [])`
unfoldable pub edges : Dict (ℤ × ℤ) Protocol → ℤ → List Protocol
unfolding adjacency_from
edges protocols current = or_nil (lookup current (adjacency_from [] protocols))

abbrev pub Queue : Type 0
Queue = List (ℤ × ProtocolPath)

-- The inner loop either returns a path, or goes on with `visited` and `queue`.
pub data Scan : Type 0 where
  found : ProtocolPath → Scan
  going : List ℤ → Queue → Scan

unfoldable pub scan : ℤ → ProtocolPath → List Protocol → List ℤ → Queue → Scan
scan target path [] visited queue = going visited queue
scan target path (protocol ∷ protocols) visited queue =
    let next_proto = protocol.server_protocol in
    let seen = contains visited next_proto in
    let rest =
      scan target path protocols (if seen then visited else next_proto ∷ visited)
        (if seen then queue else queue ++ (next_proto, path ++ protocol ∷ []) ∷ []) in
    if eqb_ℤ next_proto target then found (path ++ protocol ∷ []) else rest

pub data Outcome : Type 0 where
  returned : ProtocolPath → Outcome
  unreachable out_of_fuel : Outcome

module _ (protocols : Dict (ℤ × ℤ) Protocol) (target : ℤ) where
  -- A round of the `while` loop for each entry that leaves the queue.
  unfoldable pub loop : ℕ → List ℤ → Queue → Outcome
  loop fuel visited [] = unreachable
  loop zero visited ((current, path) ∷ queue) = out_of_fuel
  loop (suc fuel) visited ((current, path) ∷ queue) =
      elim (scan target path (edges protocols current) visited queue) [
        | found result ↦ returned result
        | going visited' queue' ↦ loop fuel visited' queue'
      ]

  -- A version enters the queue once, so there are at most as many rounds as protocols, and one.
  unfoldable pub bfs : ℤ → Outcome
  bfs client_protocol =
      loop (suc (length protocols)) (client_protocol ∷ []) ((client_protocol, []) ∷ [])

-- Running out of fuel would be no path.
abbrev pub path_of : Outcome → Option ProtocolPath
path_of (returned path) = some path
path_of unreachable = none
path_of out_of_fuel = none

-- The path that `get_path` looks for when the cache does not have it.
abbrev pub direct_or_bfs : Option Protocol → Option ProtocolPath → Option ProtocolPath
direct_or_bfs (some direct) path = some (direct ∷ [])
direct_or_bfs none path = path

unfoldable pub find_path : ℤ → ℤ → ProtocolManager → Option ProtocolPath
find_path server_protocol client_protocol m =
    direct_or_bfs (get server_protocol client_protocol m)
      (path_of (bfs m.protocols server_protocol client_protocol))

abbrev pub cached_or :
    Option (Option ProtocolPath)
    → ℤ
    → ℤ
    → Option ProtocolPath
    → ProtocolManager
    → Option ProtocolPath × ProtocolManager
cached_or (some cached) server_protocol client_protocol path m = (cached, m)
cached_or none server_protocol client_protocol path m =
    (path, record m { path_cache = insert (server_protocol, client_protocol) path m.path_cache })

unfoldable pub get_path : ℤ → ℤ → ProtocolManager → Option ProtocolPath × ProtocolManager
get_path server_protocol client_protocol m =
    if eqb_ℤ server_protocol client_protocol
    then (some [], m)
    else cached_or (lookup (server_protocol, client_protocol) m.path_cache) server_protocol
        client_protocol (find_path server_protocol client_protocol m) m

-- `sorted` of a set, as a list without repetitions
abbrev pub insert_sorted : ℤ → List ℤ → List ℤ
insert_sorted v [] = v ∷ []
insert_sorted v (w ∷ ws) = if leb_ℤ v w then v ∷ w ∷ ws else w ∷ insert_sorted v ws

unfoldable pub sorted : List ℤ → List ℤ
sorted [] = []
sorted (v ∷ vs) = insert_sorted v (sorted vs)

abbrev pub add : ℤ → List ℤ → List ℤ
add v s = if contains s v then s else v ∷ s

abbrev pub add_if : Option ProtocolPath → ℤ → List ℤ → List ℤ
add_if none v s = s
add_if (some path) v s = add v s

unfoldable pub supported_from :
    ℤ → List ((ℤ × ℤ) × Protocol) → List ℤ → ProtocolManager → List ℤ × ProtocolManager
supported_from server_protocol [] supported m = (supported, m)
supported_from server_protocol (((s, client_protocol), p) ∷ entries) supported m =
    let (path, m') = get_path server_protocol client_protocol m in
    supported_from server_protocol entries (add_if path client_protocol supported) m'

unfoldable pub get_supported_versions : ℤ → ProtocolManager → List ℤ × ProtocolManager
unfolding sorted
get_supported_versions server_protocol m =
    let (supported, m') = supported_from server_protocol m.protocols (server_protocol ∷ []) m in
    (sorted supported, m')

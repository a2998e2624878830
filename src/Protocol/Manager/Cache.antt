-- ===== src/Protocol/Manager/Cache.antt =====
-- protocol/manager.py: the cache of paths, and the managers that can be reached.
use endweave.Prelude.{
  ◌≡◌, refl, Option, none, some, [], ℤ, eqb_ℤ, lookup, lookup-insert, pair_eq, eqb_pair,
  eqb_pair_iff, if◌then◌else◌, arith, Bool-cases, inl, inr,
}
use endweave.Protocol.{Protocol}
use endweave.Protocol.Manager.{
  ProtocolManager, ProtocolPath, empty, register, register_base, get, find_path, get_path,
  cached_or,
}

-- Every entry of the cache is the path that a search finds now.
abbrev pub IsCoherent : ProtocolManager → Type 0
IsCoherent m =
    (s c : ℤ) (cached : Option ProtocolPath)
    → lookup (s, c) m.path_cache ≡ some cached
    → cached ≡ find_path s c m

-- What the plugin does to the manager over time.
pub data Step : ProtocolManager → ProtocolManager → Type 0 where
  registering : (p : Protocol) (m : ProtocolManager) → Step m (register p m)
  registering_base : (p : Protocol) (m : ProtocolManager) → Step m (register_base p m)
  asking : (s c : ℤ) (m : ProtocolManager) → Step m (get_path s c m).1

pub data Reach : ProtocolManager → Type 0 where
  start : Reach empty
  next : {m n : ProtocolManager} → Reach m → Step m n → Reach n

-- A search reads the registered protocols alone.
pub find_path-protocols :
    (s c : ℤ) (m n : ProtocolManager)
    → m.protocols ≡ n.protocols
    → find_path s c m ≡ find_path s c n
unfolding find_path get
find_path-protocols s c m n e = rw e

module _ (s c : ℤ) (m : ProtocolManager) (h : IsCoherent m) where
  cached_or-IsCoherent :
      (cached : Option (Option ProtocolPath))
      → IsCoherent (cached_or cached s c (find_path s c m) m).1
  cached_or-IsCoherent (some x) s' c' found e = h s' c' found e
  cached_or-IsCoherent none s' c' found e =
      let m' = (cached_or none s c (find_path s c m) m).1 in
      elim (Bool-cases (eqb_pair (s, c) (s', c'))) [
        | inl same ↦ ground (
          arith,
          (eqb_pair_iff (s, c) (s', c')).0 same,
          find_path-protocols s' c' m m' refl,
          lookup-insert (s, c) (s', c') (find_path s c m) m.path_cache,
        )
        | inr other ↦ ground (
          arith,
          h s' c' found,
          find_path-protocols s' c' m m' refl,
          lookup-insert (s, c) (s', c') (find_path s c m) m.path_cache,
        )
      ]

  cached_or-eq :
      (cached : Option (Option ProtocolPath))
      → lookup (s, c) m.path_cache ≡ cached
      → (cached_or cached s c (find_path s c m) m).0 ≡ find_path s c m
  cached_or-eq (some x) e = h s c x e
  cached_or-eq none e = refl

  get_path-IsCoherent : IsCoherent (get_path s c m).1
  unfolding get_path
  get_path-IsCoherent = elim (Bool-cases (eqb_ℤ s c)) [
    | inl same ↦ rw same h
    | inr other ↦ rw other (cached_or-IsCoherent (lookup (s, c) m.path_cache))
  ]

  get_path-find_path : (get_path s c m).0 ≡ (if eqb_ℤ s c then some [] else find_path s c m)
  unfolding get_path
  get_path-find_path = elim (Bool-cases (eqb_ℤ s c)) [
    | inl same ↦ rw same
    | inr other ↦ rw other (cached_or-eq (lookup (s, c) m.path_cache) refl)
  ]

register-IsCoherent : (p : Protocol) (m : ProtocolManager) → IsCoherent (register p m)
unfolding register lookup
register-IsCoherent p m s c cached e = cc

Step-IsCoherent : {m n : ProtocolManager} → Step m n → IsCoherent m → IsCoherent n
Step-IsCoherent (registering p m) h = register-IsCoherent p m
Step-IsCoherent (registering_base p m) h =
    λ s c cached e. unfold register_base find_path get in h s c cached e
Step-IsCoherent (asking s c m) h = get_path-IsCoherent s c m h

empty-IsCoherent : IsCoherent empty
unfolding lookup
empty-IsCoherent s c cached e = cc

Reach-IsCoherent : {m : ProtocolManager} → Reach m → IsCoherent m
Reach-IsCoherent start = empty-IsCoherent
Reach-IsCoherent (next r st) = Step-IsCoherent st (Reach-IsCoherent r)

-- In every manager that registrations and queries lead to, in any order, `get_path` answers what a
-- search of the protocols that are registered now would: the empty path for equal versions, else a
-- direct protocol, else the path of the search.
pub get_path_fresh :
    (s c : ℤ) {m : ProtocolManager}
    → Reach m
    → (get_path s c m).0 ≡ (if eqb_ℤ s c then some [] else find_path s c m)
get_path_fresh s c {m} r = get_path-find_path s c m (Reach-IsCoherent r)

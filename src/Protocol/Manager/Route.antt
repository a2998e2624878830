-- ===== src/Protocol/Manager/Route.antt =====
-- protocol/manager.py: `get_path` in the managers that can be reached.
use mathlib.Core.List.{Memᴰ}
use mathlib.Core.List.Memᴰ
use mathlib.Core.Path.{subst}
use endweave.Prelude.{
  ◌≤◌, ◌≡◌, ◌≢◌, sym, ap, ◌∙◌, ◌⊎◌, inl, inr, Option, none, some, [], ◌∷◌, ℤ, eqb_ℤ, eqb_ℤ_iff,
  Dict, lookup, insert, pair_eq, eqb_pair, eqb_pair_iff, length, arith, Bool-cases, Option-cases,
}
use endweave.Protocol.{Protocol}
use endweave.Protocol.Manager.{
  ProtocolManager, ProtocolPath, Outcome, returned, unreachable, out_of_fuel, register,
  register_base, get, get_path, find_path, path_of, bfs,
}
use endweave.Protocol.Manager.Cache.{
  Step, registering, registering_base, asking, Reach, start, next, get_path_fresh,
}
use endweave.Protocol.Manager.Search.{Chain, stop, hop, Chain-nil}
use endweave.Protocol.Manager.Search.Edges.{edges-for_client, for_client-mem}
use endweave.Protocol.Manager.Search.Correct.{Answers, bfs-Answers}

-- Every protocol is registered under its own pair of versions.
abbrev pub IsKeyed : ProtocolManager → Type 0
IsKeyed m =
    (key : ℤ × ℤ) (p : Protocol)
    → Memᴰ (key, p) m.protocols
    → (p.server_protocol ≡ key.0) × (p.client_protocol ≡ key.1)

mem-insert :
    (k : ℤ × ℤ) (v : Protocol) (d : Dict (ℤ × ℤ) Protocol) (key : ℤ × ℤ) (p : Protocol)
    → Memᴰ (key, p) (insert k v d)
    → ((key ≡ k) × (p ≡ v)) ⊎ Memᴰ (key, p) d
unfolding insert
mem-insert k v [] key p m =
    let e = Memᴰ.eq_of_singleton m in
    inl (ap (λ (x : (ℤ × ℤ) × Protocol). x.0) e, ap (λ (x : (ℤ × ℤ) × Protocol). x.1) e)
mem-insert k v ((j, w) ∷ d) key p m = elim (Bool-cases (eqb_pair j k)) [
  | inl same ↦ elim (Memᴰ.cases_cons (rw same at m)) [
    | inl e ↦ inl (
      ap (λ (x : (ℤ × ℤ) × Protocol). x.0) e ∙ (eqb_pair_iff j k).0 same,
      ap (λ (x : (ℤ × ℤ) × Protocol). x.1) e,
    )
    | inr m' ↦ inr (Memᴰ.tail m')
  ]
  | inr other ↦ elim (Memᴰ.cases_cons (rw other at m)) [
    | inl e ↦ inr (Memᴰ.head e)
    | inr m' ↦ elim (mem-insert k v d key p m') [ inl e ↦ inl e | inr m'' ↦ inr (Memᴰ.tail m'') ]
  ]
]

lookup-mem :
    (k : ℤ × ℤ) (d : Dict (ℤ × ℤ) Protocol) {p : Protocol} → lookup k d ≡ some p → Memᴰ (k, p) d
unfolding lookup
lookup-mem k [] e = absurd (cc)
lookup-mem k ((j, w) ∷ d) {p} e = elim (Bool-cases (eqb_pair j k)) [
  | inl same ↦
      let at_key : j ≡ k = (eqb_pair_iff j k).0 same in
      let value : some w ≡ some p = (rw same at e) in Memᴰ.head (cc)
  | inr other ↦ Memᴰ.tail (lookup-mem k d (rw other at e))
]

register-IsKeyed : (p : Protocol) (m : ProtocolManager) → IsKeyed m → IsKeyed (register p m)
unfolding register
register-IsKeyed p m h key q k =
    elim (mem-insert (p.server_protocol, p.client_protocol) p m.protocols key q k) [
      | inl (e, same) ↦ (
        ap (λ (r : Protocol). r.server_protocol) same ∙ sym (ap (λ (x : ℤ × ℤ). x.0) e),
        ap (λ (r : Protocol). r.client_protocol) same ∙ sym (ap (λ (x : ℤ × ℤ). x.1) e),
      )
      | inr old ↦ h key q old
    ]

pub get_path-protocols :
    (s c : ℤ) (m : ProtocolManager) → (get_path s c m).1.protocols ≡ m.protocols
unfolding get_path
get_path-protocols s c m = ground arith

Step-IsKeyed : {m n : ProtocolManager} → Step m n → IsKeyed m → IsKeyed n
Step-IsKeyed (registering p m) h = register-IsKeyed p m h
Step-IsKeyed (registering_base p m) h = unfold register_base in h
Step-IsKeyed (asking s c m) h = λ key p k. h key p (rw (get_path-protocols s c m) at k)

pub Reach-IsKeyed : {m : ProtocolManager} → Reach m → IsKeyed m
Reach-IsKeyed start = λ key p k. absurd (Memᴰ.not-nil k)
Reach-IsKeyed (next r st) = Step-IsKeyed st (Reach-IsKeyed r)

-- What an answer for the versions `c` of the client and `s` of the server must be.
abbrev pub IsRoute : ProtocolManager → ℤ → ℤ → Option ProtocolPath → Type 0
IsRoute m c s none = (ps : ProtocolPath) → ¬ Chain m.protocols c s ps
IsRoute m c s (some path) =
    Chain m.protocols c s path
    × ((ps : ProtocolPath) → Chain m.protocols c s ps → length path ≤ length ps)

module _ (m : ProtocolManager) (s c : ℤ) where
  same_versions : s ≡ c → IsRoute m c s (some [])
  same_versions e = (subst (λ v. Chain m.protocols c v []) (sym e) stop, λ ps k. omega arith)

  direct-IsRoute :
      IsKeyed m → s ≢ c → (p : Protocol) → get s c m ≡ some p → IsRoute m c s (some (p ∷ []))
  unfolding get
  direct-IsRoute h ne p e =
      let found = lookup-mem (s, c) m.protocols e in
      let edge = for_client-mem c m.protocols found in
      (
        hop (rw (edges-for_client m.protocols c) edge)
            (subst (λ v. Chain m.protocols p.server_protocol v []) (h (s, c) p found).0 stop),
        λ ps k. positive ps k,
      )
    where
      positive : (ps : ProtocolPath) → Chain m.protocols c s ps → 1 ≤ length ps
      positive [] k = absurd (ne (sym (Chain-nil m.protocols k)))
      positive (q ∷ ps) k = omega arith

  searched-IsRoute : (o : Outcome) → Answers m.protocols c s o → IsRoute m c s (path_of o)
  searched-IsRoute (returned path) h = h
  searched-IsRoute unreachable h = h
  searched-IsRoute out_of_fuel h = absurd h

  find_path-IsRoute : IsKeyed m → s ≢ c → IsRoute m c s (find_path s c m)
  unfolding find_path
  find_path-IsRoute h ne = elim (Option-cases (get s c m)) [
    | inl e ↦
        rw e
          (searched-IsRoute (bfs m.protocols s c) (bfs-Answers m.protocols c s (λ k. ne (sym k))))
    | inr (p, e) ↦ rw e (direct-IsRoute h ne p e)
  ]

-- In every manager that registrations and queries lead to, in any order: a path that `get_path`
-- returns is a chain of registered protocols from the client's version to the server's, and no
-- chain is shorter; it returns None only if there is no chain.
pub get_path_correct : (s c : ℤ) {m : ProtocolManager} → Reach m → IsRoute m c s (get_path s c m).0
get_path_correct s c {m} r = elim (Bool-cases (eqb_ℤ s c)) [
  | inl same ↦ rw (get_path_fresh s c r, same) (same_versions m s c ((eqb_ℤ_iff s c).0 same))
  | inr other ↦
      rw (get_path_fresh s c r, other)
        (find_path-IsRoute m s c (Reach-IsKeyed r) (λ e. cc (other, (eqb_ℤ_iff s c).1 e)))
]

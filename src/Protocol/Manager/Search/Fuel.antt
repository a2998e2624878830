-- ===== src/Protocol/Manager/Search/Fuel.antt =====
-- How many rounds the search can take: the versions that are not visited yet.
use mathlib.Core.List.{Memᴰ}
use mathlib.Core.List.Memᴰ
use endweave.Prelude.{
  ℕ, ◌+◌, ◌≤◌, ◌<◌, ◌≡◌, ap, false, List, [], ◌∷◌, ℤ, Dict, contains, int_eq, arith, length, inl,
  inr, if◌then◌else◌, beq_refl,
}
use endweave.Protocol.{Protocol}
use endweave.Protocol.Manager.{edges}
use endweave.Protocol.Manager.Search.Edges.{contains-cons, edges-for_client, mem-for_client}

-- The registered protocols whose server version is not visited.
unfoldable pub unseen : List ℤ → Dict (ℤ × ℤ) Protocol → ℕ
unseen visited [] = 0
unseen visited ((key, p) ∷ entries) =
    (if contains visited p.server_protocol then 0 else 1) + unseen visited entries

pub unseen-le-length :
    (visited : List ℤ) (entries : Dict (ℤ × ℤ) Protocol) → unseen visited entries ≤ length entries
unfolding unseen
unseen-le-length visited [] = omega arith
unseen-le-length visited ((key, p) ∷ entries) = ground (arith, unseen-le-length visited entries)

unseen-le :
    (visited : List ℤ) (v : ℤ) (entries : Dict (ℤ × ℤ) Protocol)
    → unseen (v ∷ visited) entries ≤ unseen visited entries
unfolding unseen
unseen-le visited v [] = omega arith
unseen-le visited v ((key, p) ∷ entries) =
    ground (arith, contains-cons visited v p.server_protocol, unseen-le visited v entries)

unseen-head :
    (visited : List ℤ) (key : ℤ × ℤ) (p : Protocol) (entries : Dict (ℤ × ℤ) Protocol)
    → contains visited p.server_protocol ≡ false
    → unseen (p.server_protocol ∷ visited) ((key, p) ∷ entries)
      < unseen visited ((key, p) ∷ entries)
unfolding unseen
unseen-head visited key p entries new = ground (
  arith,
  contains-cons visited p.server_protocol p.server_protocol,
  beq_refl p.server_protocol,
  unseen-le visited p.server_protocol entries,
)

unseen-tail :
    (visited : List ℤ) (v : ℤ) (key : ℤ × ℤ) (q : Protocol) (entries : Dict (ℤ × ℤ) Protocol)
    → unseen (v ∷ visited) entries < unseen visited entries
    → unseen (v ∷ visited) ((key, q) ∷ entries) < unseen visited ((key, q) ∷ entries)
unfolding unseen
unseen-tail visited v key q entries h = ground (arith, contains-cons visited v q.server_protocol)

unseen-lt :
    (visited : List ℤ) (entries : Dict (ℤ × ℤ) Protocol) {key : ℤ × ℤ} {p : Protocol}
    → Memᴰ (key, p) entries
    → contains visited p.server_protocol ≡ false
    → unseen (p.server_protocol ∷ visited) entries < unseen visited entries
unseen-lt visited [] m new = absurd (Memᴰ.not-nil m)
unseen-lt visited ((key', q) ∷ entries) {key} {p} m new = elim (Memᴰ.cases_cons m) [
  | inl e ↦
      let same : p ≡ q = ap (λ (x : (ℤ × ℤ) × Protocol). x.1) e in
      rw same (unseen-head visited key' q entries (rw same at new))
  | inr m' ↦ unseen-tail visited p.server_protocol key' q entries (unseen-lt visited entries m' new)
]

-- A neighbour that becomes visited leaves one protocol fewer.
pub unseen-offer :
    (visited : List ℤ) (protocols : Dict (ℤ × ℤ) Protocol) (current : ℤ) (p : Protocol)
    → Memᴰ p (edges protocols current)
    → contains visited p.server_protocol ≡ false
    → unseen (p.server_protocol ∷ visited) protocols < unseen visited protocols
unseen-offer visited protocols current p m new =
    let (s, k) = mem-for_client current protocols (rw (edges-for_client protocols current) at m) in
    unseen-lt visited protocols k new

-- ===== src/Protocol/Manager/Search.antt =====
-- What the search for a chain of protocols finds.
pub mod Edges
pub mod Queue
pub mod Fuel
pub mod Round
pub mod Loop
pub mod Correct
use endweave.Prelude.{ℤ, List, [], ◌∷◌, ◌++◌, Dict, ◌≡◌, refl, length, suc, ℕ, arith}
use mathlib.Core.List.{Memᴰ}
use endweave.Protocol.{Protocol}
use endweave.Protocol.Manager.{ProtocolPath, edges}

module _ (protocols : Dict (ℤ × ℤ) Protocol) where
  -- A path from a client's version to a server's: each protocol is registered for the version that
  -- the path has reached, and leads to its server's version.
  pub data Chain : ℤ → ℤ → ProtocolPath → Type 0 where
    stop : {v : ℤ} → Chain v v []
    hop :
        {u v : ℤ} {p : Protocol} {ps : ProtocolPath}
        → Memᴰ p (edges protocols u)
        → Chain p.server_protocol v ps
        → Chain u v (p ∷ ps)

  pub Chain-concat :
      {u v : ℤ} {p : Protocol} {ps : ProtocolPath}
      → Chain u v ps
      → Memᴰ p (edges protocols v)
      → Chain u p.server_protocol (ps ++ p ∷ [])
  Chain-concat stop m = hop m stop
  Chain-concat (hop m' c) m = hop m' (Chain-concat c m)

  pub Chain-nil : {u v : ℤ} → Chain u v [] → u ≡ v
  Chain-nil stop = refl

  pub Chain-hop :
      {u v : ℤ} {p : Protocol} {ps : ProtocolPath}
      → Chain u v (p ∷ ps)
      → Memᴰ p (edges protocols u) × Chain p.server_protocol v ps
  Chain-hop (hop m c) = (m, c)

  -- The last protocol of a path.
  pub Chain-last :
      {u v : ℤ} {p : Protocol} {ps : ProtocolPath}
      → Chain u v (p ∷ ps)
      → (w : ℤ) × (q : Protocol) × (qs : ProtocolPath) × Chain u w qs
        × Memᴰ q (edges protocols w)
        × (q.server_protocol ≡ v)
        × (length (p ∷ ps) ≡ suc (length qs))
  Chain-last (hop {u} {v} {p} {ps = []} m c) = (u, p, [], stop, m, Chain-nil c, refl)
  Chain-last (hop {u} {v} {p} {ps = p' ∷ ps'} m c) =
      let (w, q, qs, c', m', e, n) = Chain-last c in (w, q, p ∷ qs, hop m c', m', e, omega arith)

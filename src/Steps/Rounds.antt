-- ===== src/Steps/Rounds.antt =====
-- Two version steps of opposite direction: what the packet of one version is in the other.
use endweave.Prelude.{ℕ, ap, some, List, ◌++◌}
use endweave.Codec.Wrapper.{wrap}
use endweave.Codec.Wrapper.Fields.{Rewrites, Rewrites-packet}
use endweave.Codec.Wrapper.Chunk.{Chunk, chain}
use endweave.Codec.Wrapper.Swaps.{Swaps}
use endweave.Connection.{User}
use endweave.Protocol.{PacketHandler}
use endweave.Protocol.Base.Detect.{Forwards}

pub Rewrites-Forwards :
    (m : PacketHandler) {older newer : List ℕ} (rest : List ℕ) (u : User)
    → Rewrites m older newer tt
    → Forwards (m (wrap (older ++ rest) (some u))) (newer ++ rest) u
Rewrites-Forwards m rest u r =
    let (run, output) = Rewrites-packet m rest (some u) r in
    record {
      returns = ap (λ r. r.0) run;
      passes = ap (λ r. r.1.cancelled) run;
      output = output;
      user = ap (λ r. r.1.connection) run;
    }

-- `up` forwards the packet of the older version as that of the newer, and `down` forwards that one as
-- what comes back. The bytes behind the chunks stay.
pub record Rounds (up down : PacketHandler) (chunks : List Chunk) : Type 0 where
  pub upward :
      (rest : List ℕ) (u : User)
      → Forwards
          (up (wrap ((chain chunks).older ++ rest) (some u)))
          ((chain chunks).newer ++ rest)
          u
  pub downward :
      (rest : List ℕ) (u : User)
      → Forwards
          (down (wrap ((chain chunks).newer ++ rest) (some u)))
          ((chain chunks).back ++ rest)
          u

pub Swaps-Rounds :
    (up down : PacketHandler) (chunks : List Chunk)
    → Swaps up down (chain chunks) tt
    → Rounds up down chunks
Swaps-Rounds up down chunks s = record {
  upward = λ rest u. Rewrites-Forwards up rest u s.upward;
  downward = λ rest u. Rewrites-Forwards down rest u s.downward;
}

-- ===== src/Steps/Tables.antt =====
-- protocol/v*_to_v*/protocol.py: how the steps fill their tables.
use endweave.Prelude.{ℕ, List, [], ◌∷◌}
use endweave.Protocol
use endweave.Protocol.{Protocol, PacketHandler, Direction}

-- The calls of `register_clientbound` or `register_serverbound`, in order.
unfoldable pub register_each : Direction → List (ℕ × PacketHandler) → Protocol → Protocol
register_each direction [] p = p
register_each direction (entry ∷ entries) p =
    register_each direction entries (Protocol.register direction entry.0 entry.1 p)

-- ===== src/Pipeline/Forwarded.antt =====
-- pipeline.py: the loop over the protocols, where a handler forwards the packet.
use endweave.Prelude.{ℕ, ◌≡◌, refl, true, some, List, ◌∷◌, arith}
use endweave.Exec.{ok, raised, Result}
use endweave.Codec.Wrapper.{PacketWrapper, wrap}
use endweave.Connection.{User}
use endweave.Protocol.{Protocol, Direction, transform, has_handler_or_cancel}
use endweave.Protocol.Base.Detect.{Forwards}
use endweave.Pipeline.{Outcome, run, settle}

settle-Forwards :
    {u' : User} (next : List ℕ → User → Outcome × User) (p : Protocol) (payload out : List ℕ)
    (u : User) (r : Result (Unit {0}) × PacketWrapper User)
    → Forwards r out u'
    → settle next p payload u r ≡ next out u'
settle-Forwards next p payload out u (raised exc, w) f = absurd (ground (arith, f.returns))
settle-Forwards next p payload out u (ok done, w) f = rw (f.output, f.user, f.passes) refl

-- What a step forwards goes to the next, with the connection as the step left it.
pub run-Forwards :
    {u' : User} (direction : Direction) (packet_id : ℕ) (p : Protocol) (ps : List Protocol)
    (payload out : List ℕ) (u : User)
    → has_handler_or_cancel direction packet_id p ≡ true
    → Forwards (transform direction packet_id p (wrap payload (some u))) out u'
    → run direction packet_id (p ∷ ps) payload u ≡ run direction packet_id ps out u'
unfolding run
run-Forwards direction packet_id p ps payload out u handled f =
    rw handled (settle-Forwards (run direction packet_id ps) p payload out u _ f)

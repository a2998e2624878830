-- ===== src/Protocol/Transform.antt =====
-- protocol/__init__.py: which handler a packet meets.
use endweave.Prelude.{
  ℕ, ◌≡◌, refl, Bool, true, false, ◌||◌, ◌&&◌, List, [], ◌∷◌, ◌++◌, lookup-insert, contains, nat_eq,
  if◌then◌else◌, arith, ◌==◌,
}
use endweave.Exec.{ok}
use endweave.Codec.Wrapper.{cancel}
use endweave.Protocol.{
  Direction, serverbound, clientbound, Wrapper, PacketHandler, Protocol, tables, register,
  cancel_packets, has_handler_or_cancel, transform,
}

abbrev pub same_direction : Direction → Direction → Bool
same_direction serverbound serverbound = true
same_direction clientbound clientbound = true
same_direction _ _ = false

contains-append : (s t : List ℕ) (k : ℕ) → contains (s ++ t) k ≡ contains s k || contains t k
unfolding contains
contains-append [] t k = refl
contains-append (j ∷ s) t k = ground (arith, contains-append s t k)

-- A packet with neither a handler nor a cancellation is left alone by `transform`, so the pipeline
-- may pass it by.
pub transform-none :
    (direction : Direction) (packet_id : ℕ) (p : Protocol) (w : Wrapper)
    → has_handler_or_cancel direction packet_id p ≡ false
    → transform direction packet_id p w ≡ (ok tt, w)
unfolding has_handler_or_cancel transform
transform-none direction packet_id p w h = ground arith

-- After `register` the packet runs the new handler, whatever handler it had, unless it is cancelled;
-- other packets and the other direction run what they ran.
pub transform-register :
    (direction direction' : Direction) (packet_id packet_id' : ℕ) (handler : PacketHandler)
    (p : Protocol) (w : Wrapper)
    → transform direction' packet_id' (register direction packet_id handler p) w ≡ (
        if same_direction direction direction' && packet_id == packet_id'
        then (if contains (tables direction p).cancel packet_id then cancel w else handler w)
        else transform direction' packet_id' p w)
unfolding transform register
transform-register serverbound serverbound i j handler p w =
    ground (arith, lookup-insert i j handler (tables serverbound p).handlers)
transform-register clientbound clientbound i j handler p w =
    ground (arith, lookup-insert i j handler (tables clientbound p).handlers)
transform-register serverbound clientbound i j handler p w = refl
transform-register clientbound serverbound i j handler p w = refl

-- A cancelled packet is dropped in its direction, whether it has a handler or not; other packets run
-- what they ran.
pub transform-cancel_packets :
    (direction direction' : Direction) (packet_ids : List ℕ) (packet_id : ℕ) (p : Protocol)
    (w : Wrapper)
    → transform direction' packet_id (cancel_packets direction packet_ids p) w ≡ (
        if same_direction direction direction' && contains packet_ids packet_id
        then cancel w
        else transform direction' packet_id p w)
unfolding transform cancel_packets
transform-cancel_packets serverbound serverbound ids i p w =
    ground (arith, contains-append ids (tables serverbound p).cancel i)
transform-cancel_packets clientbound clientbound ids i p w =
    ground (arith, contains-append ids (tables clientbound p).cancel i)
transform-cancel_packets serverbound clientbound ids i p w = refl
transform-cancel_packets clientbound serverbound ids i p w = refl

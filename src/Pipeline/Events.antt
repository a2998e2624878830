-- ===== src/Pipeline/Events.antt =====
-- pipeline.py: which connections and which packets the event handlers touch.
use mathlib.Core.Path.{subst}
use text.Mathlib.Text.{◌==◌}
use endweave.Prelude.{
  ◌≡◌, refl, sym, ap, false, Option, none, some, List, String, arith, if◌then◌else◌, lookup-insert,
  ◌∙◌, beq_refl, string_eq,
}
use endweave.Connection.{User, UserConnection, get_connection, get_or_create, update_connection}
use endweave.Connection.Manager.{get_or_create_lem}
use endweave.Protocol.{Direction, clientbound, Protocol}
use endweave.Protocol.Manager.{or_nil}
use endweave.Pipeline.{
  PacketEvent, ProtocolPipeline, Outcome, passed, cancelled, failed, run, get_pipeline, finish,
  on_packet_receive, on_packet_send, sent_to, sent_by,
}

pub finish-other :
    (direction : Direction) (event : PacketEvent) (c : UserConnection Protocol) (r : Outcome × User)
    (s : ProtocolPipeline) (address : String)
    → get_connection address (finish direction event c r s).1.connections ≡ (
        if event.address == address
        then some (record c { user = r.1 })
        else get_connection address s.connections)
unfolding get_connection update_connection
finish-other direction event c (passed payload, u) s address =
    lookup-insert event.address address (record c { user = u }) _
finish-other direction event c (cancelled, u) s address =
    lookup-insert event.address address (record c { user = u }) _
finish-other direction event c (failed exc p payload, u) s address =
    lookup-insert event.address address (record c { user = u }) _

pub get_pipeline-connections :
    (c : UserConnection Protocol) (s : ProtocolPipeline)
    → (get_pipeline c s).1.1.connections ≡ s.connections
unfolding get_pipeline
get_pipeline-connections c s = ground arith

module _ (event : PacketEvent) (s : ProtocolPipeline) (address : String) where
  -- A packet touches no connection but its own.
  pub on_packet_receive-other :
      (event.address == address) ≡ false
      → get_connection address (on_packet_receive event s).1.connections
        ≡ get_connection address s.connections
  unfolding on_packet_receive
  on_packet_receive-other h =
      let created = get_or_create event.address s.connections in
      let built = get_pipeline created.0 (record s { connections = created.1 }) in
      rw
        (
          finish-other _ event built.1.0 _ built.1.1 address,
          h,
          get_pipeline-connections created.0 (record s { connections = created.1 }),
          (get_or_create_lem event.address address s.connections).2,
          h,
        )
        refl

  on_packet_send-other :
      (event.address == address) ≡ false
      → get_connection address (on_packet_send event s).1.connections
        ≡ get_connection address s.connections
  unfolding on_packet_send
  on_packet_send-other h = sent_to-other (get_connection event.address s.connections)
    where
      sent_by-other :
          (pipeline : Option (List Protocol)) (c : UserConnection Protocol)
          → get_connection address (sent_by pipeline event c s).1.connections
            ≡ get_connection address s.connections
      sent_by-other none c = refl
      sent_by-other (some ps) c = rw (finish-other _ event c _ s address, h) refl

      sent_to-other :
          (found : Option (UserConnection Protocol))
          → get_connection address (sent_to found event s).1.connections
            ≡ get_connection address s.connections
      sent_to-other none = refl
      sent_to-other (some c) = sent_by-other c.protocol_pipeline c

-- While a connection has no clientbound list, its clientbound packets are not touched: no handler of
-- the base protocols sees them, though `_get_pipeline` puts the base protocols into every list.
pub on_packet_send-untranslated :
    (event : PacketEvent) (s : ProtocolPipeline) (c : UserConnection Protocol)
    → get_connection event.address s.connections ≡ some c
    → c.clientbound_pipeline ≡ none
    → ((on_packet_send event s).0 ≡ event)
      × ((on_packet_send event s).1.failures ≡ s.failures)
      × (get_connection event.address (on_packet_send event s).1.connections ≡ some c)
unfolding on_packet_send run
on_packet_send-untranslated event s c found h =
    subst (λ x. Untouched (sent_to x event s)) (sym found) (by_pipeline c.protocol_pipeline)
  where
    Untouched : PacketEvent × ProtocolPipeline → Type 0
    Untouched (event', s') =
        (event' ≡ event)
        × (s'.failures ≡ s.failures)
        × (get_connection event.address s'.connections ≡ some c)

    by_pipeline : (pipeline : Option (List Protocol)) → Untouched (sent_by pipeline event c s)
    by_pipeline none = (refl, refl, found)
    by_pipeline (some ps) =
        subst
          (λ ps'. Untouched (
            finish clientbound event c
              (run clientbound event.packet_id (or_nil ps') event.payload c.user) s))
          (sym h)
          (
            refl,
            refl,
            finish-other clientbound event c (passed event.payload, c.user) s event.address
                ∙ ap (λ b. if b then some c else get_connection event.address s.connections)
                    (beq_refl event.address),
          )

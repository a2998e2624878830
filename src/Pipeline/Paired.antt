-- ===== src/Pipeline/Paired.antt =====
-- pipeline.py: the two lists of a connection, over time.
use mathlib.Core.Path.{subst}
use text.Mathlib.Text.{◌==◌}
use endweave.Prelude.{
  ◌≡◌, refl, sym, inl, inr, Option, none, some, List, String, Bool-cases, Option-cases, ℤ,
  lookup-insert, ◌∙◌, string_eq, lookup,
}
use endweave.Connection.{
  User, UserConnection, ConnectionManager, get_connection, get_or_create, update_connection,
  remove_by_address,
}
use endweave.Connection.Manager.{get_or_create_lem, remove_by_address_lem}
use endweave.Protocol.{Direction, Protocol}
use endweave.Protocol.Manager.{ProtocolManager}
use endweave.Protocol.Manager.Cache.{Reach as ManagerReach}
use endweave.Pipeline.Events.{get_pipeline-connections}
use endweave.Pipeline.Steps.{
  Step, receiving, sending, leaving, managing, Reach, start, next, Reach-manager,
}
use endweave.Pipeline.{
  PacketEvent, ProtocolPipeline, Outcome, passed, cancelled, failed, get_pipeline, finish,
  on_packet_receive, on_packet_send, sent_to, sent_by,
}
use endweave.Pipeline.Mirrored.{
  Seen, now, before, AllPaired, IsPaired, later-AllPaired, get_pipeline-IsPaired,
}

module _ (Had : ProtocolManager → Type 0) where
  update-AllPaired :
      (address : String) (c : UserConnection Protocol) (m : ConnectionManager Protocol)
      → IsPaired Had c
      → AllPaired Had m
      → AllPaired Had (update_connection address c m)
  unfolding update_connection get_connection
  update-AllPaired address c m k h other c' e =
      let at = sym (lookup-insert address other c m.connections) ∙ e in
      elim (Bool-cases (address == other)) [
        | inl t ↦ subst (IsPaired Had) (cc (rw t at at)) k
        | inr f ↦ h other c' (rw f at at)
      ]

  get_or_create-AllPaired :
      (address : String) (m : ConnectionManager Protocol)
      → AllPaired Had m
      → IsPaired Had (get_or_create address m).0 × AllPaired Had (get_or_create address m).1
  get_or_create-AllPaired address m h = (
    paired,
    λ other c e.
        let at = sym ((get_or_create_lem address other m).2) ∙ e in
        elim (Bool-cases (address == other)) [
          | inl t ↦ subst (IsPaired Had) (cc (rw t at at)) paired
          | inr f ↦ h other c (rw f at at)
        ],
  )
    where
      paired : IsPaired Had (get_or_create address m).0
      paired = elim (Option-cases (get_connection address m)) [
        | inl e ↦
            subst (IsPaired Had) (sym (rw e at (get_or_create_lem address address m).1))
              (λ other e'. absurd (cc (e')))
        | inr (c, e) ↦
            subst (IsPaired Had) (sym (rw e at (get_or_create_lem address address m).1))
              (h address c e)
      ]

  remove-AllPaired :
      (address : String) (m : ConnectionManager Protocol)
      → AllPaired Had m
      → AllPaired Had (remove_by_address address m).1
  remove-AllPaired address m h other c e =
      let at = sym ((remove_by_address_lem address other m).0) ∙ e in
      elim (Bool-cases (address == other)) [
        | inl t ↦ absurd (cc (rw t at at))
        | inr f ↦ h other c (rw f at at)
      ]

  finish-connections :
      (direction : Direction) (event : PacketEvent) (c : UserConnection Protocol)
      (r : Outcome × User) (s : ProtocolPipeline)
      → (finish direction event c r s).1.connections
        ≡ update_connection event.address (record c { user = r.1 }) s.connections
  finish-connections direction event c (passed payload, u) s = refl
  finish-connections direction event c (cancelled, u) s = refl
  finish-connections direction event c (failed exc p payload, u) s = refl

  user-IsPaired :
      (c : UserConnection Protocol) (u : User)
      → IsPaired Had c
      → IsPaired Had (record c { user = u })
  user-IsPaired c u h other e =
      let m = h other e in
      record {
        manager = m.manager;
        had = m.had;
        client = m.client;
        server = m.server;
        apart = m.apart;
        chain = m.chain;
        route = m.route;
        serverbound = m.serverbound;
        clientbound = m.clientbound;
      }

  finish-AllPaired :
      (direction : Direction) (event : PacketEvent) (c : UserConnection Protocol)
      (r : Outcome × User) (s : ProtocolPipeline)
      → IsPaired Had c
      → AllPaired Had s.connections
      → AllPaired Had (finish direction event c r s).1.connections
  finish-AllPaired direction event c r s k h = rw (finish-connections direction event c r s) (
      update-AllPaired event.address (record c { user = r.1 }) s.connections (user-IsPaired c r.1 k)
        h)

  receive-AllPaired :
      (event : PacketEvent) (s : ProtocolPipeline)
      → Had s.manager
      → ManagerReach s.manager
      → AllPaired Had s.connections
      → AllPaired Had (on_packet_receive event s).1.connections
  unfolding on_packet_receive
  receive-AllPaired event s had reach h =
      let created = get_or_create event.address s.connections in
      let t : ProtocolPipeline = record s { connections = created.1 } in
      let built = get_pipeline created.0 t in
      let (one, all) = get_or_create-AllPaired event.address s.connections h in
      finish-AllPaired _ event built.1.0 _ built.1.1
        (get_pipeline-IsPaired Had created.0 t had reach one)
        (subst (AllPaired Had) (sym (get_pipeline-connections created.0 t)) all)

  send-AllPaired :
      (event : PacketEvent) (s : ProtocolPipeline)
      → AllPaired Had s.connections
      → AllPaired Had (on_packet_send event s).1.connections
  unfolding on_packet_send
  send-AllPaired event s h = sent_to-AllPaired (get_connection event.address s.connections) refl
    where
      sent_by-AllPaired :
          (pipeline : Option (List Protocol)) (c : UserConnection Protocol)
          → IsPaired Had c
          → AllPaired Had (sent_by pipeline event c s).1.connections
      sent_by-AllPaired none c k = h
      sent_by-AllPaired (some ps) c k = finish-AllPaired _ event c _ s k h

      sent_to-AllPaired :
          (found : Option (UserConnection Protocol))
          → get_connection event.address s.connections ≡ found
          → AllPaired Had (sent_to found event s).1.connections
      sent_to-AllPaired none e = h
      sent_to-AllPaired (some c) e = sent_by-AllPaired c.protocol_pipeline c (h event.address c e)

Step-AllPaired :
    {Had : ProtocolManager → Type 0} {s t : ProtocolPipeline}
    → Step s t
    → Had s.manager
    → ManagerReach s.manager
    → AllPaired Had s.connections
    → AllPaired Had t.connections
Step-AllPaired {Had} (receiving event s) had reach h = receive-AllPaired Had event s had reach h
Step-AllPaired {Had} (sending event s) had reach h = send-AllPaired Had event s h
Step-AllPaired {Had} (leaving address s) had reach h = remove-AllPaired Had address s.connections h
Step-AllPaired (managing s st) had reach h = h

-- After any sequence of events, departures, registrations and queries, in any order: the lists of a
-- connection that has a clientbound one were built from a manager that the state had along the way.
-- The serverbound list is exactly this manager's base protocols and, behind them, a shortest chain
-- of its protocols between two different versions; the clientbound list is the same base protocols
-- and, behind them, the reversed chain.
pub Reach-AllPaired :
    {server_protocol : ℤ} {s : ProtocolPipeline} (r : Reach server_protocol s)
    → AllPaired (Seen s r) s.connections
unfolding get_connection lookup
Reach-AllPaired start = λ address c e. absurd (cc (e))
Reach-AllPaired (next {s} r st) =
    Step-AllPaired st (before st (now r)) (Reach-manager r)
      (later-AllPaired s.connections (λ n seen. before st seen) (Reach-AllPaired r))

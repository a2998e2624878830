-- ===== src/Pipeline/Steps.antt =====
-- pipeline.py and plugin.py: what happens to the state over time.
use mathlib.Core.Path.{subst}
use endweave.Prelude.{
  ◌≡◌, refl, sym, ◌⊎◌, inl, inr, Option, none, some, List, [], String, arith, ℤ, string_eq,
}
use endweave.Connection.{User, UserConnection, get_connection, get_or_create, remove_by_address}
use endweave.Protocol.{Direction, serverbound, Protocol}
use endweave.Protocol.Manager.{ProtocolManager, get_path, empty}
use endweave.Protocol.Manager.Cache.{Reach as ManagerReach, Step as ManagerStep, asking}
use endweave.Protocol.Manager.Cache
use endweave.Pipeline.{
  PacketEvent, ProtocolPipeline, Outcome, passed, cancelled, failed, run, get_pipeline, finish,
  on_packet_receive, on_packet_send, sent_to, sent_by,
}

-- What happens to the plugin's state: events of both directions, connections that leave, and
-- registrations of protocols.
pub data Step : ProtocolPipeline → ProtocolPipeline → Type 0 where
  receiving : (event : PacketEvent) (s : ProtocolPipeline) → Step s (on_packet_receive event s).1
  sending : (event : PacketEvent) (s : ProtocolPipeline) → Step s (on_packet_send event s).1
  leaving :
      (address : String) (s : ProtocolPipeline)
      → Step s (record s { connections = (remove_by_address address s.connections).1 })
  managing :
      (s : ProtocolPipeline) {m : ProtocolManager}
      → ManagerStep s.manager m
      → Step s (record s { manager = m })

abbrev pub initial : ℤ → ProtocolPipeline
initial server_protocol = record {
  manager = empty;
  connections = record { server_protocol = server_protocol; connections = [] };
  logger = [];
  failures = [];
}

pub data Reach (server_protocol : ℤ) : ProtocolPipeline → Type 0 where
  start : Reach server_protocol (initial server_protocol)
  next : {s t : ProtocolPipeline} → Reach server_protocol s → Step s t → Reach server_protocol t

get_pipeline-manager :
    (c : UserConnection Protocol) (s : ProtocolPipeline)
    → ((get_pipeline c s).1.1.manager ≡ s.manager)
      ⊎ ((get_pipeline c s).1.1.manager
          ≡ (get_path c.server_protocol c.client_protocol s.manager).1)
unfolding get_pipeline
get_pipeline-manager c s = ground arith

finish-manager :
    (direction : Direction) (event : PacketEvent) (c : UserConnection Protocol) (r : Outcome × User)
    (s : ProtocolPipeline)
    → (finish direction event c r s).1.manager ≡ s.manager
finish-manager direction event c (passed payload, u) s = refl
finish-manager direction event c (cancelled, u) s = refl
finish-manager direction event c (failed exc p payload, u) s = refl

sent-manager :
    (event : PacketEvent) (s : ProtocolPipeline) → (on_packet_send event s).1.manager ≡ s.manager
unfolding on_packet_send
sent-manager event s = sent_to-manager (get_connection event.address s.connections)
  where
    sent_by-manager :
        (pipeline : Option (List Protocol)) (c : UserConnection Protocol)
        → (sent_by pipeline event c s).1.manager ≡ s.manager
    sent_by-manager none c = refl
    sent_by-manager (some ps) c = finish-manager _ event c _ s

    sent_to-manager :
        (found : Option (UserConnection Protocol)) → (sent_to found event s).1.manager ≡ s.manager
    sent_to-manager none = refl
    sent_to-manager (some c) = sent_by-manager c.protocol_pipeline c

receive-manager :
    (event : PacketEvent) (s : ProtocolPipeline)
    → ManagerReach s.manager
    → ManagerReach (on_packet_receive event s).1.manager
unfolding on_packet_receive
receive-manager event s h =
    let created = get_or_create event.address s.connections in
    let t : ProtocolPipeline = record s { connections = created.1 } in
    let built = get_pipeline created.0 t in
    rw
      (finish-manager serverbound event built.1.0
        (run serverbound event.packet_id built.0 event.payload built.1.0.user) built.1.1)
      (elim (get_pipeline-manager created.0 t) [
        | inl e ↦ subst ManagerReach (sym e) h
        | inr e ↦ subst ManagerReach (sym e) (Cache.next h (asking _ _ s.manager))
      ])

Step-manager : {s t : ProtocolPipeline} → Step s t → ManagerReach s.manager → ManagerReach t.manager
Step-manager (receiving event s) h = receive-manager event s h
Step-manager (sending event s) h = subst ManagerReach (sym (sent-manager event s)) h
Step-manager (leaving address s) h = h
Step-manager (managing s st) h = Cache.next h st

-- The manager of a pipeline is one that registrations and queries lead to.
pub Reach-manager :
    {server_protocol : ℤ} {s : ProtocolPipeline} → Reach server_protocol s → ManagerReach s.manager
Reach-manager start = Cache.start
Reach-manager (next r st) = Step-manager st (Reach-manager r)

-- ===== src/Examples/Routes.antt =====
-- Registries of protocols, their routes, and the handlers of a protocol.
use endweave.Protocol.Manager.Supported.{get_supported_versions_lem}
use endweave.Protocol.Manager.Search.{Chain}
use endweave.Protocol.Manager.{get_supported_versions, ProtocolPath}
use endweave.Prelude.{
  ◌↔◌, true, int_eq, ◌≡◌, ◌≢◌, refl, false, none, some, [], ◌∷◌, pos, eqb_ℤ, eqb_ℤ_iff, nat_eq,
  contains, if◌then◌else◌, lookup, insert,
}
use endweave.Codec.Wrapper.{wrap}
use endweave.Protocol.{
  Protocol, Wrapper, create, register as register_handler, cancel_packets, clientbound, serverbound,
  transform, tables,
}
use endweave.Protocol.Base.{create_base_protocol}
use endweave.Protocol.Manager.{
  ProtocolManager, empty, register, register_base, get_path, find_path, bfs,
}
use endweave.Protocol.Manager.Cache.{
  Reach, start, next, registering, registering_base, get_path_fresh,
}
use endweave.Protocol.Manager.Route.{IsRoute, get_path_correct}
use endweave.Protocol.Manager.Search.Correct.{Answers, bfs-Answers}

abbrev step_944 : Protocol
step_944 = create (pos 924) (pos 944) none false

abbrev step_975 : Protocol
step_975 = create (pos 944) (pos 975) none false

abbrev pub base : Protocol
base = create_base_protocol (pos 924)

abbrev one_registered : ProtocolManager
one_registered = register step_944 empty

abbrev both_registered : ProtocolManager
both_registered = register step_975 one_registered

abbrev pub manager : ProtocolManager
manager = register_base base both_registered

pub manager-Reach : Reach manager
manager-Reach =
    next (next (next start (registering step_944 empty)) (registering step_975 one_registered))
      (registering_base base both_registered)

two_steps : (get_path (pos 924) (pos 975) manager).0 ≡ some (step_975 ∷ step_944 ∷ [])
unfolding get_path find_path bfs register register_base create lookup insert contains
    endweave.Protocol.Manager.loop endweave.Protocol.Manager.scan endweave.Protocol.Manager.edges
    endweave.Protocol.Manager.adjacency_from endweave.Protocol.Manager.get
two_steps = refl

get_path_correct_example :
    IsRoute manager (pos 975) (pos 924) (get_path (pos 924) (pos 975) manager).0
get_path_correct_example = get_path_correct (pos 924) (pos 975) manager-Reach

get_path_fresh_example :
    (get_path (pos 924) (pos 975) manager).0
    ≡ (if eqb_ℤ (pos 924) (pos 975) then some [] else find_path (pos 924) (pos 975) manager)
get_path_fresh_example = get_path_fresh (pos 924) (pos 975) manager-Reach

get_supported_versions_lem_example :
    (contains (get_supported_versions (pos 924) manager).0 (pos 975) ≡ true)
    ↔ ((ps : ProtocolPath) × Chain manager.protocols (pos 975) (pos 924) ps)
get_supported_versions_lem_example =
    get_supported_versions_lem (pos 924) manager manager-Reach (pos 975)

apart : pos 975 ≢ pos 924
apart e = cc ((eqb_ℤ_iff (pos 975) (pos 924)).1 e)

bfs-Answers_example :
    Answers manager.protocols (pos 975) (pos 924) (bfs manager.protocols (pos 924) (pos 975))
bfs-Answers_example = bfs-Answers manager.protocols (pos 975) (pos 924) apart

abbrev packet : Wrapper
packet = wrap (1 ∷ 2 ∷ 3 ∷ []) none

-- ===== src/Pipeline/Mirrored.antt =====
-- pipeline.py: the two lists that `_get_pipeline` builds for a connection.
use mathlib.Core.Path.{subst}
use endweave.Prelude.{
  ◌≡◌, ◌≢◌, arith, eqb_ℤ_iff, refl, sym, inl, inr, Bool, true, false, Option, none, some, List,
  ◌++◌, reverse, String, if◌then◌else◌, Option-cases, ℤ, pos, eqb_ℤ, not, string_eq,
}
use endweave.Connection.{User, needs_translation, UserConnection, ConnectionManager, get_connection}
use endweave.Protocol.{Protocol}
use endweave.Protocol.Manager.{ProtocolManager, ProtocolPath, get_path}
use endweave.Protocol.Manager.Cache.{Reach as ManagerReach}
use endweave.Protocol.Manager.Route.{IsRoute, get_path_correct}
use endweave.Pipeline.Steps.{Step, Reach, next}
use endweave.Pipeline.{ProtocolPipeline, State, get_pipeline, with_chain, built_or}

-- The managers that the state had along a run.
pub data Seen {server_protocol : ℤ}
    : (s : ProtocolPipeline) → Reach server_protocol s → ProtocolManager → Type 0 where
  now : {s : ProtocolPipeline} (r : Reach server_protocol s) → Seen s r s.manager
  before :
      {s t : ProtocolPipeline} {r : Reach server_protocol s} {m : ProtocolManager} (st : Step s t)
      → Seen s r m
      → Seen t (next r st) m

-- The lists of a connection, from a manager `Had` by the state when they were built: its base protocols
-- and, behind them, a shortest chain between two different versions, in opposite orders.
pub record Mirrored (Had : ProtocolManager → Type 0) (c : UserConnection Protocol)
    (other : List Protocol) : Type 0 where
  pub manager : ProtocolManager
  pub had : Had manager
  pub client : ℤ
  pub server : ℤ
  pub apart : client ≢ server
  pub chain : ProtocolPath
  pub route : IsRoute manager client server (some chain)
  pub serverbound : c.protocol_pipeline ≡ some (manager.base_protocols ++ chain)
  pub clientbound : other ≡ manager.base_protocols ++ reverse chain

abbrev pub IsPaired : (ProtocolManager → Type 0) → UserConnection Protocol → Type 0
IsPaired Had c =
    (other : List Protocol) → c.clientbound_pipeline ≡ some other → Mirrored Had c other

abbrev pub AllPaired : (ProtocolManager → Type 0) → ConnectionManager Protocol → Type 0
AllPaired Had m =
    (address : String) (c : UserConnection Protocol)
    → get_connection address m ≡ some c
    → IsPaired Had c

pub later-AllPaired :
    {Had Had' : ProtocolManager → Type 0} (m : ConnectionManager Protocol)
    → ((n : ProtocolManager) → Had n → Had' n)
    → AllPaired Had m
    → AllPaired Had' m
later-AllPaired m up h address c e other e' =
    let old = h address c e other e' in
    record {
      manager = old.manager;
      had = up old.manager old.had;
      client = old.client;
      server = old.server;
      apart = old.apart;
      chain = old.chain;
      route = old.route;
      serverbound = old.serverbound;
      clientbound = old.clientbound;
    }

translated : (u : User) → not (needs_translation u) ≡ false → u.client_protocol ≢ u.server_protocol
translated u h e = absurd (ground (arith, h, (eqb_ℤ_iff u.client_protocol u.server_protocol).1 e))

module _ (Had : ProtocolManager → Type 0) where
  if-IsPaired :
      (b : Bool) (x y : List Protocol × State)
      → (b ≡ true → IsPaired Had x.1.0)
      → (b ≡ false → IsPaired Had y.1.0)
      → IsPaired Had (if b then x else y).1.0
  if-IsPaired true x y h k = h refl
  if-IsPaired false x y h k = k refl

  pub get_pipeline-IsPaired :
      (c : UserConnection Protocol) (s : ProtocolPipeline)
      → Had s.manager
      → ManagerReach s.manager
      → IsPaired Had c
      → IsPaired Had (get_pipeline c s).1.0
  unfolding get_pipeline
  get_pipeline-IsPaired c s had reach h = elim (Option-cases c.protocol_pipeline) [
    | inr (ps, e) ↦ subst (λ r. IsPaired Had (built_or r (c, s)).1.0) (sym e) h
    | inl e ↦ subst (λ r. IsPaired Had (built_or r (c, s)).1.0) (sym e) (fresh e)
  ]
    where
      none_yet : c.protocol_pipeline ≡ none → c.clientbound_pipeline ≡ none
      none_yet e = elim (Option-cases c.clientbound_pipeline) [
        | inl e' ↦ e'
        | inr (other, e') ↦ absurd (cc (e, (h other e').serverbound))
      ]

      with_chain-IsPaired :
          (chain : Option ProtocolPath) (t : ProtocolPipeline)
          → c.client_protocol ≢ c.server_protocol
          → IsRoute s.manager c.client_protocol c.server_protocol chain
          → c.clientbound_pipeline ≡ none
          → IsPaired Had (with_chain s.manager.base_protocols chain (c, t)).1.0
      with_chain-IsPaired none t ne route e other e' = absurd (cc (e, e'))
      with_chain-IsPaired (some chain) t ne route e other e' = record {
        manager = s.manager;
        had = had;
        client = c.client_protocol;
        server = c.server_protocol;
        apart = ne;
        chain = chain;
        route = route;
        serverbound = refl;
        clientbound = cc (e');
      }

      fresh : c.protocol_pipeline ≡ none → IsPaired Had (built_or none (c, s)).1.0
      fresh e =
          let (chain, m) = get_path c.server_protocol c.client_protocol s.manager in
          let unpaired = none_yet e in
          if-IsPaired (eqb_ℤ c.client_protocol (pos 0)) _ _ (λ z. h)
            (λ z.
              if-IsPaired (not (needs_translation c.user)) _ _
                (λ n other e'. absurd (cc (unpaired, e')))
                (λ n.
                  with_chain-IsPaired chain (record s { manager = m }) (translated c.user n)
                    (get_path_correct c.server_protocol c.client_protocol reach) unpaired))

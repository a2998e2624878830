-- ===== src/Pipeline/Build.antt =====
-- pipeline.py: which protocols `_get_pipeline` gives a connection.
use mathlib.Core.Path.{subst}
use endweave.Prelude.{
  ◌≡◌, ◌≢◌, refl, sym, ap, Bool, true, false, Option, none, some, List, [], ◌∷◌, ◌++◌, reverse,
  append-nil, pos, eqb_ℤ_iff, arith, if◌then◌else◌,
}
use endweave.Connection.{LogRecord, UserConnection, warn_no_chain, needs_translation}
use endweave.Protocol.{Protocol}
use endweave.Protocol.Manager.{ProtocolManager, ProtocolPath, get_path, or_nil}
use endweave.Protocol.Manager.Cache.{Reach}
use endweave.Protocol.Manager.Route.{IsRoute, get_path_correct}
use endweave.Pipeline.{ProtocolPipeline, State, get_pipeline, built_or, with_chain, warn}

get_pipeline-caches :
    (c : UserConnection Protocol) (s : ProtocolPipeline)
    → c.client_protocol ≢ pos 0
    → (get_pipeline c s).1.0.protocol_pipeline ≡ some (get_pipeline c s).0
unfolding get_pipeline
get_pipeline-caches c s h = ground (arith, h, eqb_ℤ_iff c.client_protocol (pos 0))

once :
    (r : List Protocol × State) → r.1.0.protocol_pipeline ≡ some r.0 → get_pipeline r.1.0 r.1.1 ≡ r
unfolding get_pipeline
once (pipeline, (c, s)) e = ap (λ x. built_or x (c, s)) e

-- A second `_get_pipeline` of a connection whose version is known gives the same protocols, and
-- changes nothing: no route is searched, no protocol is initialised and no warning is logged again.
pub get_pipeline_again :
    (c : UserConnection Protocol) (s : ProtocolPipeline)
    → c.client_protocol ≢ pos 0
    → get_pipeline (get_pipeline c s).1.0 (get_pipeline c s).1.1 ≡ get_pipeline c s
get_pipeline_again c s h = once (get_pipeline c s) (get_pipeline-caches c s h)

-- The list for the other direction: the chain is reversed, the base protocols stay in front.
abbrev pub clientbound_order :
    List Protocol → Option ProtocolPath → Option (List Protocol) → Option (List Protocol)
clientbound_order base none old = old
clientbound_order base (some chain) old = some (base ++ reverse chain)

abbrev pub warnings : Option ProtocolPath → UserConnection Protocol → List LogRecord
warnings (some chain) c = []
warnings none c =
    if c.warned_no_chain
    then []
    else warn_no_chain c.server_protocol c.client_protocol c.address ∷ []

-- What a built pipeline is, for the answer `chain` to the search for a route.
pub record IsBuilt (s : ProtocolPipeline) (c : UserConnection Protocol)
    (chain : Option ProtocolPath) (r : List Protocol × State) : Type 0 where
  pub route : IsRoute s.manager c.client_protocol c.server_protocol chain
  pub serverbound : r.0 ≡ s.manager.base_protocols ++ or_nil chain
  pub cached : r.1.0.protocol_pipeline ≡ some r.0
  pub clientbound :
      r.1.0.clientbound_pipeline
      ≡ clientbound_order s.manager.base_protocols chain c.clientbound_pipeline
  pub logged : r.1.1.logger ≡ s.logger ++ warnings chain c

module _ (c : UserConnection Protocol) (s : ProtocolPipeline) where
  built :
      (chain : Option ProtocolPath) (m : ProtocolManager)
      → IsRoute s.manager c.client_protocol c.server_protocol chain
      → IsBuilt s c chain (with_chain s.manager.base_protocols chain (c, record s { manager = m }))
  built none m r = record {
    route = r;
    serverbound = sym (append-nil _);
    cached = refl;
    clientbound = refl;
    logged = by_warned c.warned_no_chain;
  }
    where
      by_warned :
          (b : Bool)
          → (let s' = record s { manager = m } in
              if b
              then s'
              else warn (warn_no_chain c.server_protocol c.client_protocol c.address) s').logger
            ≡ s.logger
              ++ (if b
                  then []
                  else warn_no_chain c.server_protocol c.client_protocol c.address ∷ [])
      by_warned true = sym (append-nil _)
      by_warned false = refl
  built (some chain) m r = record {
    route = r;
    serverbound = refl;
    cached = refl;
    clientbound = refl;
    logged = sym (append-nil _);
  }

  get_pipeline-searches :
      c.protocol_pipeline ≡ none
      → needs_translation c.user ≡ true
      → get_pipeline c s ≡ (
          let chain = get_path c.server_protocol c.client_protocol s.manager in
          with_chain s.manager.base_protocols chain.0 (c, record s { manager = chain.1 }))
  unfolding get_pipeline
  get_pipeline-searches new h = ground arith

  -- The first pipeline of a connection that needs translation: the base protocols, and behind them a
  -- shortest chain of registered protocols from the client's version to the server's, where there is
  -- one; clientbound the chain is reversed and the base protocols stay in front. Where there is no
  -- chain only the base protocols are left, and that is logged unless it was before.
  pub get_pipeline_lem :
      Reach s.manager
      → c.protocol_pipeline ≡ none
      → needs_translation c.user ≡ true
      → IsBuilt s c (get_path c.server_protocol c.client_protocol s.manager).0 (get_pipeline c s)
  unfolding get_pipeline
  get_pipeline_lem reach new h =
      let chain = get_path c.server_protocol c.client_protocol s.manager in
      subst (IsBuilt s c chain.0) (sym (get_pipeline-searches new h))
        (built chain.0 chain.1 (get_path_correct c.server_protocol c.client_protocol reach))

  -- A connection that needs no translation, or whose version is unknown, gets the base protocols, and
  -- no clientbound list.
  pub get_pipeline-untranslated :
      c.protocol_pipeline ≡ none
      → needs_translation c.user ≡ false
      → ((get_pipeline c s).0 ≡ s.manager.base_protocols)
        × ((get_pipeline c s).1.0.clientbound_pipeline ≡ c.clientbound_pipeline)
        × ((get_pipeline c s).1.1 ≡ s)
  unfolding get_pipeline
  get_pipeline-untranslated new h = ground arith

-- ===== src/Plugin/Enabled.antt =====
-- plugin.py: the plugin after its start.
use mathlib.Core.Path.{subst}
use endweave.Prelude.{
  ◌≡◌, ◌↔◌, ◌⊎◌, refl, inl, inr, Bool, true, false, ◌||◌, List, [], ◌∷◌, String, ℤ, leb_ℤ, eqb_ℤ,
  eqb_ℤ_iff, contains, int_eq, arith, Bool-cases,
}
use endweave.Protocol.{Protocol}
use endweave.Protocol.Base.{create_base_protocol}
use endweave.Protocol.Manager.{
  ProtocolManager, ProtocolPath, empty, register_base, get_supported_versions,
}
use endweave.Protocol.Manager.Cache.{Reach, start, next, registering, registering_base}
use endweave.Protocol.Manager.Search.{Chain, stop}
use endweave.Protocol.Manager.Supported.{get_supported_versions_lem}
use endweave.Plugin.{register_all, max_from, max_or, on_enable}

register_all-Reach :
    (protocols : List Protocol) {m : ProtocolManager} → Reach m → Reach (register_all protocols m)
unfolding register_all
register_all-Reach [] r = r
register_all-Reach (p ∷ protocols) {m} r = register_all-Reach protocols (next r (registering p m))

-- The manager before the supported versions are asked for.
abbrev pub registered : ℤ → List Protocol → ProtocolManager
registered server_protocol protocols =
    register_all protocols (register_base (create_base_protocol server_protocol) empty)

pub registered-Reach :
    (server_protocol : ℤ) (protocols : List Protocol) → Reach (registered server_protocol protocols)
registered-Reach server_protocol protocols =
    register_all-Reach protocols
      (next start (registering_base (create_base_protocol server_protocol) empty))

weaken : (a b c : Bool) → (a || c) ≡ true → (a || (b || c)) ≡ true
weaken true b c e = refl
weaken false true c e = refl
weaken false false c e = e

either : (a b : Bool) → (a || b) ≡ true → (a ≡ true) ⊎ (b ≡ true)
either true b e = inl refl
either false b e = inr e

contains-max_from : (v : ℤ) (vs : List ℤ) → contains (v ∷ vs) (max_from v vs) ≡ true
unfolding contains
contains-max_from v [] = rw ((eqb_ℤ_iff v v).1 refl) refl
contains-max_from v (w ∷ vs) = elim (Bool-cases (leb_ℤ v w)) [
  | inl le ↦ rw le (rw (contains-max_from w vs) (ground arith))
  | inr gt ↦
      rw gt (weaken (eqb_ℤ v (max_from v vs)) (eqb_ℤ w (max_from v vs)) _ (contains-max_from v vs))
]

leb_trans : (u v w : ℤ) → leb_ℤ u v ≡ true → leb_ℤ v w ≡ true → leb_ℤ u w ≡ true
leb_trans u v w h k = ground arith

leb_refl : (v : ℤ) → leb_ℤ v v ≡ true
leb_refl v = ground arith

leb-flip : (v w : ℤ) → leb_ℤ v w ≡ false → leb_ℤ w v ≡ true
leb-flip v w h = ground arith

leb-max_from : (v : ℤ) (vs : List ℤ) → leb_ℤ v (max_from v vs) ≡ true
leb-max_from v [] = leb_refl v
leb-max_from v (w ∷ vs) = elim (Bool-cases (leb_ℤ v w)) [
  | inl le ↦ leb_trans v w _ le (rw le (leb-max_from w vs))
  | inr gt ↦ rw gt (leb-max_from v vs)
]

-- No element is above the greatest.
max_from-above :
    (v : ℤ) (vs : List ℤ) (u : ℤ) → contains (v ∷ vs) u ≡ true → leb_ℤ u (max_from v vs) ≡ true
unfolding contains
max_from-above v [] u e = elim (either (eqb_ℤ v u) false e) [
  | inl same ↦ subst (λ x. leb_ℤ x v ≡ true) ((eqb_ℤ_iff v u).0 same) (leb_refl v)
  | inr wrong ↦ absurd (cc (wrong))
]
max_from-above v (w ∷ vs) u e = elim (Bool-cases (leb_ℤ v w)) [
  | inl le ↦ elim (either (eqb_ℤ v u) (contains (w ∷ vs) u) e) [
    | inl same ↦
        let first : leb_ℤ v (max_from w vs) ≡ true = leb_trans v w _ le (leb-max_from w vs) in
        rw le (subst (λ x. leb_ℤ x (max_from w vs) ≡ true) ((eqb_ℤ_iff v u).0 same) first)
    | inr later ↦ rw le (max_from-above w vs u later)
  ]
  | inr gt ↦ elim (either (eqb_ℤ v u) (contains (w ∷ vs) u) e) [
    | inl same ↦
        rw gt
          (subst (λ x. leb_ℤ x (max_from v vs) ≡ true) ((eqb_ℤ_iff v u).0 same) (leb-max_from v vs))
    | inr later ↦ elim (either (eqb_ℤ w u) (contains vs u) later) [
      | inl same ↦
          let second : leb_ℤ w (max_from v vs) ≡ true =
            leb_trans w v _ (leb-flip v w gt) (leb-max_from v vs) in
          rw gt (subst (λ x. leb_ℤ x (max_from v vs) ≡ true) ((eqb_ℤ_iff w u).0 same) second)
      | inr rest ↦ rw gt (max_from-above v vs u (rw rest (ground arith)))
    ]
  ]
]

-- A version that is advertised is among those given, if there is one, and none is above it.
max_or_lem :
    (server_protocol : ℤ) (vs : List ℤ) (u : ℤ)
    → contains vs u ≡ true
    → (contains vs (max_or server_protocol vs) ≡ true)
      × (leb_ℤ u (max_or server_protocol vs) ≡ true)
max_or_lem server_protocol [] u e = absurd (unfold contains in cc (e))
max_or_lem server_protocol (v ∷ vs) u e = (contains-max_from v vs, max_from-above v vs u e)

-- After the start, with any protocols registered: the supported versions are exactly those from which a
-- chain of the registered protocols leads to the server's version, and that version itself; the
-- advertised version is one of them, and the greatest.
pub on_enable_lem :
    (server_protocol : ℤ) (protocols : List Protocol) (blocked : List ℤ) (message : String) (v : ℤ)
    → let self = on_enable server_protocol protocols blocked message in
      ((contains self.supported_versions v ≡ true) ↔ (
        (ps : ProtocolPath) × Chain
          (registered server_protocol protocols).protocols
          v
          server_protocol
          ps))
      × (contains self.supported_versions self.advertised_protocol ≡ true)
      × (contains self.supported_versions v ≡ true → leb_ℤ v self.advertised_protocol ≡ true)
unfolding on_enable
on_enable_lem server_protocol protocols blocked message v =
    let r = registered-Reach server_protocol protocols in
    let m = registered server_protocol protocols in
    let supported = (get_supported_versions server_protocol m).0 in
    let server_in = (get_supported_versions_lem server_protocol m r server_protocol).1 ([], stop) in
    (
      get_supported_versions_lem server_protocol m r v,
      (max_or_lem server_protocol supported server_protocol server_in).0,
      λ e. (max_or_lem server_protocol supported v e).1,
    )

-- ===== src/Protocol/Manager/Supported.antt =====
-- protocol/manager.py: `get_supported_versions`.
use mathlib.Core.List.{Memᴰ}
use mathlib.Core.List.Memᴰ
use mathlib.Core.Path.{subst}
use endweave.Prelude.{
  ◌≡◌, ◌↔◌, refl, sym, ap, ◌∙◌, inl, inr, Bool, true, false, ◌||◌, ◌&&◌, Option, none, some, List,
  [], ◌∷◌, ℤ, eqb_ℤ, eqb_ℤ_iff, contains, int_eq, arith, if◌then◌else◌, Bool-cases,
}
use endweave.Connection.{is_some}
use endweave.Protocol.{Protocol}
use endweave.Protocol.Manager.{
  ProtocolManager, ProtocolPath, get_path, find_path, insert_sorted, sorted, add, add_if,
  supported_from, get_supported_versions,
}
use endweave.Protocol.Manager.Cache.{Reach, next, asking, get_path_fresh, find_path-protocols}
use endweave.Protocol.Manager.Search.{Chain, stop, hop}
use endweave.Protocol.Manager.Search.Edges.{edges-for_client, mem-for_client, contains-cons}
use endweave.Protocol.Manager.Route.{IsRoute, get_path_correct, get_path-protocols}

contains-insert_sorted :
    (w : ℤ) (vs : List ℤ) (v : ℤ) → contains (insert_sorted w vs) v ≡ eqb_ℤ w v || contains vs v
unfolding contains
contains-insert_sorted w [] v = refl
contains-insert_sorted w (x ∷ vs) v = ground (arith, contains-insert_sorted w vs v)

contains-sorted : (vs : List ℤ) (v : ℤ) → contains (sorted vs) v ≡ contains vs v
unfolding sorted contains
contains-sorted [] v = refl
contains-sorted (w ∷ vs) v =
    contains-insert_sorted w (sorted vs) v ∙ ap (λ b. eqb_ℤ w v || b) (contains-sorted vs v)

both_true : (a b : Bool) → (a && b) ≡ true → (a ≡ true) × (b ≡ true)
both_true true b e = (refl, e)
both_true false b e = (cc, cc)

contains-add : (w : ℤ) (vs : List ℤ) (v : ℤ) → contains (add w vs) v ≡ contains vs v || eqb_ℤ w v
contains-add w vs v = elim (Bool-cases (contains vs w)) [
  | inl old ↦ elim (Bool-cases (eqb_ℤ w v)) [
    | inl same ↦
        let here : contains vs v ≡ true =
          subst (λ x. contains vs x ≡ true) ((eqb_ℤ_iff w v).0 same) old in
        rw (old, same, here) refl
    | inr other ↦ rw (old, other) (ground arith)
  ]
  | inr new ↦ rw (new, contains-cons vs w v) (ground arith)
]

module _ (s : ℤ) (m : ProtocolManager) where
  abbrev route : ℤ → Option ProtocolPath
  route c = if eqb_ℤ s c then some [] else find_path s c m

  abbrev any_route : List ((ℤ × ℤ) × Protocol) → ℤ → Bool
  any_route [] v = false
  any_route (((t, c), p) ∷ entries) v = (eqb_ℤ c v && is_some (route c)) || any_route entries v

  contains-add_if :
      (path : Option ProtocolPath) (w : ℤ) (vs : List ℤ) (v : ℤ)
      → contains (add_if path w vs) v ≡ contains vs v || (eqb_ℤ w v && is_some path)
  contains-add_if none w vs v = ground arith
  contains-add_if (some path) w vs v = contains-add w vs v ∙ ground arith

  contains-supported_from :
      (entries : List ((ℤ × ℤ) × Protocol)) (supported : List ℤ) (n : ProtocolManager) (v : ℤ)
      → Reach n
      → n.protocols ≡ m.protocols
      → contains (supported_from s entries supported n).0 v
        ≡ contains supported v || any_route entries v
  unfolding supported_from
  contains-supported_from [] supported n v r same = ground arith
  contains-supported_from (((t, c), p) ∷ entries) supported n v r same =
      let asked = get_path s c n in
      let fresh : asked.0 ≡ route c =
        get_path_fresh s c r
        ∙ ap (λ x. if eqb_ℤ s c then some [] else x) (find_path-protocols s c n m same) in
      contains-supported_from entries (add_if asked.0 c supported) asked.1 v (next r (asking s c n))
        (get_path-protocols s c n ∙ same)
      ∙ rw (contains-add_if asked.0 c supported v, fresh) (ground arith)

  any_route-mem :
      (entries : List ((ℤ × ℤ) × Protocol)) (v t : ℤ) (p : Protocol)
      → Memᴰ ((t, v), p) entries
      → is_some (route v) ≡ true
      → any_route entries v ≡ true
  any_route-mem [] v t p k e = absurd (Memᴰ.not-nil k)
  any_route-mem (((t', c), q) ∷ entries) v t p k e = elim (Memᴰ.cases_cons k) [
    | inl at ↦
        let same : v ≡ c = ap (λ (x : (ℤ × ℤ) × Protocol). x.0.1) at in
        let found : is_some (route c) ≡ true = subst (λ x. is_some (route x) ≡ true) same e in
        rw ((eqb_ℤ_iff c v).1 (sym same), found) (ground arith)
    | inr k' ↦ rw (any_route-mem entries v t p k' e) (ground arith)
  ]

  any_route-is_some :
      (entries : List ((ℤ × ℤ) × Protocol)) (v : ℤ)
      → any_route entries v ≡ true
      → is_some (route v) ≡ true
  any_route-is_some [] v e = cc
  any_route-is_some (((t, c), p) ∷ entries) v e =
      elim (Bool-cases (eqb_ℤ c v && is_some (route c))) [
        | inl here ↦
            let (same, found) = both_true (eqb_ℤ c v) (is_some (route c)) here in
            subst (λ x. is_some (route x) ≡ true) ((eqb_ℤ_iff c v).0 same) found
        | inr later ↦ any_route-is_some entries v (rw later at e)
      ]

  found-IsRoute :
      (v : ℤ) (path : Option ProtocolPath)
      → IsRoute m v s path
      → is_some path ≡ true
      → (ps : ProtocolPath) × Chain m.protocols v s ps
  found-IsRoute v none r e = absurd (cc (e))
  found-IsRoute v (some ps) r e = (ps, r.0)

  reached-IsRoute :
      (v : ℤ) (path : Option ProtocolPath) (ps : ProtocolPath)
      → IsRoute m v s path
      → Chain m.protocols v s ps
      → is_some path ≡ true
  reached-IsRoute v none ps r c = absurd (r ps c)
  reached-IsRoute v (some path) ps r c = refl

  contains-supported :
      Reach m
      → (v : ℤ) → contains (get_supported_versions s m).0 v ≡ eqb_ℤ s v || any_route m.protocols v
  unfolding get_supported_versions contains
  contains-supported r v =
      contains-sorted (supported_from s m.protocols (s ∷ []) m).0 v
      ∙ contains-supported_from m.protocols (s ∷ []) m v r refl
      ∙ ground arith

  complete_by :
      {v : ℤ} (ps : ProtocolPath)
      → Chain m.protocols v s ps
      → is_some (route v) ≡ true
      → (eqb_ℤ s v || any_route m.protocols v) ≡ true
  complete_by {v} ps stop e = rw ((eqb_ℤ_iff v v).1 refl) refl
  complete_by {v} ps (hop {p = p} k c) e =
      let (t, k') =
        mem-for_client v m.protocols (subst (Memᴰ p) (edges-for_client m.protocols v) k) in
      rw (any_route-mem m.protocols v t p k' e) (ground arith)

  -- In every manager that registrations and queries lead to, the supported versions are those from
  -- which a chain of registered protocols leads to the server's version, and that version itself.
  pub get_supported_versions_lem :
      Reach m
      → (v : ℤ)
      → (contains (get_supported_versions s m).0 v ≡ true)
        ↔ ((ps : ProtocolPath) × Chain m.protocols v s ps)
  get_supported_versions_lem r v = (
    λ e. sound (sym (contains-supported r v) ∙ e),
    λ x. contains-supported r v ∙ complete x.0 x.1,
  )
    where
      routed : IsRoute m v s (route v)
      routed = subst (IsRoute m v s) (get_path_fresh s v r) (get_path_correct s v r)

      sound :
          (eqb_ℤ s v || any_route m.protocols v) ≡ true
          → (ps : ProtocolPath) × Chain m.protocols v s ps
      sound e = elim (Bool-cases (eqb_ℤ s v)) [
        | inl same ↦ ([], subst (λ x. Chain m.protocols x s []) ((eqb_ℤ_iff s v).0 same) stop)
        | inr other ↦
            found-IsRoute v (route v) routed (any_route-is_some m.protocols v (rw other at e))
      ]

      complete :
          (ps : ProtocolPath)
          → Chain m.protocols v s ps
          → (eqb_ℤ s v || any_route m.protocols v) ≡ true
      complete ps c = complete_by ps c (reached-IsRoute v (route v) ps routed c)

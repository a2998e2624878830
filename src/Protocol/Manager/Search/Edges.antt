-- ===== src/Protocol/Manager/Search/Edges.antt =====
-- The adjacency lists that the search builds.
use mathlib.Core.List.{Memᴰ}
use mathlib.Core.List.Memᴰ
use endweave.Prelude.{
  ◌≡◌, refl, sym, ap, inl, inr, true, ◌||◌, List, [], ◌∷◌, ◌++◌, append_assoc, append-nil, ℤ, eqb_ℤ,
  eqb_ℤ_iff, Dict, lookup, insert, lookup-insert, contains, int_eq, if◌then◌else◌, arith,
  Bool-cases, ◌↔◌,
}
use endweave.Protocol.{Protocol}
use endweave.Protocol.Manager.{adjacency_from, edges, or_nil}

-- The protocols that are registered for the client version `u`, in order.
unfoldable pub for_client : ℤ → Dict (ℤ × ℤ) Protocol → List Protocol
for_client u [] = []
for_client u (((s, c), p) ∷ entries) =
    let rest = for_client u entries in if eqb_ℤ c u then p ∷ rest else rest

adjacency_from-for_client :
    (u : ℤ) (entries : Dict (ℤ × ℤ) Protocol) (adjacency : Dict ℤ (List Protocol))
    → or_nil (lookup u (adjacency_from adjacency entries))
      ≡ or_nil (lookup u adjacency) ++ for_client u entries
unfolding adjacency_from for_client
adjacency_from-for_client u [] adjacency = rw append-nil
adjacency_from-for_client u (((s, c), p) ∷ entries) adjacency =
    let known = or_nil (lookup c adjacency) ++ p ∷ [] in
    let later = adjacency_from-for_client u entries (insert c known adjacency) in
    let found = lookup-insert c u known adjacency in
    elim (Bool-cases (eqb_ℤ c u)) [
      | inl same ↦
          let list : or_nil (lookup c adjacency) ≡ or_nil (lookup u adjacency) =
            ap (λ v. or_nil (lookup v adjacency)) ((eqb_ℤ_iff c u).0 same) in
          rw (later, found, same, append_assoc, list)
      | inr other ↦ rw (later, found, other)
    ]

pub edges-for_client :
    (protocols : Dict (ℤ × ℤ) Protocol) (u : ℤ) → edges protocols u ≡ for_client u protocols
unfolding edges lookup
edges-for_client protocols u = adjacency_from-for_client u protocols []

pub contains-cons : (s : List ℤ) (w v : ℤ) → contains (w ∷ s) v ≡ eqb_ℤ w v || contains s v
unfolding contains
contains-cons s w v = refl

-- The protocols of a version are registered, and each registered one stands there.
pub mem-for_client :
    (u : ℤ) (entries : Dict (ℤ × ℤ) Protocol) {p : Protocol}
    → Memᴰ p (for_client u entries)
    → (s : ℤ) × Memᴰ ((s, u), p) entries
unfolding for_client
mem-for_client u [] m = absurd (Memᴰ.not-nil m)
mem-for_client u (((s, c), q) ∷ entries) {p} m = elim (Bool-cases (eqb_ℤ c u)) [
  | inl same ↦ elim (Memᴰ.cases_cons (rw same at m)) [
    | inl e ↦ (s, Memᴰ.head (ground (arith, eqb_ℤ_iff c u)))
    | inr m' ↦ let (t, k) = mem-for_client u entries m' in (t, Memᴰ.tail k)
  ]
  | inr other ↦ let (t, k) = mem-for_client u entries (rw other at m) in (t, Memᴰ.tail k)
]

pub for_client-mem :
    (u : ℤ) (entries : Dict (ℤ × ℤ) Protocol) {s : ℤ} {p : Protocol}
    → Memᴰ ((s, u), p) entries
    → Memᴰ p (for_client u entries)
unfolding for_client
for_client-mem u [] m = absurd (Memᴰ.not-nil m)
for_client-mem u (((t, c), q) ∷ entries) {s} {p} m = elim (Memᴰ.cases_cons m) [
  | inl e ↦ let same : eqb_ℤ c u ≡ true = (eqb_ℤ_iff c u).1 (cc) in rw same (Memᴰ.head (cc))
  | inr m' ↦
      let ih = for_client-mem u entries m' in
      elim (Bool-cases (eqb_ℤ c u)) [ inl same ↦ rw same (Memᴰ.tail ih) | inr other ↦ rw other ih ]
]

pub contains_iff : (s : List ℤ) (v : ℤ) → (contains s v ≡ true) ↔ Memᴰ v s
contains_iff [] v = (λ e. absurd (unfold contains in cc e), λ m. absurd (Memᴰ.not-nil m))
contains_iff (w ∷ s) v = (
  λ e. elim (Bool-cases (eqb_ℤ w v)) [
    | inl same ↦ Memᴰ.head (sym ((eqb_ℤ_iff w v).0 same))
    | inr other ↦ Memᴰ.tail ((contains_iff s v).0 (rw (contains-cons s w v, other) at e))
  ],
  λ m. elim (Memᴰ.cases_cons m) [
    | inl e ↦ rw (contains-cons s w v, (eqb_ℤ_iff w v).1 (sym e))
    | inr m' ↦ rw (contains-cons s w v, (contains_iff s v).1 m') (ground arith)
  ],
)

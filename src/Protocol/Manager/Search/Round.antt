-- ===== src/Protocol/Manager/Search/Round.antt =====
-- One round of the search: what holds of the visited versions and of the queue.
use mathlib.Core.List.{Memᴰ}
use mathlib.Core.List.Memᴰ
use mathlib.Core.Path.{subst}
use native.Mathlib.Decide.{dec_lt}
use endweave.Prelude.{
  ℕ, suc, ◌≤◌, ◌<◌, ◌≡◌, ◌≢◌, sym, ap, ◌⊎◌, inl, inr, true, false, List, [], ◌∷◌, ◌++◌, ℤ, eqb_ℤ,
  eqb_ℤ_iff, Dict, contains, int_eq, arith, length, length-append, Bool-cases, beq_refl,
}
use endweave.Protocol.{Protocol}
use endweave.Protocol.Manager.{ProtocolPath, Queue, edges}
use endweave.Protocol.Manager.Search.{Chain, Chain-concat}
use endweave.Protocol.Manager.Search.Edges.{contains-cons}
use endweave.Protocol.Manager.Search.Queue.{IsSorted, IsSorted-concat}

pub eqb_ne : (a b : ℤ) → a ≢ b → eqb_ℤ a b ≡ false
eqb_ne a b h = elim (Bool-cases (eqb_ℤ a b)) [
  | inl e ↦ absurd (h ((eqb_ℤ_iff a b).0 e))
  | inr e ↦ e
]

pub contains_mono :
    (visited : List ℤ) (w v : ℤ) → contains visited v ≡ true → contains (w ∷ visited) v ≡ true
contains_mono visited w v h = rw (contains-cons visited w v, h) (ground arith)

module _ (protocols : Dict (ℤ × ℤ) Protocol) (source target : ℤ) where
  -- An entry of the queue: a shortest path to a visited version, of length d or d + 1.
  pub record Entry (visited : List ℤ) (d : ℕ) (u : ℤ) (path : ProtocolPath) : Type 0 where
    pub chain : Chain protocols source u path
    pub seen : contains visited u ≡ true
    pub low : d ≤ length path
    pub high : length path ≤ suc d
    pub shortest : (ps : ProtocolPath) → Chain protocols source u ps → length path ≤ length ps

  -- All versions at distance d or less are visited; a visited version waits in the queue, or is the
  -- one at hand, or has all its neighbours visited.
  pub record Inv (AtHand : ℤ → Type 0) (visited : List ℤ) (queue : Queue) (d : ℕ) : Type 0 where
    pub source_in : contains visited source ≡ true
    pub target_out : contains visited target ≡ false
    pub near :
        (v : ℤ) (ps : ProtocolPath)
        → Chain protocols source v ps
        → length ps ≤ d
        → contains visited v ≡ true
    pub entry : (u : ℤ) (path : ProtocolPath) → Memᴰ (u, path) queue → Entry visited d u path
    pub sorted : IsSorted queue
    pub closed :
        (u : ℤ)
        → contains visited u ≡ true
        → ((path : ProtocolPath) × Memᴰ (u, path) queue)
          ⊎ (AtHand u
              ⊎ ((p : Protocol)
                  → Memᴰ p (edges protocols u)
                  → contains visited p.server_protocol ≡ true))

  Entry-mono :
      (visited : List ℤ) (w : ℤ) (d : ℕ) (u : ℤ) (path : ProtocolPath)
      → Entry visited d u path
      → Entry (w ∷ visited) d u path
  Entry-mono visited w d u path e = record {
    chain = e.chain;
    seen = contains_mono visited w u e.seen;
    low = e.low;
    high = e.high;
    shortest = e.shortest;
  }

  module _ {AtHand : ℤ → Type 0} (visited : List ℤ) (queue : Queue) (current : ℤ)
      (path : ProtocolPath) (p : Protocol) (chain : Chain protocols source current path)
      (m : Memᴰ p (edges protocols current)) (ne : p.server_protocol ≢ target)
      (new : contains visited p.server_protocol ≡ false)
      (inv : Inv AtHand visited queue (length path)) where
    abbrev pub visited' : List ℤ
    visited' = p.server_protocol ∷ visited

    abbrev pub queue' : Queue
    queue' = queue ++ (p.server_protocol, path ++ p ∷ []) ∷ []

    far :
        (ps : ProtocolPath) → Chain protocols source p.server_protocol ps → length path < length ps
    far ps c = elim (dec_lt (length path) (length ps)) [
      | yes lt ↦ lt
      | no ge ↦ absurd (cc (new, inv.near p.server_protocol ps c (omega arith)))
    ]

    new-Entry : Entry visited' (length path) p.server_protocol (path ++ p ∷ [])
    new-Entry = record {
      chain = Chain-concat protocols chain m;
      seen =
          rw
            (contains-cons visited p.server_protocol p.server_protocol, beq_refl p.server_protocol);
      low = omega (arith, length-append path (p ∷ []));
      high = omega (arith, length-append path (p ∷ []));
      shortest = λ ps c. omega (arith, length-append path (p ∷ []), far ps c);
    }

    entry' :
        (u : ℤ) (other : ProtocolPath)
        → Memᴰ (u, other) queue'
        → Entry visited' (length path) u other
    entry' u other k = elim (Memᴰ.append_cases queue k) [
      | inl old ↦ Entry-mono visited p.server_protocol (length path) u other (inv.entry u other old)
      | inr last ↦
          subst (λ (e : ℤ × ProtocolPath). Entry visited' (length path) e.0 e.1)
            (sym (Memᴰ.eq_of_singleton last)) new-Entry
    ]

    abbrev Closed : List ℤ → Queue → ℤ → Type 0
    Closed vs q u =
        ((other : ProtocolPath) × Memᴰ (u, other) q)
        ⊎ (AtHand u
            ⊎ ((r : Protocol) → Memᴰ r (edges protocols u) → contains vs r.server_protocol ≡ true))

    Closed-mono : (u : ℤ) → Closed visited queue u → Closed visited' queue' u
    Closed-mono u (inl (other, k)) = inl (other, Memᴰ.append_left _ k)
    Closed-mono u (inr (inl h)) = inr (inl h)
    Closed-mono u (inr (inr all)) =
        inr (inr (λ r k. contains_mono visited p.server_protocol r.server_protocol (all r k)))

    closed' : (u : ℤ) → contains visited' u ≡ true → Closed visited' queue' u
    closed' u k = elim (Bool-cases (eqb_ℤ p.server_protocol u)) [
      | inl same ↦ inl (
        path ++ p ∷ [],
        Memᴰ.append_right queue (
            Memᴰ.head
              (ap (λ v. (v, path ++ p ∷ [])) (sym ((eqb_ℤ_iff p.server_protocol u).0 same)))),
      )
      | inr other ↦
          Closed-mono u (inv.closed u (rw (contains-cons visited p.server_protocol u, other) at k))
    ]

    -- A neighbour that is not visited yet becomes visited, and waits at the end of the queue.
    pub Inv-offer : Inv AtHand visited' queue' (length path)
    Inv-offer = record {
      source_in = contains_mono visited p.server_protocol source inv.source_in;
      target_out = rw (
        contains-cons visited p.server_protocol target,
        inv.target_out,
        eqb_ne p.server_protocol target ne,
      );
      near = λ w ps c le. contains_mono visited p.server_protocol w (inv.near w ps c le);
      entry = entry';
      sorted =
          IsSorted-concat queue p.server_protocol (path ++ p ∷ []) inv.sorted
            (λ w o k. omega (arith, length-append path (p ∷ []), (inv.entry w o k).high));
      closed = closed';
    }

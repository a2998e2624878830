-- ===== src/Protocol/Manager/Search/Loop.antt =====
-- From one round of the search to the next, and to its end.
use mathlib.Core.List.{Memᴰ}
use mathlib.Core.List.Memᴰ
use mathlib.Core.Path.{subst}
use native.Mathlib.Decide.{dec_le}
use endweave.Prelude.{
  ℕ, ◌≤◌, ◌≡◌, refl, sym, ap, inl, inr, true, List, [], ◌∷◌, ℤ, Dict, contains, int_eq, arith,
  length,
}
use endweave.Protocol.{Protocol}
use endweave.Protocol.Manager.{ProtocolPath, Queue, edges}
use endweave.Protocol.Manager.Search.{Chain, Chain-nil, Chain-hop, Chain-last}
use endweave.Protocol.Manager.Search.Queue.{Later, All-mem}
use endweave.Protocol.Manager.Search.Round.{Entry, Inv}

module _ (protocols : Dict (ℤ × ℤ) Protocol) (source target : ℤ) where
  abbrev pub Idle : ℤ → Type 0
  Idle u = ⊥

  module _ {visited : List ℤ} {current : ℤ} {path : ProtocolPath} {queue : Queue} {d : ℕ}
      (inv : Inv protocols source target Idle visited ((current, path) ∷ queue) d) where
    first : Entry protocols source target visited d current path
    first = inv.entry current path (Memᴰ.head refl)

    -- The entry in front is one of the shortest.
    front : (u : ℤ) (other : ProtocolPath) → Memᴰ (u, other) queue → length path ≤ length other
    front u other k = All-mem (Later (length path)) queue inv.sorted.0 k

    none_shorter :
        (u : ℤ) (other : ProtocolPath)
        → Memᴰ (u, other) ((current, path) ∷ queue)
        → length path ≤ length other
    none_shorter u other k = elim (Memᴰ.cases_cons k) [
      | inl e ↦ omega (arith, ap (λ (x : ℤ × ProtocolPath). length x.1) e)
      | inr k' ↦ front u other k'
    ]

    -- A version that a path as long as the front entry's leads to is visited.
    near_front :
        (v : ℤ) (ps : ProtocolPath)
        → Chain protocols source v ps
        → length ps ≤ length path
        → contains visited v ≡ true
    near_front v [] c le = inv.near v [] c (omega arith)
    near_front v (p ∷ ps) c le = elim (dec_le (length (p ∷ ps)) d) [
      | yes short ↦ inv.near v (p ∷ ps) c short
      | no long ↦
          let (w, q, qs, c', m, e, n) = Chain-last protocols c in
          let bound : length qs ≤ d = omega (arith, first.high) in
          elim (inv.closed w (inv.near w qs c' bound)) [
            | inl (other, k) ↦ absurd (
                omega
                  (arith, none_shorter w other k, (inv.entry w other k).shortest qs c', first.high))
            | inr (inl h) ↦ absurd h
            | inr (inr all) ↦ subst (λ u. contains visited u ≡ true) e (all q m)
          ]
    ]

    -- The front entry leaves the queue.
    pub Inv-enter : Inv protocols source target (λ u. u ≡ current) visited queue (length path)
    Inv-enter = record {
      source_in = inv.source_in;
      target_out = inv.target_out;
      near = near_front;
      entry = λ u other k.
          let old = inv.entry u other (Memᴰ.tail k) in
          record {
            chain = old.chain;
            seen = old.seen;
            low = front u other k;
            high = omega (arith, old.high, first.low);
            shortest = old.shortest;
          };
      sorted = inv.sorted.1;
      closed = λ u k. elim (inv.closed u k) [
        | inl (other, m) ↦ elim (Memᴰ.cases_cons m) [
          | inl e ↦ inr (inl (ap (λ (x : ℤ × ProtocolPath). x.0) e))
          | inr m' ↦ inl (other, m')
        ]
        | inr (inl h) ↦ absurd h
        | inr (inr all) ↦ inr (inr all)
      ];
    }

  -- All neighbours of the version at hand are visited.
  pub Inv-leave :
      {visited : List ℤ} {queue : Queue} {d : ℕ} (current : ℤ)
      → Inv protocols source target (λ u. u ≡ current) visited queue d
      → ((p : Protocol)
          → Memᴰ p (edges protocols current)
          → contains visited p.server_protocol ≡ true)
      → Inv protocols source target Idle visited queue d
  Inv-leave {visited} current inv all = record {
    source_in = inv.source_in;
    target_out = inv.target_out;
    near = inv.near;
    entry = inv.entry;
    sorted = inv.sorted;
    closed = λ u k. elim (inv.closed u k) [
      | inl waits ↦ inl waits
      | inr (inl e) ↦ inr (
          inr (
            subst
              (λ (v : ℤ).
                (p : Protocol)
                → Memᴰ p (edges protocols v)
                → contains visited p.server_protocol ≡ true)
              (sym e) all))
      | inr (inr done) ↦ inr (inr done)
    ];
  }

  -- With an empty queue no path leads from a visited version to the target.
  pub no-Chain :
      {visited : List ℤ} {d : ℕ}
      → Inv protocols source target Idle visited [] d
      → (u : ℤ) (ps : ProtocolPath) → contains visited u ≡ true
      → Chain protocols u target ps
      → ⊥
  no-Chain {visited} inv u [] k c =
      cc (inv.target_out, subst (λ v. contains visited v ≡ true) (Chain-nil protocols c) k)
  no-Chain {visited} inv u (p ∷ ps) k c =
      let (m, rest) = Chain-hop protocols c in
      elim (inv.closed u k) [
        | inl (other, w) ↦ absurd (Memᴰ.not-nil w)
        | inr (inl h) ↦ h
        | inr (inr all) ↦ no-Chain inv p.server_protocol ps (all p m) rest
      ]

-- ===== src/Protocol/Manager/Search/Correct.antt =====
-- protocol/manager.py: what the search answers.
use mathlib.Core.List.{Memᴰ}
use mathlib.Core.List.Memᴰ
use mathlib.Core.Path.{subst, subst₂}
use native.Mathlib.Decide.{dec_le}
use endweave.Prelude.{
  ℕ, zero, suc, ◌+◌, ◌≤◌, ◌≡◌, ◌≢◌, refl, sym, ap, inl, inr, true, List, [], ◌∷◌, ◌++◌, ℤ, eqb_ℤ,
  eqb_ℤ_iff, Dict, contains, int_eq, arith, length, length-append, Bool-cases, beq_refl,
}
use endweave.Protocol.{Protocol}
use endweave.Protocol.Manager.{
  ProtocolPath, Queue, Scan, found, going, scan, edges, Outcome, returned, unreachable, out_of_fuel,
  loop, bfs,
}
use endweave.Protocol.Manager.Search.{Chain, stop, Chain-concat, Chain-nil}
use endweave.Protocol.Manager.Search.Edges.{contains-cons, contains_iff}
use endweave.Protocol.Manager.Search.Fuel.{unseen, unseen-le-length, unseen-offer}
use endweave.Protocol.Manager.Search.Loop.{Idle, Inv-enter, Inv-leave, no-Chain}
use endweave.Protocol.Manager.Search.Round.{Entry, Inv, Inv-offer, contains_mono, eqb_ne}

module _ (protocols : Dict (ℤ × ℤ) Protocol) (source target : ℤ) where
  module _ (current : ℤ) (path : ProtocolPath) (chain : Chain protocols source current path) where
    abbrev AtHand : ℤ → Type 0
    AtHand u = u ≡ current

    -- What a scan of the neighbours `ps` ends with.
    abbrev Scanned : List Protocol → List ℤ → Queue → Scan → Type 0
    Scanned ps visited queue (found result) =
        (p : Protocol) × Memᴰ p (edges protocols current)
        × (p.server_protocol ≡ target)
        × (result ≡ path ++ p ∷ [])
    Scanned ps visited queue (going visited' queue') =
        Inv protocols source target AtHand visited' queue' (length path)
        × ((v : ℤ) → contains visited v ≡ true → contains visited' v ≡ true)
        × ((p : Protocol) → Memᴰ p ps → contains visited' p.server_protocol ≡ true)
        × (length queue' + unseen visited' protocols ≤ length queue + unseen visited protocols)

    Scanned-cons :
        (p : Protocol) (ps : List Protocol) (visited visited₂ : List ℤ) (queue queue₂ : Queue)
        (result : Scan)
        → ((v : ℤ) → contains visited v ≡ true → contains visited₂ v ≡ true)
        → contains visited₂ p.server_protocol ≡ true
        → length queue₂ + unseen visited₂ protocols ≤ length queue + unseen visited protocols
        → Scanned ps visited₂ queue₂ result
        → Scanned (p ∷ ps) visited queue result
    Scanned-cons p ps visited visited₂ queue queue₂ (found r) sub in₂ le h = h
    Scanned-cons p ps visited visited₂ queue queue₂ (going visited' queue') sub in₂ le
          (inv, more, all, le') =
        (
          inv,
          λ v k. more v (sub v k),
          λ q k. elim (Memᴰ.cases_cons k) [
            | inl e ↦ rw e (more p.server_protocol in₂)
            | inr k' ↦ all q k'
          ],
          omega arith,
        )

    scan-Scanned :
        (ps : List Protocol) (visited : List ℤ) (queue : Queue)
        → ((p : Protocol) → Memᴰ p ps → Memᴰ p (edges protocols current))
        → Inv protocols source target AtHand visited queue (length path)
        → Scanned ps visited queue (scan target path ps visited queue)
    unfolding scan
    scan-Scanned [] visited queue sub inv =
        (inv, λ v h. h, λ p k. absurd (Memᴰ.not-nil k), omega arith)
    scan-Scanned (p ∷ ps) visited queue sub inv =
        elim (Bool-cases (eqb_ℤ p.server_protocol target)) [
          | inl hit ↦
              rw hit (p, sub p (Memᴰ.head refl), (eqb_ℤ_iff p.server_protocol target).0 hit, refl)
          | inr miss ↦ elim (Bool-cases (contains visited p.server_protocol)) [
            | inl old ↦
                rw (miss, old)
                  (Scanned-cons p ps visited visited queue queue _ (λ v k. k) old (omega arith)
                    (scan-Scanned ps visited queue (λ q k. sub q (Memᴰ.tail k)) inv))
            | inr new ↦
                let m : Memᴰ p (edges protocols current) = sub p (Memᴰ.head refl) in
                let ne : p.server_protocol ≢ target =
                  λ e. cc (miss, (eqb_ℤ_iff p.server_protocol target).1 e) in
                let next : Queue = queue ++ (p.server_protocol, path ++ p ∷ []) ∷ [] in
                rw (miss, new)
                  (Scanned-cons p ps visited (p.server_protocol ∷ visited) queue next _
                    (λ v k. contains_mono visited p.server_protocol v k)
                    (rw (
                      contains-cons visited p.server_protocol p.server_protocol,
                      beq_refl p.server_protocol,
                    ))
                    (omega (
                      arith,
                      length-append queue ((p.server_protocol, path ++ p ∷ []) ∷ []),
                      unseen-offer visited protocols current p m new,
                    ))
                    (scan-Scanned ps (p.server_protocol ∷ visited) next (λ q k. sub q (Memᴰ.tail k))
                      (Inv-offer protocols source target visited queue current path p chain m ne new
                        inv)))
          ]
        ]

  -- What the search may answer.
  abbrev pub Answers : Outcome → Type 0
  Answers (returned path) =
      Chain protocols source target path
      × ((ps : ProtocolPath) → Chain protocols source target ps → length path ≤ length ps)
  Answers unreachable = (ps : ProtocolPath) → ¬ Chain protocols source target ps
  Answers out_of_fuel = ⊥

  -- After the scan of the front entry the loop returns, or goes on.
  abbrev continued : ℕ → Scan → Outcome
  continued fuel (found result) = returned result
  continued fuel (going visited queue) = loop protocols target fuel visited queue

  Answers-continued :
      (fuel : ℕ) (current : ℤ) (path : ProtocolPath) (chain : Chain protocols source current path)
      (visited : List ℤ) (queue : Queue)
      → Inv protocols source target (λ u. u ≡ current) visited queue (length path)
      → length queue + unseen visited protocols ≤ fuel
      → ((visited' : List ℤ) (queue' : Queue)
          → Inv protocols source target (Idle protocols source target) visited' queue' (length path)
          → length queue' + unseen visited' protocols ≤ fuel
          → Answers (loop protocols target fuel visited' queue'))
      → (result : Scan) → Scanned current path chain (edges protocols current) visited queue result
      → Answers (continued fuel result)
  Answers-continued fuel current path chain visited queue inv le again (found result)
        (p, m, e, eq) =
      (
        subst₂ (λ (v : ℤ) (r : ProtocolPath). Chain protocols source v r) e (sym eq)
            (Chain-concat protocols chain m),
        λ ps c. elim (dec_le (length ps) (length path)) [
          | yes short ↦ absurd (cc (inv.target_out, inv.near target ps c short))
          | no long ↦ omega (arith, ap length eq, length-append path (p ∷ []))
        ],
      )
  Answers-continued fuel current path chain visited queue inv le again (going visited' queue')
        (inv', more, all, le') =
      again visited' queue' (Inv-leave protocols source target current inv' all) (omega arith)

  loop-Answers :
      (fuel : ℕ) (visited : List ℤ) (queue : Queue) (d : ℕ)
      → Inv protocols source target (Idle protocols source target) visited queue d
      → length queue + unseen visited protocols ≤ fuel
      → Answers (loop protocols target fuel visited queue)
  unfolding loop
  loop-Answers fuel visited [] d inv le =
      λ ps c. no-Chain protocols source target inv source ps inv.source_in c
  loop-Answers zero visited ((current, path) ∷ queue) d inv le = absurd (omega arith)
  loop-Answers (suc fuel) visited ((current, path) ∷ queue) d inv le =
      let chain = (inv.entry current path (Memᴰ.head refl)).chain in
      let entered = Inv-enter protocols source target inv in
      Answers-continued fuel current path chain visited queue entered (omega arith)
        (λ visited' queue' inv' le'. loop-Answers fuel visited' queue' (length path) inv' le')
        (scan target path (edges protocols current) visited queue)
        (scan-Scanned current path chain (edges protocols current) visited queue (λ p m. m) entered)

  Inv-start :
      source ≢ target
      → Inv protocols source target
          (Idle protocols source target)
          (source ∷ [])
          ((source, []) ∷ [])
          0
  Inv-start ne = record {
    source_in = in_start;
    target_out =
        rw (contains-cons [] source target, eqb_ne source target ne) (unfold contains in refl);
    near = λ v ps c le. nearest v ps c le;
    entry = λ u other k. at_source u other (Memᴰ.eq_of_singleton k);
    sorted = (tt, tt);
    closed = λ u k. inl ([], Memᴰ.head (ap (λ (v : ℤ). (v, [])) (only u k)));
  }
    where
      in_start : contains (source ∷ []) source ≡ true
      in_start = rw (contains-cons [] source source, beq_refl source)

      nearest :
          (v : ℤ) (ps : ProtocolPath)
          → Chain protocols source v ps
          → length ps ≤ 0
          → contains (source ∷ []) v ≡ true
      nearest v [] c le =
          subst (λ u. contains (source ∷ []) u ≡ true) (Chain-nil protocols c) in_start
      nearest v (p ∷ ps) c le = absurd (omega arith)

      only : (u : ℤ) → contains (source ∷ []) u ≡ true → u ≡ source
      only u k = Memᴰ.eq_of_singleton ((contains_iff (source ∷ []) u).0 k)

      at_source :
          (u : ℤ) (other : ProtocolPath)
          → ◌≡◌ {A = ℤ × ProtocolPath} (u, other) (source, [])
          → Entry protocols source target (source ∷ []) 0 u other
      at_source u other e =
          subst (λ (x : ℤ × ProtocolPath). Entry protocols source target (source ∷ []) 0 x.0 x.1)
            (sym e)
            (record {
              chain = stop;
              seen = in_start;
              low = omega arith;
              high = omega arith;
              shortest = λ ps c. omega arith;
            })

  -- Between two versions the search returns a chain of registered protocols that is as short as any;
  -- it says that there is none only if there is none; and it does not run out of fuel.
  pub bfs-Answers : source ≢ target → Answers (bfs protocols target source)
  unfolding bfs
  bfs-Answers ne =
      loop-Answers (suc (length protocols)) (source ∷ []) ((source, []) ∷ []) 0 (Inv-start ne)
        (omega (arith, unseen-le-length (source ∷ []) protocols))

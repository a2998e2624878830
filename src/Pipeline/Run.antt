-- ===== src/Pipeline/Run.antt =====
-- pipeline.py: the loop over the protocols, and a composition of translations.
use endweave.Prelude.{
  ℕ, ◌≡◌, refl, false, Option, some, List, [], ◌∷◌, ◌++◌, arith, Bool-cases, inl, inr, ◌∙◌,
}
use endweave.Exec.{Result, ok, raised}
use endweave.Codec.Wrapper.{wrap, to_bytes}
use endweave.Codec.Wrapper.Fields.{to_bytes-Holds}
use endweave.Protocol.Base.Detect.{start_Holds}
use endweave.Connection.{User}
use endweave.Protocol.{Direction, Wrapper, Protocol, has_handler_or_cancel, transform}
use endweave.Protocol.Transform.{transform-none}
use endweave.Pipeline.{Outcome, passed, cancelled, failed, settle, user_of, run}

-- The specification: each protocol translates the payload of the one before it, and the first that
-- drops the packet ends it. No protocol is passed by.
abbrev pub Translation : Type 0
Translation = List ℕ → User → Outcome × User

abbrev pub after : Translation → Outcome × User → Outcome × User
after next (passed payload, u) = next payload u
after next (cancelled, u) = (cancelled, u)
after next (failed exc protocol payload, u) = (failed exc protocol payload, u)

abbrev pub translate : Direction → ℕ → Protocol → Translation
translate direction packet_id p payload u =
    settle (λ payload' u'. (passed payload', u')) p payload u
      (transform direction packet_id p (wrap payload (some u)))

abbrev pub translate_all : Direction → ℕ → List Protocol → Translation
translate_all direction packet_id [] payload u = (passed payload, u)
translate_all direction packet_id (p ∷ ps) payload u =
    after (translate_all direction packet_id ps) (translate direction packet_id p payload u)

-- A wrapper that nothing was done to gives its payload back.
pub to_bytes-wrap :
    {U : Type 0} (payload : List ℕ) (u : Option U) → to_bytes (wrap payload u) ≡ payload
to_bytes-wrap payload u = to_bytes-Holds (wrap payload u) payload (start_Holds payload u)

settle-after :
    (next : Translation) (p : Protocol) (payload : List ℕ) (u : User)
    (r : Result (Unit {0}) × Wrapper)
    → settle next p payload u r
      ≡ after next (settle (λ payload' u'. (passed payload', u')) p payload u r)
settle-after next p payload u (raised exc, w) = refl
settle-after next p payload u (ok done, w) = ground arith

translate-idle :
    (direction : Direction) (packet_id : ℕ) (p : Protocol) (payload : List ℕ) (u : User)
    → has_handler_or_cancel direction packet_id p ≡ false
    → translate direction packet_id p payload u ≡ (passed payload, u)
translate-idle direction packet_id p payload u h =
    rw
      (
        transform-none direction packet_id p (wrap payload (some u)) h,
        to_bytes-wrap payload (some u),
      )
      refl

after-cong :
    {next next' : Translation} (o : Outcome × User)
    → ((payload : List ℕ) (u : User) → next payload u ≡ next' payload u)
    → after next o ≡ after next' o
after-cong (passed payload, u) h = h payload u
after-cong (cancelled, u) h = refl
after-cong (failed exc protocol payload, u) h = refl

-- To pass by the protocols that have nothing for a packet, as the loop does, changes nothing: the
-- loop is the composition of all the protocols' translations.
pub run_lem :
    (direction : Direction) (packet_id : ℕ) (ps : List Protocol) (payload : List ℕ) (u : User)
    → run direction packet_id ps payload u ≡ translate_all direction packet_id ps payload u
unfolding run
run_lem direction packet_id [] payload u = refl
run_lem direction packet_id (p ∷ ps) payload u =
    elim (Bool-cases (has_handler_or_cancel direction packet_id p)) [
      | inl e ↦ rw e (
          settle-after (run direction packet_id ps) p payload u
            (transform direction packet_id p (wrap payload (some u)))
          ∙ after-cong (translate direction packet_id p payload u) (run_lem direction packet_id ps))
      | inr e ↦ rw e (
          rw (translate-idle direction packet_id p payload u e)
            (run_lem direction packet_id ps payload u))
    ]

settle-append :
    (next rest : Translation) (p : Protocol) (payload : List ℕ) (u : User)
    (r : Result (Unit {0}) × Wrapper)
    → settle (λ payload' u'. after rest (next payload' u')) p payload u r
      ≡ after rest (settle next p payload u r)
settle-append next rest p payload u (raised exc, w) = refl
settle-append next rest p payload u (ok done, w) = ground arith

settle-cong :
    {next next' : Translation} (p : Protocol) (payload : List ℕ) (u : User)
    (r : Result (Unit {0}) × Wrapper)
    → ((payload' : List ℕ) (u' : User) → next payload' u' ≡ next' payload' u')
    → settle next p payload u r ≡ settle next' p payload u r
settle-cong p payload u (raised exc, w) h = refl
settle-cong p payload u (ok done, w) h = ground (arith, h (to_bytes w) (user_of w.connection u))

-- The protocols of a list that is put together run one part after the other: those behind a drop do
-- not run.
pub run-append :
    (direction : Direction) (packet_id : ℕ) (ps qs : List Protocol) (payload : List ℕ) (u : User)
    → run direction packet_id (ps ++ qs) payload u
      ≡ after (run direction packet_id qs) (run direction packet_id ps payload u)
unfolding run
run-append direction packet_id [] qs payload u = refl
run-append direction packet_id (p ∷ ps) qs payload u =
    let r = transform direction packet_id p (wrap payload (some u)) in
    let rest = run direction packet_id qs in
    elim (Bool-cases (has_handler_or_cancel direction packet_id p)) [
      | inl e ↦ rw e (
          settle-cong p payload u r (run-append direction packet_id ps qs)
          ∙ settle-append (run direction packet_id ps) rest p payload u r)
      | inr e ↦ rw e (run-append direction packet_id ps qs payload u)
    ]

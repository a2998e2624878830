-- ===== src/Steps/Consumed.antt =====
-- Handlers that take a payload to its end, and refuse what follows it.
use endweave.Prelude.{
  ℕ, ◌≡◌, refl, ◌∙◌, true, false, some, List, [], ◌∷◌, ◌++◌, int_eq, arith, append-nil,
}
use endweave.Exec.{Exec, ok, raised, value_error, ◌>>=◌, ◌>>◌}
use endweave.Codec.Reader.View.{Holds, Holds-advance, Holds-append, Holds-length}
use endweave.Codec.Wrapper.{PacketWrapper, wrap, has_remaining}
use endweave.Codec.Wrapper.Fields.{moved, moved-moved, to_bytes-Holds, Rewrites}
use endweave.Connection.{User}
use endweave.Protocol.{PacketHandler}
use endweave.Protocol.Base.Detect.{Forwards, start_Holds}
use endweave.Steps.V975ToV1001.BossEvent.{check_consumed}

-- A handler that takes a payload to its end.
pub record Consumes (m : PacketHandler) (old new : List ℕ) : Type 0 where
  pub at : (w : PacketWrapper User) → Holds w.reader old → m w ≡ (ok tt, moved w old new)

pub Consumes-bind :
    {A : Type 0} (m : Exec (PacketWrapper User) A) (f : A → PacketHandler)
    {old new old' new' : List ℕ} {v : A}
    → Rewrites m old new v
    → Consumes (f v) old' new'
    → Consumes (m >>= f) (old ++ old') (new ++ new')
Consumes-bind m f {old} {new} {old'} {new'} rm c = record {
  at = λ w h. rw (rm.at w old' h) (
      c.at (moved w old new) (Holds-advance w.reader old old' h)
      ∙ rw (moved-moved w old new old' new'));
}

nothing_left : (w : PacketWrapper User) → Holds w.reader [] → has_remaining w ≡ false
nothing_left w h = ground (arith, Holds-length w.reader [] [] h)

something_left :
    (w : PacketWrapper User) (b : ℕ) (bs : List ℕ)
    → Holds w.reader (b ∷ bs)
    → has_remaining w ≡ true
something_left w b bs h = ground (arith, Holds-length w.reader [] (b ∷ bs) h)

pub Consumes-check :
    (m : PacketHandler) {new : List ℕ}
    → Rewrites m [] new tt
    → Consumes (check_consumed >> m) [] new
unfolding check_consumed
Consumes-check m r = record { at = λ w h. rw (nothing_left w h) (r.at w [] h) }

pub Consumes-Forwards :
    (m : PacketHandler) {old new : List ℕ} (u : User)
    → Consumes m old new
    → Forwards (m (wrap old (some u))) new u
Consumes-Forwards m {old} {new} u c =
    let run = c.at (wrap old (some u)) (start_Holds old (some u)) in
    rw run (record {
      returns = refl;
      passes = refl;
      output = to_bytes-Holds (moved (wrap old (some u)) old new) [] (ended old) ∙ append-nil new;
      user = refl;
    })
  where
    ended : (old : List ℕ) → Holds (moved (wrap old (some u)) old new).reader []
    ended old =
        Holds-advance (wrap old (some u)).reader old []
          (rw (append-nil old) (start_Holds old (some u)))

-- A handler that raises `ValueError` if anything follows the bytes.
pub record Refuses (m : PacketHandler) (old : List ℕ) : Type 0 where
  pub at :
      (w : PacketWrapper User) (b : ℕ) (rest : List ℕ)
      → Holds w.reader (old ++ (b ∷ rest))
      → (m w).0 ≡ raised value_error

pub Refuses-bind :
    {A : Type 0} (m : Exec (PacketWrapper User) A) (f : A → PacketHandler) {old new old' : List ℕ}
    {v : A}
    → Rewrites m old new v
    → Refuses (f v) old'
    → Refuses (m >>= f) (old ++ old')
Refuses-bind m f {old} {new} {old'} rm c = record {
  at = λ w b rest h.
      let h' = Holds-append old old' (b ∷ rest) h in
      rw (rm.at w (old' ++ (b ∷ rest)) h')
        (c.at (moved w old new) b rest (Holds-advance w.reader old (old' ++ (b ∷ rest)) h'));
}

pub Refuses-check : (m : PacketHandler) → Refuses (check_consumed >> m) []
unfolding check_consumed
Refuses-check m = record { at = λ w b rest h. rw (something_left w b rest h) refl }

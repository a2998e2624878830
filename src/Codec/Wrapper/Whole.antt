-- ===== src/Codec/Wrapper/Whole.antt =====
-- Handlers that take the whole payload. `Finishes m old new` says that `m` turns the bytes `old` at
-- the front of the input into `new`, and passes on all that follows, up to the end of the payload.
use endweave.Prelude.{
  ℕ, ◌+◌, ◌≡◌, refl, ◌∙◌, Option, List, [], ◌++◌, arith, append_assoc, append-nil, length,
}
use endweave.Exec.{Exec, ok, pure, ◌>>=◌}
use endweave.Codec.Reader.{read_remaining}
use endweave.Codec.Reader.View.{Holds, Holds-advance, Holds-append, Holds-length}
use endweave.Codec.Writer.{write_bytes}
use endweave.Codec.Writer.View.{Writes}
use endweave.Codec.FieldType.{FieldType}
use endweave.Codec.Wrapper.{PacketWrapper, wrap, read, write, passthrough_all, to_bytes}
use endweave.Codec.Wrapper.Fields.{moved, moved-moved, to_bytes-Holds, Rewrites, Rewrites-bind}

module _ {U : Type 0} where
  pub record Finishes (m : Exec (PacketWrapper U) (Unit {0})) (old new : List ℕ) : Type 0 where
    pub at :
        (w : PacketWrapper U) (rest : List ℕ)
        → Holds w.reader (old ++ rest)
        → m w ≡ (ok tt, moved w (old ++ rest) (new ++ rest))

  pub Finishes-all : Finishes (passthrough_all >>= λ remaining. pure tt) [] []
  unfolding passthrough_all read_remaining write_bytes
  Finishes-all = record { at = λ w rest h. rw (h.left, at_end w rest h) refl }
    where
      at_end :
          (w : PacketWrapper U) (rest : List ℕ)
          → Holds w.reader rest
          → length w.reader.bytes ≡ w.reader.position + length rest
      at_end w rest h = omega (arith, Holds-length w.reader [] rest h)

  pub Finishes-bind :
      {A : Type 0} (m : Exec (PacketWrapper U) A) (f : A → Exec (PacketWrapper U) (Unit {0}))
      {old new old' new' : List ℕ} {v : A}
      → Rewrites m old new v
      → Finishes (f v) old' new'
      → Finishes (m >>= f) (old ++ old') (new ++ new')
  Finishes-bind m f {old} {new} {old'} {new'} rm ff = record {
    at = λ w rest h.
        let h' = Holds-append old old' rest h in
        rw (rm.at w (old' ++ rest) h', append_assoc old old' rest, append_assoc new new' rest)
          (ff.at (moved w old new) rest (Holds-advance w.reader old (old' ++ rest) h')
            ∙ rw (moved-moved w old new (old' ++ rest) (new' ++ rest)));
  }

  -- A write alone, whatever the field type reads.
  pub Rewrites-written :
      {A : Type 0} (T : FieldType A) (v : A) (bs : List ℕ)
      → Writes (T.write v) bs
      → Rewrites {U = U} (write T v) [] bs tt
  unfolding write
  Rewrites-written T v bs h = record { at = λ w rest k. rw (h.at w.writer) (ground arith) }

  -- The last step before the rest of the payload.
  pub Finishes-last :
      {A : Type 0} (m : Exec (PacketWrapper U) A) {old new : List ℕ} {v : A}
      → Rewrites m old new v
      → Finishes (m >>= λ x. passthrough_all >>= λ remaining. pure tt) old new
  Finishes-last m {old} {new} r =
      rw (append-nil old, append-nil new) at
        (Finishes-bind m (λ x. passthrough_all >>= λ remaining. pure tt) r Finishes-all)

  -- A field that is replaced by another.
  pub Rewrites-replace :
      {A : Type 0} (T T' : FieldType A) (f : A → A) {old new : List ℕ} {v : A}
      → Rewrites {U = U} (read T) old [] v
      → Rewrites {U = U} (write T' (f v)) [] new tt
      → Rewrites {U = U} (read T >>= λ x. write T' (f x)) old new tt
  Rewrites-replace T T' f {old} {new} r r' =
      rw (append-nil old) at (Rewrites-bind (read T) (λ x. write T' (f x)) r r')

  pub Finishes-packet :
      (m : Exec (PacketWrapper U) (Unit {0})) {old new : List ℕ} (rest : List ℕ) (u : Option U)
      → Finishes m old new
      → (m (wrap (old ++ rest) u)
          ≡ (ok tt, moved (wrap (old ++ rest) u) (old ++ rest) (new ++ rest)))
        × (to_bytes (m (wrap (old ++ rest) u)).1 ≡ new ++ rest)
  Finishes-packet m {old} {new} rest u f = (run, rw run output)
    where
      start : Holds (wrap (old ++ rest) u).reader (old ++ rest)
      start = record { within = omega arith; left = refl }

      start' : Holds (wrap (old ++ rest) u).reader ((old ++ rest) ++ [])
      start' = rw append-nil start

      run :
          m (wrap (old ++ rest) u)
          ≡ (ok tt, moved (wrap (old ++ rest) u) (old ++ rest) (new ++ rest))
      run = f.at (wrap (old ++ rest) u) rest start

      output : to_bytes (moved (wrap (old ++ rest) u) (old ++ rest) (new ++ rest)) ≡ new ++ rest
      output =
          to_bytes-Holds (moved (wrap (old ++ rest) u) (old ++ rest) (new ++ rest)) []
            (Holds-advance (wrap (old ++ rest) u).reader (old ++ rest) [] start')
          ∙ append-nil (new ++ rest)

-- ===== src/Codec/Wrapper/Fields.antt =====
-- What a handler does to a payload, field by field. `Rewrites m old new v` says that `m` takes the
-- bytes `old` from the front of the input, appends `new` to the output, and returns `v`, whatever
-- follows in the input; the connection and the cancelled flag are left alone.
use endweave.Prelude.{
  ℕ, ◌≡◌, refl, ap, ◌∙◌, Option, List, [], ◌++◌, arith, append_assoc, append-nil, length,
  length-append, length-drop, length-eq_zero, ◌≤◌, Bool-cases, inl, inr, ltb,
}
use endweave.Exec.{Exec, ok, pure, ◌>>=◌}
use endweave.Codec.Reader.{advance}
use endweave.Codec.Reader.View.{Holds, Holds-advance, Holds-append}
use endweave.Codec.Writer.View.{extended}
use endweave.Codec.FieldType.{FieldType}
use endweave.Codec.FieldType.Codes.{Codes}
use endweave.Codec.Wrapper.{PacketWrapper, wrap, read, write, map, passthrough, to_bytes}

module _ {U : Type 0} where
  abbrev pub moved : PacketWrapper U → List ℕ → List ℕ → PacketWrapper U
  moved w old new = record w {
    reader = advance (length old) w.reader;
    writer = extended w.writer new;
  }

  pub record Rewrites {A : Type 0} (m : Exec (PacketWrapper U) A) (old new : List ℕ) (v : A)
      : Type 0 where
    pub at :
        (w : PacketWrapper U) (rest : List ℕ)
        → Holds w.reader (old ++ rest)
        → m w ≡ (ok v, moved w old new)

  pub moved-moved :
      (w : PacketWrapper U) (old new old' new' : List ℕ)
      → moved (moved w old new) old' new' ≡ moved w (old ++ old') (new ++ new')
  moved-moved w old new old' new' =
      ground (arith, length-append old old', append_assoc w.writer.buf new new')

  moved-nil : (w : PacketWrapper U) → moved w [] [] ≡ w
  moved-nil w = ground (arith, append-nil w.writer.buf)

  pub Rewrites-pure : {A : Type 0} (v : A) → Rewrites (pure v) [] [] v
  Rewrites-pure v = record { at = λ w rest h. rw (moved-nil w) }

  module _ {A B : Type 0} where
    pub Rewrites-bind :
        (m : Exec (PacketWrapper U) A) (f : A → Exec (PacketWrapper U) B)
        {old new old' new' : List ℕ} {v : A} {v' : B}
        → Rewrites m old new v
        → Rewrites (f v) old' new' v'
        → Rewrites (m >>= f) (old ++ old') (new ++ new') v'
    Rewrites-bind m f {old} {new} {old'} {new'} rm rf = record {
      at = λ w rest h.
          let h' = Holds-append old old' rest h in
          rw (rm.at w (old' ++ rest) h') (
            rf.at (moved w old new) rest (Holds-advance w.reader old (old' ++ rest) h')
            ∙ rw (moved-moved w old new old' new'));
    }

  module _ {A : Type 0} (T : FieldType A) where
    pub Rewrites-passthrough :
        (v : A) (bs : List ℕ) → Codes T v bs → Rewrites (passthrough T) bs bs v
    unfolding passthrough
    Rewrites-passthrough v bs c = record {
      at = λ w rest h. rw (c.reads.at w.reader rest h) (rw (c.writes.at w.writer));
    }

    pub Rewrites-read : (v : A) (bs : List ℕ) → Codes T v bs → Rewrites (read T) bs [] v
    unfolding read
    Rewrites-read v bs c = record {
      at = λ w rest h. rw (c.reads.at w.reader rest h, append-nil w.writer.buf);
    }

    pub Rewrites-write : (v : A) (bs : List ℕ) → Codes T v bs → Rewrites (write T v) [] bs tt
    unfolding write
    Rewrites-write v bs c = record { at = λ w rest h. rw (c.writes.at w.writer) (ground arith) }

  pub Rewrites-map :
      {A : Type 0} (T T' : FieldType A) (v : A) (old new : List ℕ)
      → Codes T v old
      → Codes T' v new
      → Rewrites (map T T') old new v
  unfolding map
  Rewrites-map T T' v old new c c' = record {
    at = λ w rest h. rw (c.reads.at w.reader rest h) (rw (c'.writes.at w.writer));
  }

  -- The bytes that a handler has not read follow those that it wrote.
  pub to_bytes-Holds :
      (w : PacketWrapper U) (rest : List ℕ)
      → Holds w.reader rest
      → to_bytes w ≡ w.writer.buf ++ rest
  unfolding to_bytes
  to_bytes-Holds w rest h = elim (Bool-cases (ltb w.reader.position (length w.reader.bytes))) [
    | inl more ↦ rw (more, h.left)
    | inr done ↦ rw (done, none_left (ground arith), append-nil)
  ]
    where
      none_left : length w.reader.bytes ≤ w.reader.position → rest ≡ []
      none_left le =
          length-eq_zero rest
            (omega (arith, length-drop w.reader.position w.reader.bytes, ap length h.left))

  -- A whole packet: the handler returns, does not cancel, and the rest of the payload follows what
  -- it wrote.
  pub Rewrites-packet :
      {A : Type 0} (m : Exec (PacketWrapper U) A) {old new : List ℕ} {v : A} (rest : List ℕ)
      (u : Option U)
      → Rewrites m old new v
      → (m (wrap (old ++ rest) u) ≡ (ok v, moved (wrap (old ++ rest) u) old new))
        × (to_bytes (m (wrap (old ++ rest) u)).1 ≡ new ++ rest)
  Rewrites-packet m {old} {new} {v} rest u r = (run, rw run output)
    where
      start : Holds (wrap (old ++ rest) u).reader (old ++ rest)
      start = record { within = omega arith; left = refl }

      run : m (wrap (old ++ rest) u) ≡ (ok v, moved (wrap (old ++ rest) u) old new)
      run = r.at (wrap (old ++ rest) u) rest start

      output : to_bytes (moved (wrap (old ++ rest) u) old new) ≡ new ++ rest
      output =
          to_bytes-Holds (moved (wrap (old ++ rest) u) old new) rest
            (Holds-advance (wrap (old ++ rest) u).reader old rest start)

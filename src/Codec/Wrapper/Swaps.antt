-- ===== src/Codec/Wrapper/Swaps.antt =====
-- Two handlers of opposite version steps, one after the other. `Swaps up down c v` says that `up` turns
-- the bytes `c.older` at the front of the input into `c.newer`, that `down` turns those into `c.back`,
-- and that both return `v`. A packet is a chain of such chunks.
use endweave.Prelude.{ℕ, List, [], append-nil}
use endweave.Exec.{Exec, pure, ◌>>=◌, ◌>>◌}
use endweave.Codec.Reader.View.{Reads}
use endweave.Codec.Writer.View.{Writes}
use endweave.Codec.FieldType.{FieldType}
use endweave.Codec.FieldType.Codes.{Field}
use endweave.Codec.Wrapper.{PacketWrapper, read, write, map, passthrough}
use endweave.Codec.Wrapper.Fields.{
  Rewrites, Rewrites-bind, Rewrites-pure, Rewrites-passthrough, Rewrites-read, Rewrites-write,
}
use endweave.Codec.Wrapper.Chunk.{Chunk, nothing, ◌⊕◌, same, added, Twin, twin}

module _ {U : Type 0} where
  pub record Swaps {A : Type 0} (up down : Exec (PacketWrapper U) A) (c : Chunk) (v : A)
      : Type 0 where
    pub upward : Rewrites up c.older c.newer v
    pub downward : Rewrites down c.newer c.back v

  pub Swaps-pure : {A : Type 0} (v : A) → Swaps (pure v) (pure v) nothing v
  Swaps-pure v = record { upward = Rewrites-pure v; downward = Rewrites-pure v }

  pub Swaps-bind :
      {A B : Type 0} (up down : Exec (PacketWrapper U) A) (f g : A → Exec (PacketWrapper U) B)
      {c c' : Chunk} {v : A} {v' : B}
      → Swaps up down c v
      → Swaps (f v) (g v) c' v'
      → Swaps (up >>= f) (down >>= g) (c ⊕ c') v'
  Swaps-bind up down f g s r = record {
    upward = Rewrites-bind up f s.upward r.upward;
    downward = Rewrites-bind down g s.downward r.downward;
  }

  pub Swaps-last :
      {A B : Type 0} (up down : Exec (PacketWrapper U) A) (f : A → B) {c : Chunk} {v : A}
      → Swaps up down c v
      → Swaps (up >>= λ x. pure (f x)) (down >>= λ x. pure (f x)) c (f v)
  Swaps-last up down f {c} {v} s =
      rw (append-nil c.older, append-nil c.newer, append-nil c.back) at
        (Swaps-bind up down (λ x. pure (f x)) (λ x. pure (f x)) s (Swaps-pure (f v)))

  -- The field that both handlers pass on.
  pub Swaps-same :
      {A B : Type 0} {T : FieldType A} (field : Field T) (f g : A → Exec (PacketWrapper U) B)
      {c : Chunk} {v : B}
      → Swaps (f field.value) (g field.value) c v
      → Swaps (passthrough T >>= f) (passthrough T >>= g) (same field ⊕ c) v
  Swaps-same {T = T} field f g =
      Swaps-bind (passthrough T) (passthrough T) f g {c = same field} (record {
        upward = Rewrites-passthrough T field.value field.bytes field.coded;
        downward = Rewrites-passthrough T field.value field.bytes field.coded;
      })

  -- A read alone.
  pub Rewrites-taken :
      {A : Type 0} (T : FieldType A) {v : A} {bs : List ℕ}
      → Reads T.read bs v
      → Rewrites {U = U} (read T) bs [] v
  unfolding read
  Rewrites-taken T r = record {
    at = λ w rest h. rw (r.at w.reader rest h, append-nil w.writer.buf);
  }

  pub Rewrites-mapped :
      {A : Type 0} (T T' : FieldType A) {v : A} {old new : List ℕ}
      → Reads T.read old v
      → Writes (T'.write v) new
      → Rewrites {U = U} (map T T') old new v
  unfolding map
  Rewrites-mapped T T' r h = record {
    at = λ w rest k. rw (r.at w.reader rest k) (rw (h.at w.writer));
  }

  -- The field that one handler writes in the newer form, and the other in the older.
  pub Swaps-twin :
      {A B : Type 0} {T T' : FieldType A} (t : Twin T T') (f g : A → Exec (PacketWrapper U) B)
      {c : Chunk} {v : B}
      → Swaps (f t.value) (g t.value') c v
      → Swaps (map T T' >>= f) (map T' T >>= g) (twin t ⊕ c) v
  Swaps-twin {T = T} {T' = T'} t f g s = record {
    upward = Rewrites-bind (map T T') f (Rewrites-mapped T T' t.reads t.writes) s.upward;
    downward = Rewrites-bind (map T' T) g (Rewrites-mapped T' T t.reads' t.writes') s.downward;
  }

  -- The field that only the newer version has: written as `v` on the way up, read on the way down.
  pub Swaps-added :
      {A B : Type 0} {T : FieldType A} (field : Field T) (up : Exec (PacketWrapper U) B)
      (g : A → Exec (PacketWrapper U) B) {c : Chunk} {v : B}
      → Swaps up (g field.value) c v
      → Swaps (write T field.value >> up) (read T >>= g) (added field ⊕ c) v
  Swaps-added {T = T} field up g s = record {
    upward =
        Rewrites-bind (write T field.value) (λ _. up)
          (Rewrites-write T field.value field.bytes field.coded) s.upward;
    downward =
        Rewrites-bind (read T) g (Rewrites-read T field.value field.bytes field.coded) s.downward;
  }

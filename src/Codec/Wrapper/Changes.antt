-- ===== src/Codec/Wrapper/Changes.antt =====
-- Fields that two handlers of opposite version steps add, drop, or write anew.
use endweave.Prelude.{◌≡◌, [], ◌∷◌, append-nil}
use endweave.Exec.{Exec, pure, ◌>>=◌, ◌>>◌}
use endweave.Codec.FieldType.{FieldType}
use endweave.Codec.FieldType.Codes.{Field}
use endweave.Codec.Wrapper.{PacketWrapper, read, write}
use endweave.Codec.Wrapper.Whole.{Rewrites-replace, Rewrites-written}
use endweave.Codec.Wrapper.Fields.{Rewrites-bind, Rewrites-pure, Rewrites-read, Rewrites-write}
use endweave.Codec.Wrapper.Chunk.{Chunk, ◌⊕◌, chain, changed, added, dropped, reset, Twin, twin}
use endweave.Codec.Wrapper.Swaps.{Swaps, Rewrites-taken}

module _ {U : Type 0} where
  -- A field that each handler replaces.
  pub Swaps-replace :
      {A : Type 0} {T : FieldType A} (f g : A → A) (older newer : Field T)
      → f older.value ≡ newer.value
      → g newer.value ≡ older.value
      → Swaps {U = U}
          (read T >>= λ x. write T (f x))
          (read T >>= λ x. write T (g x))
          (changed older.bytes newer.bytes)
          tt
  Swaps-replace {T = T} f g older newer e e' = record {
    upward =
        Rewrites-replace T T f (Rewrites-read T older.value older.bytes older.coded)
          (rw e (Rewrites-write T newer.value newer.bytes newer.coded));
    downward =
        Rewrites-replace T T g (Rewrites-read T newer.value newer.bytes newer.coded)
          (rw e' (Rewrites-write T older.value older.bytes older.coded));
  }

  -- The same, at the end.
  pub Swaps-added-last :
      {A : Type 0} {T : FieldType A} (field : Field T)
      → Swaps {U = U} (write T field.value) (read T >>= λ x. pure tt) (chain (added field ∷ [])) tt
  Swaps-added-last {T = T} field = record {
    upward = rw (append-nil field.bytes) (Rewrites-write T field.value field.bytes field.coded);
    downward =
        Rewrites-bind (read T) (λ x. pure tt) (Rewrites-read T field.value field.bytes field.coded)
          (Rewrites-pure tt);
  }

  -- A field that only the older version has: read on the way up, written as a default on the way down.
  pub Swaps-dropped-last :
      {A : Type 0} {T : FieldType A} (field default : Field T)
      → Swaps {U = U}
          (read T >>= λ x. pure tt)
          (write T default.value)
          (chain (dropped field default ∷ []))
          tt
  Swaps-dropped-last {T = T} field default = record {
    upward =
        Rewrites-bind (read T) (λ x. pure tt) (Rewrites-read T field.value field.bytes field.coded)
          (Rewrites-pure tt);
    downward =
        rw (append-nil default.bytes) (Rewrites-write T default.value default.bytes default.coded);
  }

  -- A field that both handlers overwrite with a default.
  pub Swaps-reset :
      {A B : Type 0} {T : FieldType A} (field default : Field T)
      (up down : Exec (PacketWrapper U) B) {c : Chunk} {v : B}
      → Swaps up down c v
      → Swaps
          (read T >>= λ x. write T default.value >> up)
          (read T >>= λ x. write T default.value >> down)
          (reset field default ⊕ c)
          v
  Swaps-reset {T = T} field default up down s = record {
    upward = Rewrites-bind (read T) _ (Rewrites-read T field.value field.bytes field.coded) (
        Rewrites-bind (write T default.value) (λ _. up)
          (Rewrites-write T default.value default.bytes default.coded) s.upward);
    downward =
        Rewrites-bind (read T) _ (Rewrites-read T default.value default.bytes default.coded) (
          Rewrites-bind (write T default.value) (λ _. down)
            (Rewrites-write T default.value default.bytes default.coded) s.downward);
  }

  -- A field that each handler reads, and writes in the form of the other version.
  pub Swaps-recoded :
      {A B : Type 0} {T T' : FieldType A} (t : Twin T T') (up down : Exec (PacketWrapper U) B)
      {c : Chunk} {v : B}
      → Swaps up down c v
      → Swaps (read T >>= λ x. write T' x >> up) (read T' >>= λ x. write T x >> down) (twin t ⊕ c) v
  Swaps-recoded {T = T} {T' = T'} t up down s = record {
    upward = Rewrites-bind (read T) _ (Rewrites-taken T t.reads) (
        Rewrites-bind (write T' t.value) (λ _. up) (Rewrites-written T' t.value _ t.writes)
          s.upward);
    downward = Rewrites-bind (read T') _ (Rewrites-taken T' t.reads') (
        Rewrites-bind (write T t.value') (λ _. down) (Rewrites-written T t.value' _ t.writes')
          s.downward);
  }

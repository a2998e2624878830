-- ===== src/Codec/Wrapper/Flow.antt =====
-- Loops and tests of two handlers of opposite version steps.
use endweave.Prelude.{
  ℕ, zero, suc, Bool, true, false, List, [], ◌∷◌, append-nil, length, if◌then◌else◌,
}
use endweave.Exec.{Exec, pure, ◌>>=◌, ◌>>◌, repeat}
use endweave.Codec.Wrapper.{PacketWrapper, when}
use endweave.Codec.Wrapper.Fields.{Rewrites, Rewrites-bind, Rewrites-pure}
use endweave.Codec.Wrapper.Chunk.{Chunk, ◌⊕◌, chain, each, only}
use endweave.Codec.Wrapper.Swaps.{Swaps, Swaps-pure, Swaps-bind, Swaps-last}

abbrev pub units : ℕ → List (Unit {0})
units zero = []
units (suc n) = tt ∷ units n

module _ {U : Type 0} where
  -- A loop over the elements of a list.
  module _ {B : Type 0} (up down : Exec (PacketWrapper U) (Unit {0})) (f : B → Chunk)
      (round : (b : B) → Swaps up down (f b) tt) where
    pub Swaps-repeat :
        (bs : List B)
        → Swaps (repeat (length bs) up) (repeat (length bs) down) (each f bs) (units (length bs))
    unfolding repeat
    Swaps-repeat [] = Swaps-pure []
    Swaps-repeat (b ∷ bs) = Swaps-bind up down _ _ (round b) (
        Swaps-last (repeat (length bs) up) (repeat (length bs) down) (λ us. tt ∷ us)
          (Swaps-repeat bs))

    -- The loop, and what follows it.
    pub Swaps-loop :
        {A : Type 0} (bs : List B) (g h : List (Unit {0}) → Exec (PacketWrapper U) A) {c : Chunk}
        {v : A}
        → Swaps (g (units (length bs))) (h (units (length bs))) c v
        → Swaps (repeat (length bs) up >>= g) (repeat (length bs) down >>= h) (each f bs ⊕ c) v
    Swaps-loop bs g h =
        Swaps-bind (repeat (length bs) up) (repeat (length bs) down) g h (Swaps-repeat bs)

  pub Swaps-when :
      (b : Bool) (up down : Exec (PacketWrapper U) (Unit {0})) {c : Chunk}
      → Swaps up down c tt
      → Swaps (when b up) (when b down) (only b c) tt
  Swaps-when true up down s = s
  Swaps-when false up down s = Swaps-pure tt

  -- A part under a test, and what follows it.
  pub Swaps-if :
      {A : Type 0} (b : Bool) (up down : Exec (PacketWrapper U) (Unit {0}))
      (up' down' : Exec (PacketWrapper U) A) {c c' : Chunk} {v : A}
      → Swaps up down c tt
      → Swaps up' down' c' v
      → Swaps (when b up >> up') (when b down >> down') (only b c ⊕ c') v
  Swaps-if b up down up' down' s r =
      Swaps-bind (when b up) (when b down) (λ _. up') (λ _. down') (Swaps-when b up down s) r

  pub Swaps-branch :
      (b : Bool) {up down up' down' : Exec (PacketWrapper U) (Unit {0})} {c c' : Chunk}
      → Swaps up down c tt
      → Swaps up' down' c' tt
      → Swaps (if b then up else up') (if b then down else down') (if b then c else c') tt
  Swaps-branch true s s' = s
  Swaps-branch false s s' = s'

  -- The last chunk of a chain.
  pub Swaps-end :
      {up down : Exec (PacketWrapper U) (Unit {0})} {c : Chunk}
      → Swaps up down c tt
      → Swaps up down (chain (c ∷ [])) tt
  Swaps-end {c = c} s = rw (append-nil c.older, append-nil c.newer, append-nil c.back) s

  -- A loop in one direction alone.
  pub Rewrites-each :
      {B : Type 0} (m : Exec (PacketWrapper U) (Unit {0})) (f : B → Chunk)
      → ((b : B) → Rewrites m (f b).older (f b).newer tt)
      → (bs : List B)
      → Rewrites (repeat (length bs) m) (each f bs).older (each f bs).newer (units (length bs))
  unfolding repeat
  Rewrites-each m f one [] = Rewrites-pure []
  Rewrites-each m f one (b ∷ bs) = Rewrites-bind m _ (one b) (
      rw (append-nil (each f bs).older, append-nil (each f bs).newer) at
        (Rewrites-bind (repeat (length bs) m) (λ us. pure (tt ∷ us)) (Rewrites-each m f one bs)
          (Rewrites-pure _)))

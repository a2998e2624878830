-- ===== src/Codec/FieldType/Codes.antt =====
-- The contract of a field type: it reads back what it wrote. `Codes T v bs` says that `bs` are the
-- bytes that `T` writes for `v`, and that it reads `v` from them whatever follows.
use endweave.Prelude.{ℕ, refl, List, [], ◌∷◌, ◌++◌, length}
use endweave.Exec.{repeat, for_each}
use endweave.Codec.Reader.View.{Reads, Reads-pure, Reads-bind, Reads-map}
use endweave.Codec.Writer.View.{Writes, Writes-pure, Writes-then}
use endweave.Codec.FieldType.{FieldType}

pub record Codes {A : Type 0} (T : FieldType A) (v : A) (bs : List ℕ) : Type 0 where
  pub reads : Reads T.read bs v
  pub writes : Writes (T.write v) bs

-- The bytes of the fields of a record, one after the other.
abbrev pub flat : List (List ℕ) → List ℕ
flat [] = []
flat (bs ∷ rest) = bs ++ flat rest

-- A field of a packet: a value with its bytes.
pub record Field {A : Type 0} (T : FieldType A) : Type 0 where
  pub value : A
  pub bytes : List ℕ
  pub coded : Codes T value bytes

-- The bytes of several values, one after the other.
pub data CodesAll {A : Type 0} (T : FieldType A) : List A → List ℕ → Type 0 where
  none_left : CodesAll T [] []
  one_more :
      {v : A} {vs : List A} {bs cs : List ℕ}
      → Codes T v bs
      → CodesAll T vs cs
      → CodesAll T (v ∷ vs) (bs ++ cs)

module _ {A : Type 0} (T : FieldType A) where
  pub Reads-repeat :
      {vs : List A} {bs : List ℕ} → CodesAll T vs bs → Reads (repeat (length vs) T.read) bs vs
  unfolding repeat
  Reads-repeat none_left = Reads-pure []
  Reads-repeat (one_more {v} {vs} {bs} {cs} c all) =
      Reads-bind T.read _ c.reads
        (Reads-map (repeat (length vs) T.read) (λ xs. v ∷ xs) (Reads-repeat all) refl)

  pub Writes-for_each :
      {vs : List A} {bs : List ℕ} → CodesAll T vs bs → Writes (for_each vs T.write) bs
  unfolding for_each
  Writes-for_each none_left = Writes-pure
  Writes-for_each (one_more {v} {vs} c all) =
      Writes-then (T.write v) (for_each vs T.write) c.writes (Writes-for_each all)

-- ===== src/Codec/Wrapper/Chunk.antt =====
-- The bytes of packets in two versions.
use endweave.Prelude.{ℕ, ◌^◌, ◌<◌, Bool, true, false, List, [], ◌∷◌, ◌++◌, pos}
use endweave.Codec.Reader.View.{Reads}
use endweave.Codec.Writer.View.{Writes}
use endweave.Codec.Leb128.{groups}
use endweave.Codec.FieldType.{FieldType, uvar_int}
use endweave.Codec.FieldType.Codes.{Codes, Field}
use endweave.Codec.FieldType.Variable.{Codes-uvar_int}

-- The bytes of a part of a packet: as it is sent in the older version, as it arrives in the newer, and
-- as it comes back in the older version.
pub record Chunk : Type 0 where
  pub older : List ℕ
  pub newer : List ℕ
  pub back : List ℕ

abbrev pub nothing : Chunk
nothing = record { older = []; newer = []; back = [] }

infixr 60 ◌⊕◌
abbrev pub ◌⊕◌ : Chunk → Chunk → Chunk
c ⊕ d = record { older = c.older ++ d.older; newer = c.newer ++ d.newer; back = c.back ++ d.back }

abbrev pub chain : List Chunk → Chunk
chain [] = nothing
chain (c ∷ cs) = c ⊕ chain cs

-- The parts of a list's elements, one after the other.
abbrev pub each : {B : Type 0} → (B → Chunk) → List B → Chunk
each f [] = nothing
each f (b ∷ bs) = f b ⊕ each f bs

-- A part that is there only if the flag is set.
abbrev pub only : Bool → Chunk → Chunk
only true c = c
only false c = nothing

-- Bytes that come back as they were sent.
abbrev pub changed : List ℕ → List ℕ → Chunk
changed older newer = record { older = older; newer = newer; back = older }

-- A field that both versions write alike.
abbrev pub same : {A : Type 0} {T : FieldType A} → Field T → Chunk
same field = changed field.bytes field.bytes

-- A field that only the newer version has.
abbrev pub added : {A : Type 0} {T : FieldType A} → Field T → Chunk
added field = changed [] field.bytes

-- A field that only the older version has: another value comes back.
abbrev pub dropped : {A : Type 0} {T : FieldType A} → Field T → Field T → Chunk
dropped field default = record { older = field.bytes; newer = []; back = default.bytes }

-- A field that arrives with another value, which then comes back.
abbrev pub reset : {A : Type 0} {T : FieldType A} → Field T → Field T → Chunk
reset field default = record { older = field.bytes; newer = default.bytes; back = default.bytes }

-- A field in both versions: each reads a value from its own bytes, and the other writes that value
-- as its own bytes. The two values may differ, as the two readings of one number of 32 bits do.
pub record Twin {A : Type 0} (T T' : FieldType A) : Type 0 where
  pub value : A
  pub value' : A
  pub older : List ℕ
  pub newer : List ℕ
  pub reads : Reads T.read older value
  pub reads' : Reads T'.read newer value'
  pub writes : Writes (T'.write value) newer
  pub writes' : Writes (T.write value') older

-- A value that both versions code.
abbrev pub alike :
    {A : Type 0} {T T' : FieldType A} (v : A) (older newer : List ℕ)
    → Codes T v older
    → Codes T' v newer
    → Twin T T'
alike v older newer c c' = record {
  value = v;
  value' = v;
  older = older;
  newer = newer;
  reads = c.reads;
  reads' = c'.reads;
  writes = c'.writes;
  writes' = c.writes;
}

abbrev pub twin : {A : Type 0} {T T' : FieldType A} → Twin T T' → Chunk
twin t = changed t.older t.newer

abbrev pub counted : (n : ℕ) → n < 2 ^ 32 → Field uvar_int
counted n h = record { value = pos n; bytes = groups 4 n; coded = Codes-uvar_int n h }

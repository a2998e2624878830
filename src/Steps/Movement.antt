-- ===== src/Steps/Movement.antt =====
-- protocol/v944_to_v975/handlers/client_movement_prediction_sync.py: what the server gets.
use endweave.Prelude.{
  ◌▸◌, ℕ, zero, suc, ◌-◌, ◌<◌, ◌≤◌, ◌≡◌, true, false, some, List, [], ◌∷◌, ◌++◌, length, pos, arith,
}
use endweave.Exec.{repeat}
use endweave.Codec.Reader.View.{Holds-length}
use endweave.Codec.FieldType.{bool, byte, float_le, var_int64}
use endweave.Codec.FieldType.Codes.{Field}
use endweave.Codec.FieldType.Primitives.{Codes-byte}
use endweave.Codec.Wrapper.{wrap, read, passthrough}
use endweave.Codec.Wrapper.Fields.{
  Rewrites, Rewrites-bind, Rewrites-pure, Rewrites-passthrough, Rewrites-read,
}
use endweave.Codec.Wrapper.Chunk.{Chunk, changed, chain, each, same}
use endweave.Codec.Wrapper.Flow.{Rewrites-each}
use endweave.Connection.{User}
use endweave.Protocol.Base.Detect.{Forwards}
use endweave.Steps.Rounds.{Rewrites-Forwards}
use endweave.Steps.Items.{pass}
use endweave.Steps.Flags.{has_bit}
use endweave.Steps.V944ToV975.Added.{
  bitset, passthrough_bitset, pass_float, skip_float, rewrite_client_movement_prediction_sync,
}

-- The bytes of a set of bits: all but the last have the top bit.
pub data Bitset : List ℕ → Type 0 where
  ends : {b : ℕ} → b < 128 → Bitset (b ∷ [])
  goes_on : {b : ℕ} {bs : List ℕ} → 128 ≤ b → b < 256 → Bitset bs → Bitset (b ∷ bs)

top_bit : (b : ℕ) → 128 ≤ b → b < 256 → has_bit (pos b) 128 ≡ true
top_bit b h k = ground arith

no_top_bit : (b : ℕ) → b < 128 → has_bit (pos b) 128 ≡ false
no_top_bit b h = ground arith

-- One round for each byte is enough.
bitset-Rewrites :
    {bs : List ℕ} → Bitset bs → (fuel : ℕ) → length bs ≤ fuel → Rewrites (bitset fuel) bs bs tt
unfolding bitset
bitset-Rewrites (ends {b} h) (suc fuel) enough =
    Rewrites-bind (passthrough byte) _
      (Rewrites-passthrough byte (pos b) (b ∷ []) (Codes-byte b (omega arith)))
      (rw (no_top_bit b h) (Rewrites-pure tt))
bitset-Rewrites (ends h) zero enough = absurd (omega arith)
bitset-Rewrites (goes_on {b} {bs} h k more) (suc fuel) enough =
    Rewrites-bind (passthrough byte) _ (Rewrites-passthrough byte (pos b) (b ∷ []) (Codes-byte b k))
      (rw (top_bit b h k) (bitset-Rewrites more fuel (omega arith)))
bitset-Rewrites (goes_on h k more) zero enough = absurd (omega arith)

passthrough_bitset-Rewrites : {bs : List ℕ} → Bitset bs → Rewrites passthrough_bitset bs bs tt
unfolding passthrough_bitset
passthrough_bitset-Rewrites {bs} bits = record {
  at = λ w rest h.
      (bitset-Rewrites bits (suc (length w.reader.bytes - w.reader.position))
          (omega (arith, Holds-length w.reader bs rest h))).at
        w rest h;
}

abbrev float_chunk : Field float_le → Chunk
float_chunk f = chain (same f ∷ [])

-- A number that does not arrive.
abbrev stripped : Field float_le → Chunk
stripped f = record { older = f.bytes ++ []; newer = []; back = [] }

abbrev pub movement :
    List ℕ → List (Field float_le) → List (Field float_le) → Field var_int64 → Field bool → Chunk
movement flags attributes added id flying = chain (
    changed flags flags
    ∷ each float_chunk attributes
    ∷ each stripped added
    ∷ same id
    ∷ same flying
    ∷ [])

-- ClientMovementPredictionSync with its set of bits of any length, nine numbers, three more of v975,
-- and two fields: the handler returns, does not cancel and leaves the connection. The three numbers
-- are not forwarded; all other fields, and what follows, stay.
pub rewrite_client_movement_prediction_sync_lem :
    (flags : List ℕ) (bits : Bitset flags) (attributes added : List (Field float_le))
    (id : Field var_int64) (flying : Field bool) (rest : List ℕ) (u : User)
    → length attributes ≡ 9
    → length added ≡ 3
    → Forwards
        (rewrite_client_movement_prediction_sync
          (wrap ((movement flags attributes added id flying).older ++ rest) (some u)))
        ((movement flags attributes added id flying).newer ++ rest)
        u
unfolding rewrite_client_movement_prediction_sync
rewrite_client_movement_prediction_sync_lem flags bits attributes added id flying rest u nine
      three =
    Rewrites-Forwards rewrite_client_movement_prediction_sync rest u (
      Rewrites-bind passthrough_bitset _ (passthrough_bitset-Rewrites bits)
      ▸ Rewrites-bind (repeat 9 pass_float) _ (
          rw nine at
            (Rewrites-each pass_float float_chunk (λ f. pass f _ (Rewrites-pure tt)) attributes))
      ▸ Rewrites-bind (repeat 3 skip_float) _ (
          rw three at (
            Rewrites-each skip_float stripped
              (λ f.
                Rewrites-bind (read float_le) _ (Rewrites-read float_le f.value f.bytes f.coded)
                  (Rewrites-pure tt))
              added))
      ▸ pass id _
      ▸ pass flying _ (Rewrites-pure tt))

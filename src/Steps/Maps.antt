-- ===== src/Steps/Maps.antt =====
-- protocol/v924_to_v944/handlers/block_pos.py and protocol/v944_to_v924/handlers/block_pos.py: the
-- tracked objects of a map, there and back.
use endweave.Prelude.{◌▸◌, ◌^◌, ◌<◌, ◌||◌, List, [], ◌∷◌, length, pos, eqb_ℤ, if◌then◌else◌}
use endweave.Codec.FieldType.{byte, bool, int_le, uvar_int, var_int64, block_pos, array_type}
use endweave.Codec.FieldType.Codes.{Field}
use endweave.Codec.Wrapper.Chunk.{Chunk, chain, each, only, same, twin, counted}
use endweave.Codec.Wrapper.Swaps.{Swaps, Swaps-pure, Swaps-same}
use endweave.Codec.Wrapper.Flow.{Swaps-loop, Swaps-end, Swaps-if, Swaps-when, Swaps-branch}
use endweave.Steps.Flags.{has_bit}
use endweave.Steps.Rounds.{Rounds, Swaps-Rounds}
use endweave.Steps.Positions.{PositionTwin, first-Swaps}
use endweave.Steps.V924ToV944.Clientbound as Up
use endweave.Steps.V944ToV924.Clientbound as Down

-- A tracked object: its kind, and what an entity and a block have behind it.
pub record TrackedObject : Type 0 where
  pub kind : Field int_le
  pub unique_id : Field var_int64
  pub position : PositionTwin

-- An entity has its number, a block entity its position, and another object nothing.
abbrev pub tracked_object_chunk : TrackedObject → Chunk
tracked_object_chunk o = chain (
    same o.kind
    ∷ (if eqb_ℤ o.kind.value (pos 0)
        then chain (same o.unique_id ∷ [])
        else only (eqb_ℤ o.kind.value (pos 1)) (chain (twin o.position ∷ [])))
    ∷ [])

tracked_object-Swaps :
    (o : TrackedObject) → Swaps Up.tracked_object Down.tracked_object (tracked_object_chunk o) tt
unfolding Up.tracked_object Down.tracked_object Up.tracked_actor Down.tracked_actor
tracked_object-Swaps o =
    Swaps-same o.kind _ _
    ▸ Swaps-end
    ▸ Swaps-branch (eqb_ℤ o.kind.value (pos 0)) (Swaps-same o.unique_id _ _ ▸ Swaps-pure tt)
    ▸ Swaps-when (eqb_ℤ o.kind.value (pos 1)) _ _ (first-Swaps o.position)

abbrev pub decorations_chunk : (objects : List TrackedObject) → length objects < 2 ^ 32 → Chunk
decorations_chunk objects few =
    chain (same (counted (length objects) few) ∷ each tracked_object_chunk objects ∷ [])

decorations-Swaps :
    (objects : List TrackedObject) (few : length objects < 2 ^ 32)
    → Swaps Up.decorations Down.decorations (decorations_chunk objects few) tt
unfolding Up.decorations Down.decorations
decorations-Swaps objects few =
    Swaps-same (counted (length objects) few) _ _
    ▸ Swaps-loop Up.tracked_object Down.tracked_object tracked_object_chunk tracked_object-Swaps
        objects _ _
    ▸ Swaps-pure tt

-- The fields of the packet.
pub record MapData : Type 0 where
  pub id : Field var_int64
  pub types : Field uvar_int
  pub dimension : Field byte
  pub locked : Field bool
  pub origin : Field block_pos
  pub ids : Field (array_type var_int64)
  pub scale : Field byte
  pub objects : List TrackedObject
  pub few : length objects < 2 ^ 32

abbrev pub map_data_chunks : MapData → List Chunk
map_data_chunks m =
    same m.id
    ∷ same m.types
    ∷ same m.dimension
    ∷ same m.locked
    ∷ same m.origin
    ∷ only (has_bit m.types.value 8) (chain (same m.ids ∷ []))
    ∷ only (has_bit m.types.value 8 || has_bit m.types.value 4 || has_bit m.types.value 2)
        (chain (same m.scale ∷ []))
    ∷ only (has_bit m.types.value 4) (decorations_chunk m.objects m.few)
    ∷ []

-- ClientboundMapItemData: the parts that the flags announce, and the positions of the blocks among
-- the tracked objects, there and back.
pub map_data_round :
    (m : MapData) → Rounds Up.rewrite_map_data Down.rewrite_map_data (map_data_chunks m)
unfolding Up.rewrite_map_data Down.rewrite_map_data
map_data_round m = Swaps-Rounds _ _ _ (
    Swaps-same m.id _ _
    ▸ Swaps-same m.types _ _
    ▸ Swaps-same m.dimension _ _
    ▸ Swaps-same m.locked _ _
    ▸ Swaps-same m.origin _ _
    ▸ Swaps-if (has_bit m.types.value 8) _ _ _ _ (Swaps-same m.ids _ _ ▸ Swaps-pure tt)
    ▸ Swaps-if (has_bit m.types.value 8 || has_bit m.types.value 4 || has_bit m.types.value 2) _ _ _
        _ (Swaps-same m.scale _ _ ▸ Swaps-pure tt)
    ▸ Swaps-end
    ▸ Swaps-when (has_bit m.types.value 4) _ _ (decorations-Swaps m.objects m.few))

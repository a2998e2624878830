-- ===== src/Steps/Chunks.antt =====
-- protocol/v975_to_v1001/handlers: level_chunk.py, sub_chunk_request.py and
-- client_cache_blob_status.py.
use endweave.Prelude.{
  ◌▸◌, ℕ, ◌*◌, ◌-◌, ◌^◌, ◌<◌, ◌≡◌, Bool, true, false, some, List, [], ◌++◌, length, pos, eqb_ℤ,
  arith, append-nil, if◌then◌else◌,
}
use endweave.Exec.{◌>>=◌}
use endweave.Codec.Leb128.{groups}
use endweave.Codec.Word.{to_le}
use endweave.Codec.FieldType.{bytes, int_le, remaining_bytes, uint_le, ushort_le, uvar_int, var_int}
use endweave.Codec.FieldType.Codes.{Field}
use endweave.Codec.FieldType.Primitives.{Codes-bytes, Codes-uint_le}
use endweave.Codec.FieldType.Variable.{Codes-uvar_int}
use endweave.Codec.Writer.View.{Writes-write_bytes}
use endweave.Codec.Wrapper.{wrap, read, write, passthrough}
use endweave.Codec.Wrapper.Fields.{
  Rewrites, Rewrites-bind, Rewrites-read, Rewrites-write, Rewrites-passthrough,
}
use endweave.Codec.Wrapper.Whole.{Finishes-bind, Finishes-last, Rewrites-written}
use endweave.Codec.Wrapper.Chunk.{Twin}
use endweave.Codec.Wrapper.Swaps.{Rewrites-taken}
use endweave.Connection.{User}
use endweave.Protocol.Base.Detect.{Forwards}
use endweave.Rewriter.Sound.Rewritten.{Finishes-Forwards}
use endweave.Steps.Rounds.{Rewrites-Forwards}
use endweave.Steps.V975ToV1001.Chunks.{
  limited, limitless, sub_chunks, rewrite_level_chunk, rewrite_sub_chunk_request,
  rewrite_client_cache_blob_status,
}

module _ (count : Field uvar_int) (highest : Field ushort_le) where
  -- The cap is there only in the limited mode.
  abbrev pub cap_bytes : List ℕ
  cap_bytes = if eqb_ℤ count.value limited then highest.bytes else []

  abbrev pub count_bytes : List ℕ
  count_bytes = if eqb_ℤ count.value limited then groups 4 (2 ^ 32 - 1) else count.bytes

  sub_chunks-Rewrites : Rewrites {U = User} (sub_chunks count.value) cap_bytes count_bytes tt
  unfolding sub_chunks
  sub_chunks-Rewrites = go (eqb_ℤ count.value limited)
    where
      go :
          (b : Bool)
          → Rewrites {U = User}
              (if b
                then (read ushort_le >>= λ cap. write uvar_int limitless)
                else write uvar_int count.value)
              (if b then highest.bytes else [])
              (if b then groups 4 (2 ^ 32 - 1) else count.bytes)
              tt
      go true = rw (append-nil highest.bytes) at (
          Rewrites-bind {U = User} (read ushort_le) (λ cap. write uvar_int limitless)
            (Rewrites-read ushort_le highest.value highest.bytes highest.coded)
            (Rewrites-write uvar_int limitless _ (Codes-uvar_int (2 ^ 32 - 1) (omega arith))))
      go false = Rewrites-write uvar_int count.value count.bytes count.coded

  -- LevelChunk with its coordinates, its dimension, its count and, in the limited mode, its cap
  -- coded: the handler returns, does not cancel and leaves the connection. A limited chunk is
  -- forwarded as a limitless one without its cap; all other bytes, and all other chunks, stay.
  pub rewrite_level_chunk_lem :
      (x z dimension : Field var_int) (rest : List ℕ) (u : User)
      → Forwards
          (rewrite_level_chunk (
            wrap
              ((x.bytes ++ (z.bytes ++ (dimension.bytes ++ (count.bytes ++ cap_bytes)))) ++ rest)
              (some u)))
          ((x.bytes ++ (z.bytes ++ (dimension.bytes ++ count_bytes))) ++ rest)
          u
  unfolding rewrite_level_chunk
  rewrite_level_chunk_lem x z dimension rest u = Finishes-Forwards rewrite_level_chunk rest u (
      Finishes-bind (passthrough var_int) _ (Rewrites-passthrough var_int x.value x.bytes x.coded)
      ▸ Finishes-bind (passthrough var_int) _ (Rewrites-passthrough var_int z.value z.bytes z.coded)
      ▸ Finishes-bind (passthrough var_int) _
          (Rewrites-passthrough var_int dimension.value dimension.bytes dimension.coded)
      ▸ Finishes-bind (read uvar_int) _ (Rewrites-read uvar_int count.value count.bytes count.coded)
          (Finishes-last (sub_chunks count.value) sub_chunks-Rewrites))

raw : (n : ℕ) (bs : List ℕ) → length bs ≡ n → Rewrites {U = User} (read (bytes (pos n))) bs [] bs
raw n bs e = Rewrites-read (bytes (pos n)) bs bs (Codes-bytes n bs e)

put_raw : (bs : List ℕ) → Rewrites {U = User} (write remaining_bytes bs) [] bs tt
put_raw bs = Rewrites-written remaining_bytes bs bs (Writes-write_bytes bs)

-- SubChunkRequest with fewer than 2 ** 32 offsets of three bytes each: the handler returns, does not
-- cancel and leaves the connection. The position, which the client sends in fixed width behind the
-- offsets, is forwarded before them in variable width, and their number in four bytes. What follows
-- stays.
pub rewrite_sub_chunk_request_lem :
    (dimension : Field var_int) (count : ℕ) (offsets : List ℕ) (x y z : Twin var_int int_le)
    (rest : List ℕ) (u : User)
    → count < 2 ^ 32
    → length offsets ≡ count * 3
    → Forwards
        (rewrite_sub_chunk_request (
          wrap
            ((dimension.bytes
                ++ (groups 4 count ++ (offsets ++ (x.newer ++ (y.newer ++ (z.newer ++ []))))))
              ++ rest)
            (some u)))
        ((dimension.bytes ++ (x.older ++ (y.older ++ (z.older ++ (to_le 4 count ++ offsets)))))
          ++ rest)
        u
unfolding rewrite_sub_chunk_request
rewrite_sub_chunk_request_lem dimension count offsets x y z rest u few size =
    Rewrites-Forwards rewrite_sub_chunk_request rest u (
      Rewrites-bind (passthrough var_int) _
        (Rewrites-passthrough var_int dimension.value dimension.bytes dimension.coded)
      ▸ Rewrites-bind (read uvar_int) _
          (Rewrites-read uvar_int (pos count) (groups 4 count) (Codes-uvar_int count few))
      ▸ Rewrites-bind (read (bytes (pos (count * 3)))) _ (raw (count * 3) offsets size)
      ▸ Rewrites-bind (read int_le) _ (Rewrites-taken int_le x.reads')
      ▸ Rewrites-bind (read int_le) _ (Rewrites-taken int_le y.reads')
      ▸ Rewrites-bind (read int_le) _ (Rewrites-taken int_le z.reads')
      ▸ Rewrites-bind (write var_int x.value') _ (Rewrites-written var_int x.value' _ x.writes')
      ▸ Rewrites-bind (write var_int y.value') _ (Rewrites-written var_int y.value' _ y.writes')
      ▸ Rewrites-bind (write var_int z.value') _ (Rewrites-written var_int z.value' _ z.writes')
      ▸ Rewrites-bind (write uint_le (pos count)) _
          (Rewrites-write uint_le (pos count) (to_le 4 count) (Codes-uint_le count few))
          (put_raw offsets))

-- ClientCacheBlobStatus with fewer than 2 ** 32 misses and hits of eight bytes each: the handler
-- returns, does not cancel and leaves the connection. Both numbers are forwarded first, and then both
-- lists of hashes. What follows stays.
pub rewrite_client_cache_blob_status_lem :
    (misses hits : ℕ) (miss_hashes hit_hashes rest : List ℕ) (u : User)
    → misses < 2 ^ 32
    → hits < 2 ^ 32
    → length miss_hashes ≡ misses * 8
    → length hit_hashes ≡ hits * 8
    → Forwards
        (rewrite_client_cache_blob_status (
          wrap
            ((groups 4 misses ++ (miss_hashes ++ (groups 4 hits ++ (hit_hashes ++ [])))) ++ rest)
            (some u)))
        ((groups 4 misses ++ (groups 4 hits ++ (miss_hashes ++ hit_hashes))) ++ rest)
        u
unfolding rewrite_client_cache_blob_status
rewrite_client_cache_blob_status_lem misses hits miss_hashes hit_hashes rest u few few' size size' =
    Rewrites-Forwards rewrite_client_cache_blob_status rest u (
      Rewrites-bind (read uvar_int) _ (take_count misses few)
      ▸ Rewrites-bind (read (bytes (pos (misses * 8)))) _ (raw (misses * 8) miss_hashes size)
      ▸ Rewrites-bind (read uvar_int) _ (take_count hits few')
      ▸ Rewrites-bind (read (bytes (pos (hits * 8)))) _ (raw (hits * 8) hit_hashes size')
      ▸ Rewrites-bind (write uvar_int (pos misses)) _ (put_count misses few)
      ▸ Rewrites-bind (write uvar_int (pos hits)) _ (put_count hits few')
      ▸ Rewrites-bind (write remaining_bytes miss_hashes) _ (put_raw miss_hashes)
          (put_raw hit_hashes))
  where
    take_count : (n : ℕ) → n < 2 ^ 32 → Rewrites {U = User} (read uvar_int) (groups 4 n) [] (pos n)
    take_count n h = Rewrites-read uvar_int (pos n) (groups 4 n) (Codes-uvar_int n h)

    put_count :
        (n : ℕ) → n < 2 ^ 32 → Rewrites {U = User} (write uvar_int (pos n)) [] (groups 4 n) tt
    put_count n h = Rewrites-write uvar_int (pos n) (groups 4 n) (Codes-uvar_int n h)

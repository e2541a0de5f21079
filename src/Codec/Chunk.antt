-- ===== src/Codec/Chunk.antt =====
-- src/codec/chunk.go: the chunk, which is cut into shards. `none` is a panic.
pub mod Shards
pub mod Header
pub mod RoundTrip
use mathlib.Core.Option
use fec.Prelude.{
  ℕ, zero, suc, ◌+◌, ◌-◌, ◌^◌, Bool, true, false, Option, none, some, List, [], ◌∷◌, ◌++◌,
  if◌then◌else◌, ◌==◌, ltb, length, get_or, set, take, drop, replicate, min, max, mul64, copy,
  slice, copy_at, le_bytes, le_value,
}
use fec.Codec.Packet.{packet_data_size}
use fec.Codec.ReedSolomon.{ReedSolomon}

abbrev pub chunk_header_size : ℕ
chunk_header_size = 22

pub record Chunk : Type 0 where
  pub parts : ℕ
  pub version : ℕ
  pub kind : ℕ
  pub csn : ℕ
  pub size : ℕ
  pub payload : List ℕ

-- The chunk, and what of the data did not fit (nothing, if the list is empty).
unfoldable pub new_chunk : ℕ → ℕ → ℕ → List ℕ → Chunk × List ℕ
new_chunk parts csn kind src =
    let size = min (length src) (mul64 parts packet_data_size) in
    let chunk : Chunk = record {
      parts = parts;
      version = 1;
      kind = kind;
      csn = csn;
      size = size;
      payload = take size src;
    } in
    let rest = drop size src in if length rest == 0 then (chunk, []) else (chunk, rest)

-- `Data`: a copy of the payload, of the length that the chunk says, for which `make` does not
-- panic: the chunks that come from `unmarshal` have such a length.
unfoldable pub chunk_bytes : Chunk → List ℕ
chunk_bytes c = copy (replicate c.size 0) c.payload

unfoldable pub chunk_len : Chunk → ℕ
chunk_len c = mul64 c.parts packet_data_size

-- `for i = 1; uint64(copied) < c.size; i++ { copied += copy(dst[i], c.data[copied:]) }`, over the
-- shards from index `i` on. To go on behind the last shard is an index out of range.
unfoldable pub fill_shards : ℕ → List ℕ → ℕ → List (List ℕ) → Option (List (List ℕ))
fill_shards size src copied [] = if ltb copied size then none else some []
fill_shards size src copied (shard ∷ shards) =
    let part = drop copied src in
    let rest = fill_shards size src (copied + min (length shard) (length part)) shards in
    if ltb copied size then Option.map (◌∷◌ (copy shard part)) rest else some (shard ∷ shards)

-- The first shard: the header, and as much of the data as fits behind it.
unfoldable pub first_shard : Chunk → List ℕ → List ℕ
first_shard c shard =
    let h = set (set shard 0 c.version) 1 c.kind in
    let h = copy_at h 6 14 (le_bytes 8 c.csn) in
    let h = copy_at h 14 22 (le_bytes 8 (length c.payload)) in
    copy_at h chunk_header_size (length h) c.payload

marshal_into : Chunk → List (List ℕ) → Option (List (List ℕ))
marshal_into c [] = none
marshal_into c (shard ∷ shards) =
    let copied = min (length shard - chunk_header_size) (length c.payload) in
    Option.map (◌∷◌ (first_shard c shard)) (fill_shards c.size c.payload copied shards)

unfoldable pub marshal : ReedSolomon → ℕ → Chunk → Option (List (List ℕ))
unfolding marshal_into
marshal rs total c = marshal_into c (rs.alloc_aligned (max total c.parts) packet_data_size)

-- The loop of `Unmarshal` over the shards from index `i` on: the answer, and the payload.
unfoldable pub gather : ℕ → List ℕ → ℕ → List (List ℕ) → Bool × List ℕ
gather size buf copied [] = if ltb copied size then (false, buf) else (size == copied, buf)
gather size buf copied (shard ∷ shards) =
    let rest =
      gather size (copy_at buf copied (length buf) shard)
        (copied + min (length buf - copied) (length shard)) shards in
    if ltb copied size then rest else (size == copied, buf)

-- The answer, and the chunk as the call leaves it. A first shard that is shorter than the header is
-- an index out of range, and a size that no slice can have makes `make` panic.
unfoldable pub unmarshal : Chunk → List (List ℕ) → Option (Bool × Chunk)
unmarshal c [] = some (false, c)
unmarshal c (shard ∷ shards) =
    let size = le_value (slice shard 14 22) in
    let body = drop chunk_header_size shard in
    let (done, payload) =
      gather size (copy (replicate size 0) body) (min size (length body)) shards in
    if ltb (length shard) chunk_header_size
    then none
    else if ltb size (2 ^ 63)
    then some (
      done,
      record {
        parts = suc (length shards);
        version = get_or shard 0 0;
        kind = get_or shard 1 0;
        csn = le_value (slice shard 6 14);
        size = size;
        payload = payload;
      },
    )
    else none

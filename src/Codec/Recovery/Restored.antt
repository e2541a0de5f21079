-- ===== src/Codec/Recovery/Restored.antt =====
-- Encoding, loss and restoring together.
use fec.Prelude.{
  ltb-false, true, ℕ, ◌+◌, ◌*◌, ◌^◌, ◌≤◌, ◌<◌, ◌≡◌, refl, sym, ◌∙◌, Option, some, List, [], ◌∷◌,
  map, arith, length, length-replicate, take, take_all, drop_all, min, replicate, mul64, add64, All,
  copy_full,
}
use fec.Codec.Packet.{PacketV2, packet_data_size, packet_bytes}
use fec.Codec.ReedSolomon.{IsCode, HasSize}
use fec.Codec.Chunk.{Chunk, new_chunk, chunk_bytes, chunk_header_size, unmarshal}
use fec.Codec.Chunk.RoundTrip.{IsChunk, unmarshal-marshal_chunk}
use fec.Codec.Encoder.{Coder}
use fec.Codec.Encoder.Encode.{kind_data, encode}
use fec.Codec.Decoder.{Restorer}
use fec.Codec.Decoder.Restore.{empty_chunk, restore}
use fec.Codec.Recovery.Packets.{
  packets_of, encode_packets-eq, length-packets_of, Arrives, received, length-Arrives,
  Arrives-Survives,
}

-- The chunk that carries the data.
abbrev pub chunk_of : ℕ → ℕ → List ℕ → Chunk
chunk_of parts csn src = record {
  parts = parts;
  version = 1;
  kind = kind_data;
  csn = csn;
  size = length src;
  payload = src;
}

new_chunk-eq :
    (parts csn : ℕ) (src : List ℕ)
    → length src ≤ parts * packet_data_size
    → parts * packet_data_size < 2 ^ 64
    → new_chunk parts csn kind_data src ≡ (chunk_of parts csn src, [])
unfolding new_chunk
new_chunk-eq parts csn src h k =
    let whole : min (length src) (mul64 parts packet_data_size) ≡ length src = omega arith in
    rw (whole, drop_all (length src) src (omega arith), take_all (length src) src (omega arith))
      refl

chunk_bytes-chunk_of : (parts csn : ℕ) (src : List ℕ) → chunk_bytes (chunk_of parts csn src) ≡ src
unfolding chunk_bytes
chunk_bytes-chunk_of parts csn src =
    copy_full (replicate (length src) 0) src (sym (length-replicate (length src) 0))

-- The decoder's restorer with the code of an encoder.
abbrev pub restorer_of : Coder → ℕ → ℕ → Restorer
restorer_of e ok err = record { rs = e.rs; total = e.total; parts = e.parts; ok = ok; err = err }

-- The code behaves as documented, the encoder has data shards and no more of them than shards, and
-- its buffer has a size that a slice can have.
pub record IsCoder (e : Coder) : Type 0 where
  pub code : IsCode e.rs e.parts e.total
  pub some_parts : 0 < e.parts
  pub enough : e.parts ≤ e.total
  pub small : e.parts * packet_data_size < 2 ^ 63

-- The data of a chunk fits into the parts behind the header.
abbrev pub Fits : Coder → List ℕ → Type 0
Fits e src = length src + chunk_header_size ≤ e.parts * packet_data_size

-- What `encode` makes of a chunk: the shards, coded, in packets.
pub record Encoded (e : Coder) (csn : ℕ) (src : List ℕ) : Type 0 where
  pub shards : List (List ℕ)
  pub full : List (List ℕ)
  pub counted : length shards ≡ e.total
  pub sizes : All (HasSize packet_data_size) shards
  pub coded : e.rs.encode shards ≡ some full
  pub full_count : length full ≡ e.total
  pub full_sizes : All (HasSize packet_data_size) full
  pub kept : take e.parts full ≡ take e.parts shards
  pub back : unmarshal empty_chunk (take e.parts shards) ≡ some (true, chunk_of e.parts csn src)
  pub sent : encode e csn src ≡ some (add64 csn 1, packets_of csn 0 full)

pub encode-Encoded :
    (e : Coder) (csn : ℕ) (src : List ℕ) → IsCoder e → csn < 2 ^ 64 → Fits e src → Encoded e csn src
unfolding encode
encode-Encoded e csn src v hc fits =
    let chunk = chunk_of e.parts csn src in
    let is_chunk : IsChunk chunk = record {
      some_parts = v.some_parts;
      csn_u64 = hc;
      sized = refl;
      fits = fits;
      size_int = omega (arith, v.small);
    } in
    let (shards, marshalled, counted, sizes, back) =
      unmarshal-marshal_chunk e.rs e.parts e.total e.total chunk empty_chunk v.code is_chunk in
    let as_many : length shards ≡ e.total = omega (arith, v.enough) in
    let (full, coded, full_count, full_sizes, kept) =
      v.code.encodes 1024 shards (omega arith) as_many sizes in
    record {
      shards = shards;
      full = full;
      counted = as_many;
      sizes = sizes;
      coded = coded;
      full_count = full_count;
      full_sizes = full_sizes;
      kept = kept;
      back = back;
      sent =
          rw
            (
              new_chunk-eq e.parts csn src (omega arith) (omega (arith, v.small)),
              marshalled,
              coded,
              encode_packets-eq csn 0 full full_sizes,
            )
            refl;
    }

restore-Encoded :
    (e : Coder) (csn ok err : ℕ) (src : List ℕ) (got : List (Option PacketV2))
    → IsCoder e
    → (x : Encoded e csn src) → Arrives (packets_of csn 0 x.full) got
    → e.parts ≤ received got
    → restore (restorer_of e ok err) got
      ≡ some (chunk_of e.parts csn src ∷ [], restorer_of e (add64 ok 1) err)
unfolding restore
restore-Encoded e csn ok err src got v x arrived enough =
    let (left, as_many) = Arrives-Survives csn 0 x.full got x.full_sizes arrived in
    let (out, done, first) =
      v.code.reconstructs 1024 x.shards x.full (map packet_bytes got) (omega arith) x.counted
        x.sizes x.coded left (omega arith) in
    let len : length got ≡ e.total =
      length-Arrives (packets_of csn 0 x.full) got arrived
      ∙ length-packets_of csn 0 x.full
      ∙ x.full_count in
    rw
      (
        ltb-false (length got) e.total (omega arith),
        take_all e.total got (omega arith),
        done,
        first,
        x.kept,
        x.back,
        restore,
      )
      refl

-- With a Reed-Solomon code that behaves as documented: data that fits into a chunk is encoded
-- without a panic or an error, the number of the chunk goes up by one, and there are `total`
-- packets, of which packet `i` carries shard `i`, a whole packet of data.
pub encode_lem :
    (e : Coder) (csn : ℕ) (src : List ℕ)
    → IsCoder e
    → csn < 2 ^ 64
    → Fits e src
    → (full : List (List ℕ)) × (encode e csn src ≡ some (add64 csn 1, packets_of csn 0 full))
      × (length full ≡ e.total)
      × All (HasSize packet_data_size) full
encode_lem e csn src v hc fits =
    let x = encode-Encoded e csn src v hc fits in (x.full, x.sent, x.full_count, x.full_sizes)

-- With a Reed-Solomon code that behaves as documented: data of at most `1024 * parts - 22` bytes
-- is encoded into packets. Whichever of them arrive, with their chunk number and their data, if at
-- least `parts` do, `restore` sends on one chunk, with the same number and the same data, and
-- counts it as good.
pub restore-encode :
    (e : Coder) (csn next ok err : ℕ) (src : List ℕ) (packets : List PacketV2)
    (got : List (Option PacketV2))
    → IsCoder e
    → csn < 2 ^ 64
    → Fits e src
    → encode e csn src ≡ some (next, packets)
    → Arrives packets got
    → e.parts ≤ received got
    → (chunk : Chunk) × (restore (restorer_of e ok err) got
        ≡ some (chunk ∷ [], restorer_of e (add64 ok 1) err))
      × (chunk.csn ≡ csn)
      × (chunk_bytes chunk ≡ src)
restore-encode e csn next ok err src packets got v hc fits made arrived enough =
    let x = encode-Encoded e csn src v hc fits in
    let same : packets_of csn 0 x.full ≡ packets = ground (arith, x.sent) in
    (
      chunk_of e.parts csn src,
      restore-Encoded e csn ok err src got v x (rw same arrived) enough,
      refl,
      chunk_bytes-chunk_of e.parts csn src,
    )

-- ===== src/Codec/Chunk/RoundTrip.antt =====
-- A chunk through `Marshal` and `Unmarshal` of src/codec/chunk.go.
use fec.Prelude.{
  ℕ, zero, suc, ◌+◌, ◌-◌, ◌*◌, ◌^◌, ◌≤◌, ◌<◌, ◌≡◌, refl, sym, ap, ◌∙◌, true, Option, some, List, [],
  ◌∷◌, ◌++◌, arith, lt→ltb, ltb-false, length, length-append, length-take, length-drop,
  length-replicate, take, drop, drop-min, drop-append, take-append_split, replicate, min, max, All,
  copy, length-copy, le_value-le_bytes,
}
use fec.Codec.Packet.{packet_data_size}
use fec.Codec.ReedSolomon.{ReedSolomon, IsCode, HasSize}
use fec.Codec.Chunk.{
  Chunk, chunk_header_size, first_shard, marshal_into, marshal, gather, unmarshal,
}
use fec.Codec.Chunk.Header.{header, length-header, slice-csn, slice-size, first_shard-eq}
use fec.Codec.Chunk.Shards.{
  concat, spread, fill_shards-eq, gather-eq, take-spread, take-spread_self, length-spread,
}

-- A chunk that `Marshal` can write: it has parts, its fields fit their widths, its size is that of
-- its payload, and the payload fits into the parts behind the header.
pub record IsChunk (c : Chunk) : Type 0 where
  pub some_parts : 0 < c.parts
  pub csn_u64 : c.csn < 2 ^ 64
  pub sized : c.size ≡ length c.payload
  pub fits : length c.payload + chunk_header_size ≤ c.parts * packet_data_size
  pub size_int : c.size < 2 ^ 63

length-concat :
    (n : ℕ) (shards : List (List ℕ))
    → All (HasSize n) shards
    → length (concat shards) ≡ length shards * n
length-concat n [] h = omega arith
length-concat n (s ∷ shards) (hs, h) =
    omega (arith, length-append s (concat shards), length-concat n shards h)

All-take :
    (n k : ℕ) (shards : List (List ℕ)) → All (HasSize n) shards → All (HasSize n) (take k shards)
unfolding take
All-take n zero shards h = tt
All-take n (suc k) [] h = tt
All-take n (suc k) (s ∷ shards) (hs, h) = (hs, All-take n k shards h)

All-spread :
    (n : ℕ) (shards : List (List ℕ)) (rest : List ℕ)
    → All (HasSize n) shards
    → All (HasSize n) (spread shards rest)
unfolding spread
All-spread n [] rest h = tt
All-spread n (s ∷ shards) rest (hs, h) =
    (length-copy s rest ∙ hs, All-spread n shards (drop (length s) rest) h)

length-concat-spread :
    (shards : List (List ℕ)) (rest : List ℕ)
    → length (concat (spread shards rest)) ≡ length (concat shards)
unfolding spread
length-concat-spread [] rest = refl
length-concat-spread (s ∷ shards) rest = omega (
  arith,
  length-append s (concat shards),
  length-append (copy s rest) (concat (spread shards (drop (length s) rest))),
  length-copy s rest,
  length-concat-spread shards (drop (length s) rest),
)

-- The reading loop over a body and the shards behind it gives the front of them all.
gather-body :
    (n : ℕ) (body : List ℕ) (shards : List (List ℕ))
    → n ≤ length body + length (concat shards)
    → gather n (copy (replicate n 0) body) (min n (length body)) shards
      ≡ (true, take n (body ++ concat shards))
gather-body n body shards h =
    rw
      (
        buffer,
        place,
        gather-eq shards pre left n (omega (arith, lens)) (omega (arith, lens)),
        left_len,
        take-append_split n body (concat shards),
      )
      refl
  where
    pre : List ℕ
    pre = take n body

    left : List ℕ
    left = drop (length body) (replicate n 0)

    buffer : copy (replicate n 0) body ≡ pre ++ left
    buffer = unfold copy in ap (λ k. take k body ++ left) (length-replicate n 0)

    place : min n (length body) ≡ length pre
    place = sym (length-take n body)

    left_len : length left ≡ n - length body
    left_len =
        length-drop (length body) (replicate n 0) ∙ ap (λ k. k - length body) (length-replicate n 0)

    lens : (length pre ≡ min n (length body)) × (length left ≡ n - length body)
    lens = (length-take n body, left_len)

-- `Unmarshal` of a first shard and the shards behind it, over which the payload was spread.
unmarshal-spread :
    (c q : Chunk) (front : List ℕ) (shards : List (List ℕ)) (unused : List ℕ)
    → IsChunk c
    → length unused ≡ 4
    → length c.payload ≤ length front + length (concat shards)
    → unmarshal q
        ((header c unused ++ copy front c.payload) ∷ spread shards (drop (length front) c.payload))
      ≡ some (true, record c { parts = suc (length shards) })
unfolding unmarshal
unmarshal-spread c q front shards unused v hu room =
    rw
      (
        slice-csn c unused hu (copy front c.payload),
        slice-size c unused hu (copy front c.payload),
        le_value-le_bytes 8 c.csn v.csn_u64,
        le_value-le_bytes 8 (length c.payload) (omega arith),
        drop-append 22 (header c unused) (copy front c.payload) (length-header c unused hu),
        gather-body n body behind (omega (arith, total)),
        front_of,
        ltb-false (length (header c unused ++ body)) 22
            (omega (arith, length-append (header c unused) body, length-header c unused hu)),
        lt→ltb n (2 ^ 63) (omega arith),
        length-spread shards (drop (length front) c.payload),
      )
      (ap (λ k. some (true, record c { parts = suc (length shards); size = k })) (sym v.sized))
  where
    n : ℕ
    n = length c.payload

    body : List ℕ
    body = copy front c.payload

    behind : List (List ℕ)
    behind = spread shards (drop (length front) c.payload)

    front_of : take n (body ++ concat behind) ≡ c.payload
    front_of =
        unfold spread in
        take-spread_self (front ∷ shards) c.payload
          (omega (arith, length-append front (concat shards)))

    total : length body + length (concat behind) ≡ length front + length (concat shards)
    total = omega (
      arith,
      length-copy front c.payload,
      length-concat-spread shards (drop (length front) c.payload),
    )

-- `Marshal` over shards that are known.
marshal_into-eq :
    (c : Chunk) (shard : List ℕ) (shards : List (List ℕ))
    → IsChunk c
    → length shard ≡ packet_data_size
    → length c.payload + 22 ≤ packet_data_size + length (concat shards)
    → marshal_into c (shard ∷ shards)
      ≡ some (first_shard c shard ∷ spread shards (drop (length (drop 22 shard)) c.payload))
unfolding marshal_into
marshal_into-eq c shard shards v hs room =
    rw
      (
        fill_shards-eq c.size c.payload (min (length shard - 22) (length c.payload)) shards v.sized
            (omega arith),
        drop-min (length shard - 22) c.payload,
        length-drop 22 shard,
      )
      refl

take-suc : (k : ℕ) (x : List ℕ) (xs : List (List ℕ)) → 0 < k → take k (x ∷ xs) ≡ x ∷ take (k - 1) xs
unfolding take
take-suc zero x xs h = absurd (omega arith)
take-suc (suc k) x xs h = ap (λ n. x ∷ take n xs) (omega arith)

abbrev BackTo : Chunk → Chunk → ℕ → Option (List (List ℕ)) → Type 0
BackTo c q total r =
    (shards : List (List ℕ)) × (r ≡ some shards)
    × (length shards ≡ max total c.parts)
    × All (HasSize packet_data_size) shards
    × (unmarshal q (take c.parts shards) ≡ some (true, c))

marshal_into-BackTo :
    (c q : Chunk) (total : ℕ) (ss : List (List ℕ))
    → IsChunk c
    → length ss ≡ max total c.parts
    → All (HasSize packet_data_size) ss
    → BackTo c q total (marshal_into c ss)
marshal_into-BackTo c q total [] v len sizes = absurd (omega (arith, v.some_parts))
marshal_into-BackTo c q total (s ∷ ss) v len (hs, sizes) =
    let (unused, hu, first) = first_shard-eq c s (omega arith) in
    let front = drop 22 s in
    let rest = drop (length front) c.payload in
    let kept = take (c.parts - 1) ss in
    let front_len : length front ≡ 1002 = omega (arith, length-drop 22 s) in
    let kept_len : length kept ≡ c.parts - 1 = omega (arith, length-take (c.parts - 1) ss) in
    (
      first_shard c s ∷ spread ss rest,
      marshal_into-eq c s ss v hs (omega (arith, length-concat 1024 ss sizes)),
      omega (arith, length-spread ss rest),
      (
        ap length first
            ∙ omega (
              arith,
              length-append (header c unused) (copy front c.payload),
              length-header c unused hu,
              length-copy front c.payload,
            ),
        All-spread 1024 ss rest sizes,
      ),
      rw
          (
            take-suc c.parts (first_shard c s) (spread ss rest) v.some_parts,
            take-spread (c.parts - 1) ss rest,
            first,
            unmarshal-spread c q front kept unused v hu
                (omega (arith, length-concat 1024 kept (All-take 1024 (c.parts - 1) ss sizes))),
          )
          (ap (λ k. some (true, record c { parts = k })) (omega (arith, v.some_parts))),
    )

-- A chunk that fits is marshalled without a panic, into as many shards as the larger of `total` and
-- its parts, each of 1024 bytes; and `Unmarshal` of the first `parts` of them, into any chunk,
-- gives the chunk back.
pub unmarshal-marshal_chunk :
    (rs : ReedSolomon) (n m total : ℕ) (c q : Chunk)
    → IsCode rs n m
    → IsChunk c
    → (shards : List (List ℕ)) × (marshal rs total c ≡ some shards)
      × (length shards ≡ max total c.parts)
      × All (HasSize packet_data_size) shards
      × (unmarshal q (take c.parts shards) ≡ some (true, c))
unfolding marshal
unmarshal-marshal_chunk rs n m total c q code v =
    marshal_into-BackTo c q total (rs.alloc_aligned (max total c.parts) packet_data_size) v
      (code.alloc_count (max total c.parts) packet_data_size)
      (code.alloc_sizes (max total c.parts) packet_data_size)

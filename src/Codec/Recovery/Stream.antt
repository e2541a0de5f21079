-- ===== src/Codec/Recovery/Stream.antt =====
-- A stream of chunks through the decoder of src/codec/decoder.go, one after the other.
pub mod Turn
pub mod Delivery
use mathlib.Core.Path.{subst}
use fec.Prelude.{
  ℕ, zero, suc, ◌+◌, ◌*◌, ◌^◌, ◌≤◌, ◌<◌, ◌≡◌, refl, sym, ap, ap₂, ◌∙◌, Option, none, some, List, [],
  ◌∷◌, ◌++◌, arith, length, get_elem?, some-injective, add64, max, sub64, ◌==◌, ==_refl, ==_false,
  leb-false, All,
}
use fec.Codec.Packet.{PacketV2}
use fec.Codec.Chunk.{Chunk, chunk_bytes}
use fec.Codec.Encoder.{Coder}
use fec.Codec.Encoder.Encode.{encode}
use fec.Codec.Decoder.{Assembler, Restorer, Dispatcher}
use fec.Codec.Decoder.Assembly.{assemble_all}
use fec.Codec.Decoder.Assembly.Geometry.{IsPlaced, le-mul}
use fec.Codec.Decoder.Assembly.Collect.{Done}
use fec.Codec.Decoder.Assembly.Separate.{Separate}
use fec.Codec.Decoder.Assembly.Sequence.{assemble_all-OfOneChunk}
use fec.Codec.Decoder.Assembly.Idle.{Idle, Idle-Separate, Idle-Ready, IsOfChunk, Done-Idle}
use fec.Codec.Decoder.Assembly.Late.{Rests, assemble_all-late, assemble_all-append}
use fec.Codec.Decoder.Restore.{restore, restore_all}
use fec.Codec.Decoder.Dispatch.{dispatch, accept, drain, dispatch_all}
use fec.Codec.Decoder.Run.{dispatch_queue}
use fec.Codec.Recovery.Packets.{packets_of}
use fec.Codec.Recovery.Restored.{restorer_of, IsCoder, Fits, encode_lem}
use fec.Codec.Recovery.Delivered.{IsOneOf, Distinct, packets_of-IsFor, restore-assemble_all}

-- What `encode` makes of chunk `n` of the data.
unfoldable pub sent_packets : Coder → (ℕ → List ℕ) → ℕ → List PacketV2
sent_packets e src n = elim (encode e n (src n)) [ none ↦ [] | some (next, packets) ↦ packets ]

-- What comes while chunk `n` is awaited: packets of it, and behind them packets of chunks up to it.
pub record Batch : Type 0 where
  pub first : List PacketV2
  pub late : List PacketV2

-- The packets of all batches, in the order in which they come.
unfoldable pub in_turn : List Batch → List PacketV2
in_turn [] = []
in_turn (b ∷ batches) = b.first ++ (b.late ++ in_turn batches)

-- The data of `n` chunks from chunk `c` on.
unfoldable pub data_from : (ℕ → List ℕ) → ℕ → ℕ → List (List ℕ)
data_from src c zero = []
data_from src c (suc n) = src c ∷ data_from src (c + 1) n

-- The chunks are numbered from `c` on, and have their data.
abbrev pub InTurn : (ℕ → List ℕ) → ℕ → List Chunk → Type 0
InTurn src c [] = Unit
InTurn src c (chunk ∷ chunks) =
    (chunk.csn ≡ c) × (chunk_bytes chunk ≡ src c) × InTurn src (c + 1) chunks

module _ (e : Coder) (src : ℕ → List ℕ) where
  -- The batch of chunk `c`: as many different packets of it as there are data shards, and late
  -- ones.
  pub record IsBatch (c : ℕ) (b : Batch) : Type 0 where
    pub ours : All (IsOneOf (sent_packets e src c)) b.first
    pub distinct : Distinct b.first
    pub enough : length b.first ≡ e.parts
    pub behind : All (λ q. q.csn ≤ c) b.late

  -- One batch for each chunk from `c` on, whose places do not overflow.
  abbrev pub AreBatches : ℕ → List Batch → Type 0
  AreBatches c [] = Unit
  AreBatches c (b ∷ batches) =
      (c * e.total + e.total < 2 ^ 64) × IsBatch c b × AreBatches (c + 1) batches

  module _ (v : IsCoder e) (fits : (n : ℕ) → Fits e (src n)) where
    pub encode-sent_packets :
        (c : ℕ) → c < 2 ^ 64 → encode e c (src c) ≡ some (add64 c 1, sent_packets e src c)
    unfolding sent_packets
    encode-sent_packets c hc =
        let (shards, sent, count, sizes) = encode_lem e c (src c) v hc (fits c) in
        rw (sent, sent_packets) refl

    pub small_number : (c : ℕ) → c * e.total + e.total < 2 ^ 64 → c < 2 ^ 64
    small_number c h = omega (arith, le-mul c e.total (omega (arith, v.some_parts, v.enough)))

    batch-IsPlaced :
        (c : ℕ) (ps : List PacketV2)
        → c * e.total + e.total < 2 ^ 64
        → All (IsOneOf (sent_packets e src c)) ps
        → All (λ q. IsPlaced e.total q × IsOfChunk c q) ps
    batch-IsPlaced c [] h os = tt
    batch-IsPlaced c (q ∷ ps) h ((p, at, (same, _)), os) =
        let hc = small_number c h in
        let (shards, sent, count, sizes) = encode_lem e c (src c) v hc (fits c) in
        let these : sent_packets e src c ≡ packets_of c 0 shards =
          ground (arith, sent, encode-sent_packets c hc) in
        let (number, lt) =
          packets_of-IsFor c 0 q.psn shards p (ap (λ xs. get_elem? xs q.psn) (sym these) ∙ at) in
        let of_chunk : q.csn ≡ c = same ∙ number in
        (
          (record { psn_in = omega (arith, lt, count); no_wrap = rw of_chunk h }, of_chunk),
          batch-IsPlaced c ps h os,
        )

    -- The assembler after the batch of chunk `c`.
    record After (a b : Assembler) (c : ℕ) : Type 0 where
      idle : Idle b
      last_is : b.last ≡ c
      total_is : b.total ≡ a.total
      parts_is : b.parts ≡ a.parts

    first_packets :
        (a : Assembler) (c ok err : ℕ) (b : Batch)
        → Idle a
        → a.last < c
        → a.total ≡ e.total
        → a.parts ≡ e.parts
        → 2 ≤ e.parts
        → c * e.total + e.total < 2 ^ 64
        → IsBatch c b
        → (got : List (Option PacketV2)) × (a' : Assembler) × (chunk : Chunk) × (assemble_all a
              b.first
            ≡ some (got ∷ [], a'))
          × After a a' c
          × (restore (restorer_of e ok err) got ≡ some (chunk ∷ [], restorer_of e (add64 ok 1) err))
          × (chunk.csn ≡ c)
          × (chunk_bytes chunk ≡ src c)
    first_packets a c ok err b idle fresh same_total same_parts two h i =
        let (got, a', chunk, sent, done, restored, number, bytes) =
          restore-assemble_all e c (add64 c 1) ok err (src c) (sent_packets e src c) b.first a v h
            (fits c) (encode-sent_packets c (small_number c h)) (Idle-Ready a c idle fresh)
            same_total same_parts (omega arith) i.ours i.distinct (omega (arith, i.enough)) in
        let (sent', b', again, separate, _) =
          assemble_all-OfOneChunk (IsOfChunk c) a b.first (Idle-Separate (IsOfChunk c) a idle)
            (rw same_total (batch-IsPlaced c b.first h i.ours)) in
        let equal : b' ≡ a' = ap (λ r. elim r [ none ↦ b' | some (x, y) ↦ y ]) (sym again ∙ sent) in
        (
          got,
          a',
          chunk,
          sent,
          record {
            idle = Done-Idle a a' c done (subst (Separate (IsOfChunk c)) equal separate);
            last_is = done.last_csn;
            total_is = done.total_kept;
            parts_is = done.parts_kept;
          },
          restored,
          number,
          bytes,
        )

    -- The assembler and the restorer over all batches.
    pub stream_lem :
        (a : Assembler) (c ok err : ℕ) (batches : List Batch)
        → Idle a
        → a.last < c
        → a.total ≡ e.total
        → a.parts ≡ e.parts
        → 2 ≤ e.parts
        → AreBatches c batches
        → (sent : List (List (Option PacketV2))) × (b : Assembler) × (chunks : List Chunk)
          × (ok' : ℕ) × (assemble_all a (in_turn batches) ≡ some (sent, b))
          × (restore_all (restorer_of e ok err) sent ≡ some (chunks, restorer_of e ok' err))
          × InTurn src c chunks
          × (length chunks ≡ length batches)
    unfolding in_turn assemble_all restore_all
    stream_lem a c ok err [] idle fresh st sp two h = ([], a, [], ok, refl, refl, tt, refl)
    stream_lem a c ok err (b ∷ batches) idle fresh st sp two (small, i, h) =
        let (got, a', chunk, collected, after, restored, number, bytes) =
          first_packets a c ok err b idle fresh st sp two small i in
        let (a'', dropped, rests) =
          assemble_all-late a' b.late after.idle
            (subst (λ n. All (λ q. q.csn ≤ n) b.late) (sym after.last_is) i.behind) in
        let (sent, z, chunks, ok', rest, restored', numbered, counted) =
          stream_lem a'' (c + 1) (add64 ok 1) err batches rests.idle
            (omega (arith, rests.same_last, after.last_is)) (rests.same_total ∙ after.total_is ∙ st)
            (rests.same_parts ∙ after.parts_is ∙ sp) two h in
        (
          got ∷ sent,
          z,
          chunk ∷ chunks,
          ok',
          assemble_all-append a a' z b.first (b.late ++ in_turn batches) (got ∷ []) sent collected
              (assemble_all-append a' a'' z b.late (in_turn batches) [] sent dropped rest),
          rw (restore_all, restored, restored') refl,
          (number, bytes, numbered),
          ap suc counted,
        )

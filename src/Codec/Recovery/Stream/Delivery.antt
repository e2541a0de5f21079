-- ===== src/Codec/Recovery/Stream/Delivery.antt =====
-- The datagrams of a stream of chunks through all goroutines of src/codec/decoder.go.
use fec.Prelude.{
  length-map, map-append, map, ℕ, ◌+◌, ◌*◌, ◌^◌, ◌≤◌, ◌<◌, ◌≡◌, refl, sym, ap, ap₂, ◌∙◌, Option,
  some, List, [], ◌∷◌, ◌++◌, arith, length, get_elem?, add64, All,
}
use fec.Codec.Packet.{PacketV2}
use fec.Codec.Encoder.{Coder}
use fec.Codec.Recovery.Restored.{restorer_of, IsCoder, Fits}
use fec.Codec.Recovery.Delivered.{IsOneOf, Distinct}
use fec.Codec.Recovery.Wire.{hashed, hashed-Distinct, Decodes, decode-encode, All-get_elem?}
use fec.Codec.ReedSolomon.{ReedSolomon}
use fec.Codec.Packet.{marshal}
use fec.Codec.Encoder.{made}
use fec.Codec.Decoder.{Decoder, new_decoder}
use fec.Codec.Decoder.Decode.{decode_all}
use fec.Codec.Decoder.Run.{run}
use fec.Codec.Decoder.Assembly.Bounds.{All-append}
use fec.Codec.Decoder.Assembly.Fresh.{fresh_assembler, fresh_assembler-Idle}
use fec.Codec.Recovery.Made.{decoder_of, fresh_dispatcher_of, new_decoder-decoder_of}
use fec.Codec.Recovery.Stream.Turn.{dispatch_all-InTurn}
use fec.Codec.Recovery.Stream.{
  encode-sent_packets, small_number, sent_packets, Batch, in_turn, data_from, AreBatches,
  stream_lem,
}

module _ (sha1 : List ℕ → List ℕ) (sha1_len : (x : List ℕ) → length (sha1 x) ≡ 20) where
  module _ (e : Coder) (src : ℕ → List ℕ) where
    -- The packet is one that `encode` made of chunk `c`.
    abbrev pub IsMade : ℕ → PacketV2 → Type 0
    IsMade c q = get_elem? (sent_packets e src c) q.psn ≡ some q

    -- As `IsBatch`, of the packets themselves.
    pub record IsSentBatch (c : ℕ) (b : Batch) : Type 0 where
      pub ours : All (IsMade c) b.first
      pub distinct : Distinct b.first
      pub enough : length b.first ≡ e.parts
      pub behind : All (λ q. (q.csn ≤ c) × IsMade q.csn q) b.late

    abbrev pub AreSentBatches : ℕ → List Batch → Type 0
    AreSentBatches c [] = Unit
    AreSentBatches c (b ∷ batches) =
        (c * e.total + e.total < 2 ^ 64) × IsSentBatch c b × AreSentBatches (c + 1) batches

    abbrev hashed_batch : Batch → Batch
    hashed_batch b = record {
      first = map (hashed sha1 sha1_len) b.first;
      late = map (hashed sha1 sha1_len) b.late;
    }

    in_turn-hashed :
        (batches : List Batch)
        → in_turn (map hashed_batch batches) ≡ map (hashed sha1 sha1_len) (in_turn batches)
    unfolding in_turn
    in_turn-hashed [] = refl
    in_turn-hashed (b ∷ batches) =
        ap (λ xs. map (hashed sha1 sha1_len) b.first ++ xs)
          (ap (λ xs. map (hashed sha1 sha1_len) b.late ++ xs) (in_turn-hashed batches)
            ∙ sym (map-append (hashed sha1 sha1_len) b.late (in_turn batches)))
        ∙ sym (map-append (hashed sha1 sha1_len) b.first (b.late ++ in_turn batches))

    late-csn :
        (c : ℕ) (qs : List PacketV2)
        → All (λ q. (q.csn ≤ c) × IsMade q.csn q) qs
        → All (λ q. q.csn ≤ c) (map (hashed sha1 sha1_len) qs)
    late-csn c [] h = tt
    late-csn c (q ∷ qs) ((le, _), h) = (le, late-csn c qs h)

    ours-IsOneOf :
        (c : ℕ) (qs : List PacketV2)
        → All (IsMade c) qs
        → All (IsOneOf (sent_packets e src c)) (map (hashed sha1 sha1_len) qs)
    ours-IsOneOf c [] h = tt
    ours-IsOneOf c (q ∷ qs) (at, h) = ((q, at, (refl, refl)), ours-IsOneOf c qs h)

    AreSentBatches-hashed :
        (c : ℕ) (batches : List Batch)
        → AreSentBatches c batches
        → AreBatches e src c (map hashed_batch batches)
    AreSentBatches-hashed c [] h = tt
    AreSentBatches-hashed c (b ∷ batches) (small, i, h) = (
      small,
      record {
        ours = ours-IsOneOf c b.first i.ours;
        distinct = hashed-Distinct sha1 sha1_len b.first i.distinct;
        enough = length-map (hashed sha1 sha1_len) b.first ∙ i.enough;
        behind = late-csn c b.late i.behind;
      },
      AreSentBatches-hashed (c + 1) batches h,
    )

    module _ (v : IsCoder e) (fits : (n : ℕ) → Fits e (src n)) where
      pub IsMade-Decodes :
          (c : ℕ) (q : PacketV2) → c < 2 ^ 64 → IsMade c q → Decodes sha1 sha1_len q
      IsMade-Decodes c q hc at =
          All-get_elem? sha1 sha1_len (Decodes sha1 sha1_len) (sent_packets e src c) q.psn q
            (decode-encode sha1 sha1_len e c (add64 c 1) (src c) (sent_packets e src c) v hc
              (fits c) (encode-sent_packets e src v fits c hc))
            at

      -- What holds of all packets that `encode` makes holds of all that come.
      module _ (P : PacketV2 → Type 0)
          (all : (c : ℕ) (q : PacketV2) → c < 2 ^ 64 → IsMade c q → P q) where
        ours_lem : (c : ℕ) (qs : List PacketV2) → c < 2 ^ 64 → All (IsMade c) qs → All P qs
        ours_lem c [] hc h = tt
        ours_lem c (q ∷ qs) hc (at, h) = (all c q hc at, ours_lem c qs hc h)

        late_lem :
            (c : ℕ) (qs : List PacketV2)
            → c < 2 ^ 64
            → All (λ q. (q.csn ≤ c) × IsMade q.csn q) qs
            → All P qs
        late_lem c [] hc h = tt
        late_lem c (q ∷ qs) hc ((le, at), h) = (all q.csn q (omega arith) at, late_lem c qs hc h)

        pub in_turn_lem :
            (c : ℕ) (batches : List Batch) → AreSentBatches c batches → All P (in_turn batches)
        unfolding in_turn
        in_turn_lem c [] h = tt
        in_turn_lem c (b ∷ batches) (small, i, h) =
            let hc = small_number e src v fits c small in
            All-append P b.first (b.late ++ in_turn batches) (ours_lem c b.first hc i.ours) (
              All-append P b.late (in_turn batches) (late_lem c b.late hc i.behind)
                (in_turn_lem (c + 1) batches h))

      pub decode_all-Decodes :
          (qs : List PacketV2)
          → All (Decodes sha1 sha1_len) qs
          → decode_all sha1 (map (marshal sha1) qs) ≡ map (hashed sha1 sha1_len) qs
      unfolding decode_all
      decode_all-Decodes [] h = refl
      decode_all-Decodes (q ∷ qs) (d, h) = ap₂ (λ xs ys. xs ++ ys) d (decode_all-Decodes qs h)

      decode_all-in_turn :
          (batches : List Batch)
          → AreSentBatches 1 batches
          → decode_all sha1 (map (marshal sha1) (in_turn batches))
            ≡ in_turn (map hashed_batch batches)
      decode_all-in_turn batches h =
          decode_all-Decodes (in_turn batches)
            (in_turn_lem (Decodes sha1 sha1_len) IsMade-Decodes 1 batches h)
          ∙ sym (in_turn-hashed batches)

      -- With a Reed-Solomon code that behaves as documented; `src n` is the data of chunk `n`, each
      -- fitting into a chunk. A decoder is made for the encoder's numbers of shards, with two or
      -- more data shards, at least one line and so few that their places do not overflow. The
      -- encoder's datagrams come to it, batch by batch: for each chunk from the first one on as
      -- many different ones as there are data shards, in any order, and behind them any number of
      -- late or repeated ones, of this chunk or of earlier ones (chunk numbers being so small that
      -- no place overflows). Then no goroutine panics, and what comes out is exactly the data of
      -- all these chunks, in their order.
      pub run-data_from :
          (new_rs : ℕ → ℕ → Option ReedSolomon) (lines size : ℕ) (d : Decoder)
          (batches : List Batch)
          → new_rs e.parts e.total ≡ some e.rs
          → 2 ≤ e.parts
          → 0 < lines
          → lines * e.total < 2 ^ 64
          → new_decoder new_rs e.parts e.total lines size ≡ made d
          → AreSentBatches 1 batches
          → 1 + length batches < 2 ^ 64
          → (b : Decoder) × (run sha1 d (map (marshal sha1) (in_turn batches))
              ≡ some (data_from src 1 (length batches), b))
      unfolding run
      run-data_from new_rs lines size d batches code two pos small new h few =
          let is : decoder_of e lines size ≡ d =
            new_decoder-decoder_of new_rs e lines size d v.some_parts (omega (arith, v.enough)) code
              new in
          let (sent, a, chunks, ok, assembled, restored, numbered, counted) =
            stream_lem e src v fits (fresh_assembler e.parts e.total lines) 1 0 0
              (map hashed_batch batches)
              (fresh_assembler-Idle e.parts e.total lines (omega (arith, v.small))
                (omega (arith, two, v.enough)) pos small)
              (omega arith) refl refl two (AreSentBatches-hashed 1 batches h) in
          let as_many : length chunks ≡ length batches =
            counted ∙ length-map hashed_batch batches in
          let (b, dispatched) =
            dispatch_all-InTurn src (fresh_dispatcher_of size) 1 chunks refl refl refl
              (omega (arith, as_many)) numbered in
          let out : Decoder = record {
            assembler = a;
            restorer = restorer_of e ok 0;
            dispatcher = b;
          } in
          (
            out,
            ap (λ x. run sha1 x (map (marshal sha1) (in_turn batches))) (sym is)
                ∙ rw (run, decode_all-in_turn batches h, assembled, restored, dispatched)
                    (ap (λ n. some (data_from src 1 n, out)) as_many),
          )

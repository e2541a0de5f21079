-- ===== src/Codec/Recovery/Spread/Sent.antt =====
-- What the goroutines `encode` and `dispatch` of src/codec/encoder.go make of a sequence of chunks.
use mathlib.Core.Path.{subst}
use native.Mathlib.Nat.{mul-add-mod_self_right, mul-add-div_right, mod-eq_of_lt, div-eq_of_lt}
use fec.Prelude.{
  ℕ, zero, suc, ◌+◌, ◌*◌, ◌/◌, ◌%◌, ◌^◌, ◌<◌, ◌≡◌, sym, ap, ap₂, ◌∙◌, some, List, [], ◌∷◌, ◌++◌,
  arith, length,
}
use fec.Codec.Packet.{PacketV2}
use fec.Codec.Encoder.{Coder}
use fec.Codec.Encoder.Encode.{encode}
use fec.Codec.Encoder.Run.{encode_all}
use fec.Codec.Encoder.Dispatch.Interleave.{batch}
use fec.Codec.Decoder.Decode.{empty_packet}
use fec.Codec.Decoder.Assembly.Geometry.{le-mul}
use fec.Codec.Decoder.Assembly.Round.{Round}
use fec.Codec.Recovery.Packets.{packets_of, length-packets_of}
use fec.Codec.Recovery.Restored.{IsCoder, Fits, encode_lem}
use fec.Codec.Recovery.Stream.{sent_packets, encode-sent_packets}
use fec.Codec.Recovery.Spread.Rounds.{sent_packet, chunk_small}
use fec.Codec.Recovery.Spread.Batches.{batch-append, batch-eq, batch-get_or}

module _ (e : Coder) (src : ℕ → List ℕ) where
  -- The chunks from `c` on have these data.
  abbrev pub AreData : ℕ → List (List ℕ) → Type 0
  AreData c [] = Unit
  AreData c (x ∷ xs) = (src c ≡ x) × AreData (c + 1) xs

  -- The packets of `m` chunks from `c` on, chunk by chunk.
  abbrev pub chunks_from : ℕ → ℕ → List PacketV2
  chunks_from c zero = []
  chunks_from c (suc m) = sent_packets e src c ++ chunks_from (c + 1) m

  -- Packet `r` of chunk `c + j`, at place `j * total + r`.
  abbrev pub packet_from : ℕ → ℕ → PacketV2
  packet_from c k = sent_packet e src (c + k / e.total) (k % e.total)

  -- Round `r` of the chunks from `c` on.
  abbrev pub sent_round : ℕ → ℕ → Round
  sent_round c r j = sent_packet e src (c + j) r

  module _ (v : IsCoder e) (fits : (n : ℕ) → Fits e (src n)) where
    pub encode_all-chunks_from :
        (c : ℕ) (xs : List (List ℕ))
        → (c + length xs) * e.total < 2 ^ 64
        → AreData c xs
        → encode_all e c xs ≡ some (c + length xs, chunks_from c (length xs))
    unfolding encode_all
    encode_all-chunks_from c [] small d = ap (λ n. some (n, [])) (omega arith)
    encode_all-chunks_from c (x ∷ xs) small (d, ds) =
        let here = chunk_small e.total c (suc (length xs)) 0 (omega arith) small in
        let small' =
          subst (λ k. k * e.total < 2 ^ 64) {x = c + suc (length xs)} {y = c + 1 + length xs}
            (omega arith) small in
        let hc : c + 1 < 2 ^ 64 = omega (
          arith,
          small',
          le-mul (c + 1 + length xs) e.total (omega (arith, v.some_parts, v.enough)),
        ) in
        let first : encode e c x ≡ some (c + 1, sent_packets e src c) =
          ap (encode e c) (sym d)
          ∙ encode-sent_packets e src v fits c (omega (arith, hc))
          ∙ ap (λ n. some (n, sent_packets e src c)) (omega (arith, hc)) in
        rw (first, encode_all, encode_all-chunks_from (c + 1) xs small' ds)
          (ap (λ n. some (n, chunks_from c (suc (length xs)))) {x = c + 1 + length xs}
            {y = c + suc (length xs)} (omega arith))

    length-sent_packets : (c : ℕ) → c < 2 ^ 64 → length (sent_packets e src c) ≡ e.total
    length-sent_packets c hc =
        let (shards, sent, count, sizes) = encode_lem e c (src c) v hc (fits c) in
        let these : sent_packets e src c ≡ packets_of c 0 shards =
          ground (arith, sent, encode-sent_packets e src v fits c hc) in
        ap length these ∙ length-packets_of c 0 shards ∙ count

    pub packet_from-round :
        (c r j : ℕ) → r < e.total → packet_from c (j * e.total + r) ≡ sent_round c r j
    packet_from-round c r j lt =
        rw
          (
            mul-add-mod_self_right j e.total r,
            mod-eq_of_lt lt,
            mul-add-div_right {m = e.total} (omega (arith, lt)) j r,
            div-eq_of_lt lt,
          )
          (ap (λ n. sent_packet e src (c + n) r) (omega arith))

    -- Chunk by chunk, the packets stand at their places.
    pub chunks_from-batch :
        (c i m : ℕ)
        → (c + i + m) * e.total < 2 ^ 64
        → chunks_from (c + i) m ≡ batch (packet_from c) (i * e.total) (m * e.total)
    chunks_from-batch c i zero small =
        ap (batch (packet_from c) (i * e.total)) {x = 0} {y = 0 * e.total} (omega arith)
    chunks_from-batch c i (suc m) small =
        let here = chunk_small e.total (c + i) (suc m) 0 (omega arith) small in
        let hc : c + i < 2 ^ 64 =
          omega (
            arith,
            small,
            le-mul (c + i + suc m) e.total (omega (arith, v.some_parts, v.enough)),
          ) in
        let len = length-sent_packets (c + i) hc in
        ap₂ (λ xs ys. xs ++ ys)
          (sym (batch-get_or (sent_packets e src (c + i)) empty_packet)
            ∙ ap (batch (λ k. sent_packet e src (c + i) k) 0) len
            ∙ batch-eq (λ k. sent_packet e src (c + i) k) (packet_from c) 0 (i * e.total) e.total
                (λ r lt.
                  ap (sent_packet e src (c + i)) {x = 0 + r} {y = r} (omega arith)
                  ∙ sym (packet_from-round c r i lt)))
          (ap (λ k. chunks_from k m) {x = c + i + 1} {y = c + (i + 1)} (omega arith)
            ∙ chunks_from-batch c (i + 1) m (
                subst (λ k. k * e.total < 2 ^ 64) {x = c + i + suc m} {y = c + (i + 1) + m}
                  (omega arith) small)
            ∙ ap (λ k. batch (packet_from c) k (m * e.total)) {x = (i + 1) * e.total}
                {y = i * e.total + e.total} (grind arith))
        ∙ sym (batch-append (packet_from c) (i * e.total) e.total (m * e.total))
        ∙ ap (batch (packet_from c) (i * e.total)) {x = e.total + m * e.total} {y = suc m * e.total}
            (grind arith)

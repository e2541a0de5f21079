-- ===== src/Tests/Stream.antt =====
-- Two chunks of a stream, one packet of each coming late.
use fec.Prelude.{
  ℕ, ◌≡◌, refl, ap, ◌∙◌, some, List, [], ◌∷◌, arith, get_elem?, map, replicate, take, drop, copy,
  copy_at, slice, le_bytes,
}
use fec.Codec.Packet.{PacketV2, new_packet_v2}
use fec.Codec.Packet
use fec.Codec.Chunk.{new_chunk, marshal, fill_shards, first_shard}
use fec.Codec.Encoder.Encode.{encode, encode_packets}
use fec.Codec.Decoder.{Decoder}
use fec.Codec.Decoder.Run.{run}
use fec.Codec.Recovery.Packets.{packet_of, packets_of}
use fec.Codec.Recovery.Made.{decoder_of}
use fec.Codec.Recovery.Stream.{Batch, sent_packets, in_turn, data_from}
use fec.Codec.Recovery.Stream.Delivery.{IsMade, AreSentBatches, run-data_from}
use fec.Tests.Code.{no_sha1, no_sha1_len, sum_encode, plus}
use fec.Tests.Recovery.{coder, coder-IsCoder, three_bytes, first_part_of}
use fec.Tests.Safety.{data_of, new_sum_code, new_sum_code-decoder}

abbrev shards_of : ℕ → List (List ℕ)
shards_of n = first_part_of n ∷ replicate 1024 0 ∷ plus (first_part_of n) (replicate 1024 0) ∷ []

encoded_one : encode coder 1 three_bytes ≡ some (2, packets_of 1 0 (shards_of 1))
unfolding encode new_chunk new_packet_v2 marshal fill_shards first_shard encode_packets take drop
    replicate copy copy_at slice le_bytes sum_encode plus
encoded_one = refl

encoded_two : encode coder 2 three_bytes ≡ some (3, packets_of 2 0 (shards_of 2))
unfolding encode new_chunk new_packet_v2 marshal fill_shards first_shard encode_packets take drop
    replicate copy copy_at slice le_bytes sum_encode plus
encoded_two = refl

sent_one : sent_packets coder data_of 1 ≡ packets_of 1 0 (shards_of 1)
unfolding sent_packets
sent_one = rw (sent_packets, encoded_one) refl

sent_two : sent_packets coder data_of 2 ≡ packets_of 2 0 (shards_of 2)
unfolding sent_packets
sent_two = rw (sent_packets, encoded_two) refl

abbrev pub whole : ℕ → PacketV2
whole n = packet_of n 0 (first_part_of n)

abbrev pub rest : ℕ → PacketV2
rest n = packet_of n 1 (replicate 1024 0)

abbrev pub sum : ℕ → PacketV2
sum n = packet_of n 2 (plus (first_part_of n) (replicate 1024 0))

abbrev pub two_batches : List Batch
two_batches =
    record { first = sum 1 ∷ whole 1 ∷ []; late = sum 1 ∷ [] }
    ∷ record { first = rest 2 ∷ sum 2 ∷ []; late = rest 1 ∷ whole 2 ∷ [] }
    ∷ []

pub one-IsMade :
    (q : PacketV2)
    → get_elem? (packets_of 1 0 (shards_of 1)) q.psn ≡ some q
    → IsMade no_sha1 no_sha1_len coder data_of 1 q
one-IsMade q e = ap (λ ps. get_elem? ps q.psn) sent_one ∙ e

two-IsMade :
    (q : PacketV2)
    → get_elem? (packets_of 2 0 (shards_of 2)) q.psn ≡ some q
    → IsMade no_sha1 no_sha1_len coder data_of 2 q
two-IsMade q e = ap (λ ps. get_elem? ps q.psn) sent_two ∙ e

pub two_batches-AreSentBatches : AreSentBatches no_sha1 no_sha1_len coder data_of 1 two_batches
two_batches-AreSentBatches = (
  omega arith,
  record {
    ours = (one-IsMade (sum 1) refl, (one-IsMade (whole 1) refl, tt));
    distinct = ((omega arith, tt), (tt, tt));
    enough = refl;
    behind = ((omega arith, one-IsMade (sum 1) refl), tt);
  },
  (
    omega arith,
    record {
      ours = (two-IsMade (rest 2) refl, (two-IsMade (sum 2) refl, tt));
      distinct = ((omega arith, tt), (tt, tt));
      enough = refl;
      behind =
          ((omega arith, one-IsMade (rest 1) refl), ((omega arith, two-IsMade (whole 2) refl), tt));
    },
    tt,
  ),
)

run-data_from_example :
    (b : Decoder) × (run no_sha1
        (decoder_of coder 4 2)
        (map (Packet.marshal no_sha1) (in_turn two_batches))
      ≡ some (data_from data_of 1 2, b))
run-data_from_example =
    run-data_from no_sha1 no_sha1_len coder data_of coder-IsCoder (λ n. omega arith) new_sum_code 4
      2 (decoder_of coder 4 2) two_batches refl (omega arith) (omega arith) (omega arith)
      new_sum_code-decoder two_batches-AreSentBatches (omega arith)

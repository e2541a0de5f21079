-- ===== src/Tests/Streams.antt =====
-- Bytes, packets and chunks that go through the goroutines of the codec, and the ring.
use fec.Prelude.{ℕ, ◌≡◌, refl, none, some, List, [], ◌∷◌, arith, replicate}
use fec.Codec.Packet.{PacketV2}
use fec.Codec.Encoder.{Aggregator}
use fec.Codec.Encoder
use fec.Codec.Encoder.Aggregate.{Event, incoming, timer, aggregate, aggregate_all}
use fec.Codec.Encoder.Aggregate.Stream.{Cuts, IsFull, IsAtMost, aggregate_lem, aggregate_all_lem}
use fec.Codec.Encoder.Dispatch
use fec.Codec.Encoder.Dispatch.Place.{packet_at}
use fec.Codec.Encoder.Dispatch.Interleave.{
  Filled, batch, marshalled, emptied, dispatch_all-interleaves,
}
use fec.Tests.Code.{no_sha1}

-- Four bytes of room, one of them taken.
abbrev aggregator : Aggregator
aggregator = record { buf = 1 ∷ []; cap = 4 }

aggregate_lem_example :
    (sent : List (List ℕ)) × (b : Aggregator) × (aggregate aggregator
        (incoming (2 ∷ 3 ∷ 4 ∷ 5 ∷ 6 ∷ []))
      ≡ some (sent, b))
    × Cuts (IsFull 4) aggregator (2 ∷ 3 ∷ 4 ∷ 5 ∷ 6 ∷ []) sent b
aggregate_lem_example = aggregate_lem aggregator (2 ∷ 3 ∷ 4 ∷ 5 ∷ 6 ∷ []) (omega arith)

abbrev messages : List Event
messages = incoming (2 ∷ 3 ∷ []) ∷ timer ∷ incoming (4 ∷ 5 ∷ 6 ∷ 7 ∷ 8 ∷ []) ∷ []

aggregate_all_lem_example :
    (sent : List (List ℕ)) × (b : Aggregator) × (aggregate_all aggregator messages ≡ some (sent, b))
    × Cuts (IsAtMost 4) aggregator (2 ∷ 3 ∷ 4 ∷ 5 ∷ 6 ∷ 7 ∷ 8 ∷ []) sent b
aggregate_all_lem_example = aggregate_all_lem messages aggregator (omega arith)

-- Two chunks of three packets.
abbrev interleaver : Encoder.Dispatcher
interleaver = record { chunks = 2; per_chunk = 3; count = 0; slots = replicate 6 none }

abbrev numbered_packet : ℕ → PacketV2
numbered_packet i = record {
  version = 2;
  kind = 1;
  psn = i;
  csn = 1;
  addr = 1;
  payload = replicate 1024 i;
  hash = [];
}

interleaver-Filled : Filled no_sha1 numbered_packet interleaver 0
unfolding replicate
interleaver-Filled = record {
  some_chunks = omega arith;
  some_packets = omega arith;
  fits = omega arith;
  counted = refl;
  places = refl;
  taken = λ i lt. absurd (omega arith);
}

dispatch_all-interleaves_example :
    Dispatch.dispatch_all no_sha1 interleaver (batch numbered_packet 0 6)
    ≡ some (marshalled no_sha1 numbered_packet (packet_at 2 3) 0 6, emptied interleaver)
dispatch_all-interleaves_example =
    dispatch_all-interleaves no_sha1 numbered_packet interleaver interleaver-Filled

-- The packets of place 0 to 5.
packet_at_example : packet_at 2 3 1 ≡ 3
unfolding packet_at
packet_at_example = refl

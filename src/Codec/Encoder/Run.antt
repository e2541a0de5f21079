-- ===== src/Codec/Encoder/Run.antt =====
-- The goroutines that `Encoder.Encode` of src/codec/encoder.go starts, one behind the other: each
-- reads the queue that the one before it fills. `none` is a panic of one of them.
use fec.Prelude.{ℕ, Option, none, some, List, [], ◌∷◌, ◌++◌}
use fec.Codec.Packet.{PacketV2}
use fec.Codec.Encoder.{Coder, Encoder}
use fec.Codec.Encoder.Aggregate.{Event, aggregate_all}
use fec.Codec.Encoder.Encode.{first_csn, encode}
use fec.Codec.Encoder.Dispatch.{dispatch_all}

-- The goroutine `encode` over a sequence of chunks: the next number, and the packets.
unfoldable pub encode_all : Coder → ℕ → List (List ℕ) → Option (ℕ × List PacketV2)
encode_all e csn [] = some (csn, [])
encode_all e csn (src ∷ queue) = elim (encode e csn src) [
  | none ↦ none
  | some (next, packets) ↦ elim (encode_all e next queue) [
    | none ↦ none
    | some (last, later) ↦ some (last, packets ++ later)
  ]
]

-- From the messages of `aggregateQueue` to the datagrams of `resultQueue`.
unfoldable pub run : (List ℕ → List ℕ) → Encoder → List Event → Option (List (List ℕ) × Encoder)
run sha1 e events = elim (aggregate_all e.aggregator events) [
  | none ↦ none
  | some (chunks, aggregator) ↦ elim (encode_all e.coder first_csn chunks) [
    | none ↦ none
    | some (csn, packets) ↦ elim (dispatch_all sha1 e.dispatcher packets) [
      | none ↦ none
      | some (sent, dispatcher) ↦
          some (sent, record e { aggregator = aggregator; csn = csn; dispatcher = dispatcher })
    ]
  ]
]

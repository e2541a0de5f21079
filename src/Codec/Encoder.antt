-- ===== src/Codec/Encoder.antt =====
-- src/codec/encoder.go: three goroutines in a row, which cut a stream of bytes into chunks
-- (`Aggregate`), each chunk into packets (`Encode`), and spread the packets of several chunks
-- (`Dispatch`). A goroutine is a handler of one message: the new state, and what it sends, in
-- order. When the context is done a goroutine stops in the middle of what it sends, and nothing
-- reads its state any more.
pub mod Aggregate
pub mod Encode
pub mod Dispatch
pub mod Run
use fec.Prelude.{
  ℕ, ◌+◌, ◌-◌, ◌*◌, ◌^◌, Bool, ◌&&◌, leb, Option, none, some, List, [], if◌then◌else◌, ltb, ◌==◌,
  replicate, mul64, sub64,
}
use fec.Codec.Packet.{PacketV2, packet_data_size, packet_size}
use fec.Codec.ReedSolomon.{ReedSolomon}
use fec.Codec.Chunk.{chunk_header_size}

-- `aggregator`: the bytes so far, and the capacity of the buffer.
pub record Aggregator : Type 0 where
  pub buf : List ℕ
  pub cap : ℕ

-- `encoder`: the Reed-Solomon code and its numbers of shards.
pub record Coder : Type 0 where
  pub rs : ReedSolomon
  pub total : ℕ
  pub parts : ℕ

-- `dispatcher`, with the number of packets in a chunk.
pub record Dispatcher : Type 0 where
  pub chunks : ℕ
  pub per_chunk : ℕ
  pub count : ℕ
  pub slots : List (Option PacketV2)

pub record Encoder : Type 0 where
  pub aggregator : Aggregator
  pub coder : Coder
  pub csn : ℕ
  pub dispatcher : Dispatcher

pub data NewError : Type 0 where
  zero_data few_parts no_code : NewError

pub data New (A : Type 0) : Type 0 where
  made : A → New A
  failed : NewError → New A
  panics : New A

-- How many bytes `make` can give at most on a 64-bit machine; that the machine has them is taken
-- for granted.
abbrev pub max_alloc : ℕ
max_alloc = 2 ^ 48

-- Whether `make` of `n` elements of `width` bytes does not panic.
unfoldable pub makes : ℕ → ℕ → Bool
makes width n = leb (width * n) max_alloc

unfoldable pub incoming_size : ℕ → ℕ
incoming_size parts = sub64 (mul64 packet_data_size parts) chunk_header_size

abbrev pub outgoing_size : ℕ
outgoing_size = packet_size

-- `reedsolomon.New` is the argument `new_rs`, over the numbers of data shards and of all shards.
unfoldable pub new_encoder : (ℕ → ℕ → Option ReedSolomon) → ℕ → ℕ → ℕ → New Encoder
new_encoder new_rs dispatcher_size parts total =
    if parts == 0
    then failed zero_data
    else if ltb total 2
    then failed few_parts
    else elim (new_rs parts total) [
      | none ↦ failed no_code
      | some rs ↦
          if makes 1 (incoming_size parts) && makes 8 (mul64 total dispatcher_size)
          then made (record {
            aggregator = record { buf = []; cap = incoming_size parts };
            coder = record { rs = rs; total = total; parts = parts };
            csn = 0;
            dispatcher = record {
              chunks = dispatcher_size;
              per_chunk = total;
              count = 0;
              slots = replicate (mul64 total dispatcher_size) none;
            };
          })
          else panics
    ]

-- ===== src/Codec/Decoder.antt =====
-- src/codec/decoder.go: four goroutines in a row, which read packets (`Decode`), gather the packets
-- of a chunk (`Assembly`), restore the chunk (`Restore`) and put the chunks in order (`Dispatch`).
-- A goroutine is a handler of one message, as in the encoder. Log lines are left out; the counters
-- `ok` and `err` are kept.
pub mod Decode
pub mod Assembly
pub mod Restore
pub mod Dispatch
pub mod Run
use fec.Prelude.{
  ℕ, not, ◌&&◌, Option, none, some, List, if◌then◌else◌, ltb, ◌==◌, replicate, mul64, sub64,
}
use fec.Codec.Packet.{PacketV2, packet_data_size, packet_size}
use fec.Codec.ReedSolomon.{ReedSolomon}
use fec.Codec.Chunk.{Chunk, chunk_header_size}
use fec.Codec.Encoder.{NewError, zero_data, few_parts, no_code, New, made, failed, panics, makes}

-- `assembler`, with the numbers of shards that its goroutine takes from `restorer`. Line `n` of the
-- table has `total` places in `packets`, from `n * total` on.
pub record Assembler : Type 0 where
  pub parts : ℕ
  pub total : ℕ
  pub size : ℕ
  pub lines : ℕ
  pub last : ℕ
  pub csn : List ℕ
  pub found : List ℕ
  pub packets : List (Option PacketV2)
  pub ok : ℕ
  pub err : ℕ

pub record Restorer : Type 0 where
  pub rs : ReedSolomon
  pub total : ℕ
  pub parts : ℕ
  pub ok : ℕ
  pub err : ℕ

pub record Dispatcher : Type 0 where
  pub size : ℕ
  pub first : ℕ
  pub last : ℕ
  pub awaiting : ℕ
  pub chunks : List (Option Chunk)
  pub ok : ℕ
  pub err : ℕ

pub record Decoder : Type 0 where
  pub assembler : Assembler
  pub restorer : Restorer
  pub dispatcher : Dispatcher

abbrev pub incoming_size : ℕ
incoming_size = packet_size

unfoldable pub outgoing_size : ℕ → ℕ
outgoing_size parts = sub64 (mul64 packet_data_size parts) chunk_header_size

-- `reedsolomon.New` is the argument `new_rs`, over the numbers of data shards and of all shards.
unfoldable pub new_decoder : (ℕ → ℕ → Option ReedSolomon) → ℕ → ℕ → ℕ → ℕ → New Decoder
new_decoder new_rs parts total assembler_lines dispatcher_size =
    if parts == 0
    then failed zero_data
    else if ltb total 2
    then failed few_parts
    else if not (makes 8 dispatcher_size)
    then panics
    else elim (new_rs parts total) [
      | none ↦ failed no_code
      | some rs ↦
          if makes 8 assembler_lines && makes 8 (mul64 assembler_lines total)
          then made (record {
            assembler = record {
              parts = parts;
              total = total;
              size = mul64 assembler_lines total;
              lines = assembler_lines;
              last = 0;
              csn = replicate assembler_lines 0;
              found = replicate assembler_lines 0;
              packets = replicate (mul64 assembler_lines total) none;
              ok = 0;
              err = 0;
            };
            restorer = record { rs = rs; total = total; parts = parts; ok = 0; err = 0 };
            dispatcher = record {
              size = dispatcher_size;
              first = 0;
              last = 0;
              awaiting = 1;
              chunks = replicate dispatcher_size none;
              ok = 0;
              err = 0;
            };
          })
          else panics
    ]

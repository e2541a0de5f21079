-- ===== src/Tests/Recovery.antt =====
-- A chunk of three bytes, in three packets, of which two come.
use fec.Prelude.{
  ℕ, ◌≡◌, refl, Option, none, some, List, [], ◌∷◌, arith, replicate, take, drop, copy, copy_at,
  slice, le_bytes, All,
}
use fec.Codec.Packet.{PacketV2, new_packet_v2, packet_data_size}
use fec.Codec.Chunk.{Chunk, chunk_bytes, new_chunk, marshal, fill_shards, first_shard}
use fec.Codec.Encoder.{Coder}
use fec.Codec.Encoder.Encode.{encode, encode_packets}
use fec.Codec.Decoder.{Assembler}
use fec.Codec.Decoder.Assembly.{assemble_all}
use fec.Codec.Decoder.Assembly.Geometry.{Shape}
use fec.Codec.Decoder.Assembly.Collect.{Done, Ready, place, assemble_all_lem}
use fec.Codec.Decoder.Restore.{restore}
use fec.Codec.Packet
use fec.Codec.Decoder.Decode.{decode_all}
use fec.Prelude.{map}
use fec.Codec.Recovery.Packets.{packet_of, packets_of}
use fec.Codec.Recovery.Restored.{restorer_of, IsCoder, restore-encode}
use fec.Codec.Recovery.Wire.{Decodes, decode-encode, restore-decode_all}
use fec.Tests.Code.{no_sha1, no_sha1_len, sum_code, sum_code-IsCode, sum_encode, plus}

abbrev pub coder : Coder
coder = record { rs = sum_code; total = 3; parts = 2 }

pub coder-IsCoder : IsCoder coder
coder-IsCoder = record {
  code = sum_code-IsCode;
  some_parts = omega arith;
  enough = omega arith;
  small = omega arith;
}

abbrev pub three_bytes : List ℕ
three_bytes = 7 ∷ 8 ∷ 9 ∷ []

-- The first shard of chunk `csn`, for a small number.
abbrev pub first_part_of : ℕ → List ℕ
first_part_of csn =
    1
    ∷ 1
    ∷ 0
    ∷ 0
    ∷ 0
    ∷ 0
    ∷ csn
    ∷ 0
    ∷ 0
    ∷ 0
    ∷ 0
    ∷ 0
    ∷ 0
    ∷ 0
    ∷ 3
    ∷ 0
    ∷ 0
    ∷ 0
    ∷ 0
    ∷ 0
    ∷ 0
    ∷ 0
    ∷ 7
    ∷ 8
    ∷ 9
    ∷ replicate 999 0

abbrev pub first_part : List ℕ
first_part = first_part_of 5

abbrev pub shards : List (List ℕ)
shards = first_part ∷ replicate 1024 0 ∷ plus first_part (replicate 1024 0) ∷ []

pub encoded : encode coder 5 three_bytes ≡ some (6, packets_of 5 0 shards)
unfolding encode new_chunk new_packet_v2 marshal fill_shards first_shard encode_packets take drop
    replicate copy copy_at slice le_bytes sum_encode plus
encoded = refl

abbrev assembler : Assembler
assembler = record {
  parts = 2;
  total = 3;
  size = 12;
  lines = 4;
  last = 4;
  csn = 0 ∷ 0 ∷ 0 ∷ 0 ∷ [];
  found = 0 ∷ 0 ∷ 0 ∷ 0 ∷ [];
  packets = replicate 12 none;
  ok = 0;
  err = 0;
}

assembler-Shape : Shape assembler
unfolding replicate
assembler-Shape = record {
  some_lines = omega arith;
  some_packets = omega arith;
  sized = refl;
  csn_len = refl;
  found_len = refl;
  packets_len = refl;
  parts_u64 = omega arith;
}

assembler-Ready : Ready assembler 5
unfolding replicate slice take drop
assembler-Ready = record { shape = assembler-Shape; free = refl; empty = refl; fresh = omega arith }

-- Packets 2 and 0, in this order.
abbrev arrived : List PacketV2
arrived = packet_of 5 2 (plus first_part (replicate 1024 0)) ∷ packet_of 5 0 first_part ∷ []

-- Packet 0 is lost.
restore-encode_example :
    (chunk : Chunk) × (restore (restorer_of coder 3 1) (
        none
        ∷ some (packet_of 5 1 (replicate 1024 0))
        ∷ some (packet_of 5 2 (plus first_part (replicate 1024 0)))
        ∷ [])
      ≡ some (chunk ∷ [], restorer_of coder 4 1))
    × (chunk.csn ≡ 5)
    × (chunk_bytes chunk ≡ three_bytes)
restore-encode_example =
    restore-encode coder 5 6 3 1 three_bytes (packets_of 5 0 shards)
      (none
        ∷ some (packet_of 5 1 (replicate 1024 0))
        ∷ some (packet_of 5 2 (plus first_part (replicate 1024 0)))
        ∷ [])
      coder-IsCoder (omega arith) (omega arith) encoded (tt, ((refl, refl), ((refl, refl), tt)))
      (omega arith)

assemble_all_lem_example :
    (b : Assembler) × (assemble_all assembler arrived
      ≡ some (place arrived (replicate 3 none) ∷ [], b))
    × Done assembler b 5
assemble_all_lem_example =
    assemble_all_lem assembler 5 arrived assembler-Ready
      (
        record { same = refl; placed = record { psn_in = omega arith; no_wrap = omega arith } },
        (
          record { same = refl; placed = record { psn_in = omega arith; no_wrap = omega arith } },
          tt,
        ),
      )
      (omega arith) refl

decode-encode_example : All (Decodes no_sha1 no_sha1_len) (packets_of 5 0 shards)
decode-encode_example =
    decode-encode no_sha1 no_sha1_len coder 5 6 three_bytes (packets_of 5 0 shards) coder-IsCoder
      (omega arith) (omega arith) encoded

-- The packets 2 and 0 as they go over the wire, and back.
restore-decode_all_example :
    (got : List (Option PacketV2)) × (b : Assembler) × (chunk : Chunk) × (assemble_all assembler
        (decode_all no_sha1 (map (Packet.marshal no_sha1) arrived))
      ≡ some (got ∷ [], b))
    × Done assembler b 5
    × (restore (restorer_of coder 0 0) got ≡ some (chunk ∷ [], restorer_of coder 1 0))
    × (chunk.csn ≡ 5)
    × (chunk_bytes chunk ≡ three_bytes)
restore-decode_all_example =
    restore-decode_all no_sha1 no_sha1_len coder 5 6 0 0 three_bytes (packets_of 5 0 shards) arrived
      assembler coder-IsCoder (omega arith) (omega arith) encoded assembler-Ready refl refl
      (omega arith) (refl, (refl, tt)) ((omega arith, tt), (tt, tt)) refl

-- ===== src/Tests/Wire.antt =====
-- A packet, and a chunk of three bytes.
use fec.Prelude.{
  ℕ, ◌≡◌, ◌↔◌, refl, true, some, List, [], ◌∷◌, max, arith, length, length-replicate, replicate,
  take, slice, All, if◌then◌else◌, ◌==◌,
}
use fec.Codec.Packet.{PacketV2, marshal, unmarshal, hash, packet_size, packet_data_size}
use fec.Codec.Packet.RoundTrip.{IsPacket, packet_hash, unmarshal-marshal, unmarshal_accepts}
use fec.Codec.PacketV3
use fec.Codec.PacketV3.{PacketV3}
use fec.Codec.PacketV3.RoundTrip.{packet_hash_v3, unmarshal-marshal_v3}
use fec.Codec.ReedSolomon.{HasSize}
use fec.Codec.Chunk
use fec.Codec.Chunk.{Chunk}
use fec.Codec.Chunk.RoundTrip.{IsChunk, unmarshal-marshal_chunk}
use fec.Codec.Encoder.Encode.{addr_fec}
use fec.Codec.Decoder.Decode.{decode, empty_packet}
use fec.Codec.Recovery.Wire.{decode-marshal}
use fec.Tests.Code.{no_sha1, no_sha1_len, sum_code, sum_code-IsCode}

abbrev packet : PacketV2
packet = record {
  version = 2;
  kind = 1;
  psn = 300;
  csn = 70000;
  addr = 1;
  payload = replicate 1024 17;
  hash = [];
}

packet-IsPacket : IsPacket packet
packet-IsPacket = record {
  psn_u32 = omega arith;
  csn_u64 = omega arith;
  addr_u64 = omega arith;
  payload_len = length-replicate {A = ℕ} 1024 17;
}

unmarshal-marshal_example :
    unmarshal no_sha1 empty_packet (marshal no_sha1 packet)
    ≡ (true, record packet { hash = packet_hash no_sha1 no_sha1_len packet })
unmarshal-marshal_example =
    unmarshal-marshal no_sha1 no_sha1_len packet empty_packet packet-IsPacket

unmarshal_accepts_example : ((unmarshal no_sha1 empty_packet (replicate 1056 0)).0 ≡ true) ↔ (
    (length (replicate {A = ℕ} 1056 0) ≡ packet_size)
    × (slice (replicate 1056 0) 1048 1056 ≡ hash no_sha1 (slice (replicate 1056 0) 0 1048)))
unmarshal_accepts_example = unmarshal_accepts no_sha1 no_sha1_len empty_packet (replicate 1056 0)

decode-marshal_example : decode no_sha1 (marshal no_sha1 packet) ≡ (
    if 1 == addr_fec
    then record packet { hash = packet_hash no_sha1 no_sha1_len packet } ∷ []
    else [])
decode-marshal_example = decode-marshal no_sha1 no_sha1_len packet packet-IsPacket

abbrev packet_v3 : PacketV3
packet_v3 = record {
  version = 3;
  kind = 1;
  psn = 300;
  csn = 70000;
  addr = 1;
  payload = replicate 1024 17;
  hash = [];
}

unmarshal-marshal_v3_example :
    PacketV3.unmarshal no_sha1 packet_v3 (PacketV3.marshal no_sha1 packet_v3)
    ≡ (true, record packet_v3 { hash = packet_hash_v3 no_sha1 no_sha1_len packet_v3 })
unmarshal-marshal_v3_example =
    unmarshal-marshal_v3 no_sha1 no_sha1_len packet_v3 packet_v3 (record {
      psn_u32 = omega arith;
      csn_u64 = omega arith;
      addr_u64 = omega arith;
      payload_len = length-replicate {A = ℕ} 1024 17;
    })

abbrev chunk : Chunk
chunk = record { parts = 2; version = 1; kind = 1; csn = 5; size = 3; payload = 7 ∷ 8 ∷ 9 ∷ [] }

chunk-IsChunk : IsChunk chunk
chunk-IsChunk = record {
  some_parts = omega arith;
  csn_u64 = omega arith;
  sized = refl;
  fits = omega arith;
  size_int = omega arith;
}

unmarshal-marshal_chunk_example :
    (shards : List (List ℕ)) × (Chunk.marshal sum_code 3 chunk ≡ some shards)
    × (length shards ≡ max 3 2)
    × All (HasSize packet_data_size) shards
    × (Chunk.unmarshal chunk (take 2 shards) ≡ some (true, chunk))
unmarshal-marshal_chunk_example =
    unmarshal-marshal_chunk sum_code 2 3 3 chunk chunk sum_code-IsCode chunk-IsChunk

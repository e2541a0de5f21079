-- ===== src/Codec/Encoder/Encode.antt =====
-- `encode` of src/codec/encoder.go.
use fec.Prelude.{ℕ, ◌+◌, Option, none, some, List, [], ◌∷◌, if◌then◌else◌, ◌==◌, length, u32, add64}
use fec.Codec.Packet.{PacketV2, new_packet_v2}
use fec.Codec.Chunk.{new_chunk, marshal}
use fec.Codec.Encoder.{Coder}

abbrev pub kind_data : ℕ
kind_data = 1

abbrev pub addr_fec : ℕ
addr_fec = 1

-- `for i := range data`, from shard `i` on: the packets that go to `dispatcherQueue`.
unfoldable pub encode_packets : ℕ → ℕ → List (List ℕ) → List PacketV2
encode_packets csn i [] = []
encode_packets csn i (shard ∷ shards) =
    let kind = if csn == 1 then 2 else 1 in
    let (packet, rem) = new_packet_v2 kind csn (u32 i) addr_fec shard in
    let rest = encode_packets csn (i + 1) shards in if length rem == 0 then packet ∷ rest else rest

-- The first chunk has the number 1.
abbrev pub first_csn : ℕ
first_csn = 1

-- One chunk of data: the next chunk number, and the packets. `none` is a panic.
unfoldable pub encode : Coder → ℕ → List ℕ → Option (ℕ × List PacketV2)
encode e csn src =
    let (chunk, rem) = new_chunk e.parts csn kind_data src in
    if length rem == 0
    then elim (marshal e.rs e.total chunk) [
      | none ↦ none
      | some shards ↦ elim (e.rs.encode shards) [
        | none ↦ some (csn, [])
        | some coded ↦ some (add64 csn 1, encode_packets csn 0 coded)
      ]
    ]
    else some (csn, [])

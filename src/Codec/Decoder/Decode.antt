-- ===== src/Codec/Decoder/Decode.antt =====
-- `decode` of src/codec/decoder.go: what goes on to `assemblyQueue`.
use fec.Prelude.{ℕ, List, [], ◌∷◌, ◌++◌, if◌then◌else◌, ◌==◌, length, replicate}
use fec.Codec.Packet.{PacketV2, packet_size, packet_hash_size, unmarshal}
use fec.Codec.Encoder.Encode.{addr_fec}

-- `new(PacketV2)`.
abbrev pub empty_packet : PacketV2
empty_packet = record {
  version = 0;
  kind = 0;
  psn = 0;
  csn = 0;
  addr = 0;
  payload = [];
  hash = replicate packet_hash_size 0;
}

unfoldable pub decode : (List ℕ → List ℕ) → List ℕ → List PacketV2
decode sha1 input =
    let (valid, packet) = unmarshal sha1 empty_packet input in
    if length input == packet_size
    then if valid then if packet.addr == addr_fec then packet ∷ [] else [] else []
    else []

-- The goroutine over a sequence of datagrams.
unfoldable pub decode_all : (List ℕ → List ℕ) → List (List ℕ) → List PacketV2
decode_all sha1 [] = []
decode_all sha1 (src ∷ inputs) = decode sha1 src ++ decode_all sha1 inputs

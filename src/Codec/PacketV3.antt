-- ===== src/Codec/PacketV3.antt =====
-- src/codec/packet_v3.go: the layout of packet_v2.go under version 3.
pub mod RoundTrip
use fec.Prelude.{
  ℕ, ◌+◌, Bool, false, Option, none, some, List, [], if◌then◌else◌, ◌==◌, length, get_or, drop,
  replicate, min, copy, slice, le_value, bytes_eq,
}
use fec.Codec.Packet.{
  packet_header_size, packet_data_size, packet_hash_size, packet_size, hash, marshal_fields,
}

pub record PacketV3 : Type 0 where
  pub version : ℕ
  pub kind : ℕ
  pub psn : ℕ
  pub csn : ℕ
  pub addr : ℕ
  pub payload : List ℕ
  pub hash : List ℕ

-- The packet, and what of the data did not fit (nothing, if the list is empty).
unfoldable pub new_packet_v3 : ℕ → ℕ → ℕ → ℕ → List ℕ → PacketV3 × List ℕ
new_packet_v3 kind csn psn addr payload =
    let packet : PacketV3 = record {
      version = 3;
      kind = kind;
      psn = psn;
      csn = csn;
      addr = addr;
      payload = copy (replicate packet_data_size 0) payload;
      hash = replicate packet_hash_size 0;
    } in
    let rest = drop (min packet_data_size (length payload)) payload in
    if length rest == 0 then (packet, []) else (packet, rest)

-- `Data`, also of a nil packet.
unfoldable pub packet_v3_bytes : Option PacketV3 → List ℕ
packet_v3_bytes none = []
packet_v3_bytes (some p) = p.payload

module _ (sha1 : List ℕ → List ℕ) where
  unfoldable pub marshal : PacketV3 → List ℕ
  unfolding marshal_fields
  marshal p = marshal_fields sha1 p.version p.kind p.psn p.csn p.addr p.payload

  -- The answer, and the packet as the call leaves it.
  unfoldable pub unmarshal : PacketV3 → List ℕ → Bool × PacketV3
  unmarshal p payload =
      let p' : PacketV3 = record {
        version = get_or payload 0 0;
        kind = get_or payload 1 0;
        psn = le_value (slice payload 4 8);
        csn = le_value (slice payload 8 16);
        addr = le_value (slice payload 16 24);
        payload =
            copy (replicate packet_data_size 0)
              (slice payload packet_header_size (packet_header_size + packet_data_size));
        hash = slice payload (packet_header_size + packet_data_size) packet_size;
      } in
      if length payload == packet_size
      then (
        bytes_eq p'.hash (hash sha1 (slice payload 0 (packet_header_size + packet_data_size))),
        p',
      )
      else (false, p)

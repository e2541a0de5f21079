-- ===== src/Codec/Packet.antt =====
-- src/codec/packet_v2.go: the packet that goes over the wire. `crypto/sha1` is the parameter
-- `sha1`.
pub mod Layout
pub mod Slices
pub mod RoundTrip
use fec.Prelude.{
  ℕ, ◌+◌, Bool, false, Option, none, some, List, [], ◌∷◌, if◌then◌else◌, ◌==◌, length, get_or, set,
  take, drop, replicate, min, copy, slice, copy_at, le_bytes, le_value, bytes_eq,
}

abbrev pub packet_header_size : ℕ
packet_header_size = 24

abbrev pub packet_data_size : ℕ
packet_data_size = 1024

abbrev pub packet_hash_size : ℕ
packet_hash_size = 8

abbrev pub packet_size : ℕ
packet_size = packet_header_size + packet_data_size + packet_hash_size

pub record PacketV2 : Type 0 where
  pub version : ℕ
  pub kind : ℕ
  pub psn : ℕ
  pub csn : ℕ
  pub addr : ℕ
  pub payload : List ℕ
  pub hash : List ℕ

-- The packet, and what of the data did not fit (nothing, if the list is empty).
unfoldable pub new_packet_v2 : ℕ → ℕ → ℕ → ℕ → List ℕ → PacketV2 × List ℕ
new_packet_v2 kind csn psn addr payload =
    let packet : PacketV2 = record {
      version = 2;
      kind = kind;
      psn = psn;
      csn = csn;
      addr = addr;
      payload = copy (replicate packet_data_size 0) payload;
      hash = replicate packet_hash_size 0;
    } in
    let rest = drop (min packet_data_size (length payload)) payload in
    if length rest == 0 then (packet, []) else (packet, rest)

-- `Data`, also of a nil packet.
unfoldable pub packet_bytes : Option PacketV2 → List ℕ
packet_bytes none = []
packet_bytes (some p) = p.payload

module _ (sha1 : List ℕ → List ℕ) where
  unfoldable pub hash : List ℕ → List ℕ
  hash payload = take packet_hash_size (sha1 payload)

  -- The buffer that `Marshal` fills, from the fields.
  unfoldable pub marshal_fields : ℕ → ℕ → ℕ → ℕ → ℕ → List ℕ → List ℕ
  marshal_fields version kind psn csn addr payload =
      let b = set (set (replicate packet_size 0) 0 version) 1 kind in
      let b = copy_at b 4 8 (le_bytes 4 psn) in
      let b = copy_at b 8 16 (le_bytes 8 csn) in
      let b = copy_at b 16 24 (le_bytes 8 addr) in
      let b = copy_at b packet_header_size (packet_header_size + packet_data_size) payload in
      let h = hash (slice b 0 (packet_header_size + packet_data_size)) in
      copy_at b (packet_header_size + packet_data_size) packet_size h

  unfoldable pub marshal : PacketV2 → List ℕ
  unfolding marshal_fields
  marshal p = marshal_fields p.version p.kind p.psn p.csn p.addr p.payload

  -- The answer, and the packet as the call leaves it.
  unfoldable pub unmarshal : PacketV2 → List ℕ → Bool × PacketV2
  unmarshal p payload =
      let p' : PacketV2 = record {
        version = get_or payload 0 0;
        kind = get_or payload 1 0;
        psn = le_value (slice payload 4 8);
        csn = le_value (slice payload 8 16);
        addr = le_value (slice payload 16 24);
        payload =
            copy (replicate packet_data_size 0)
              (slice payload packet_header_size (packet_header_size + packet_data_size));
        hash = slice payload (packet_header_size + packet_data_size) packet_size;
      } in
      if length payload == packet_size
      then (bytes_eq p'.hash (hash (slice payload 0 (packet_header_size + packet_data_size))), p')
      else (false, p)

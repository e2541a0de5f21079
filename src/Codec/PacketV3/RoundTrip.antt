-- ===== src/Codec/PacketV3/RoundTrip.antt =====
-- Reading back what `Marshal` of src/codec/packet_v3.go wrote.
use fec.Prelude.{
  ℕ, ◌^◌, ◌<◌, ◌≡◌, refl, sym, ◌∙◌, true, List, ◌++◌, length, length-replicate, replicate,
  copy_full, le_value-le_bytes, bytes_eq_refl,
}
use fec.Codec.Packet.{packet_data_size, hash}
use fec.Codec.PacketV3.{PacketV3, marshal, unmarshal}
use fec.Codec.Packet.Layout.{header, length-hash, marshal_fields-eq}
use fec.Codec.Packet.Slices.{
  slice-psn, slice-csn, slice-addr, slice-payload, slice-body, slice-hash, length-whole,
}

-- The fields fit their widths in the packet.
pub record IsPacketV3 (p : PacketV3) : Type 0 where
  pub psn_u32 : p.psn < 2 ^ 32
  pub csn_u64 : p.csn < 2 ^ 64
  pub addr_u64 : p.addr < 2 ^ 64
  pub payload_len : length p.payload ≡ packet_data_size

module _ (sha1 : List ℕ → List ℕ) (sha1_len : (x : List ℕ) → length (sha1 x) ≡ 20) where
  -- The hash that goes with the fields of a packet.
  abbrev pub packet_hash_v3 : PacketV3 → List ℕ
  packet_hash_v3 p = hash sha1 (header p.version p.kind p.psn p.csn p.addr ++ p.payload)

  -- `Unmarshal` accepts what `Marshal` wrote for a packet whose fields fit their widths, into any
  -- packet, and leaves the same packet with its hash filled in.
  pub unmarshal-marshal_v3 :
      (p q : PacketV3)
      → IsPacketV3 p
      → unmarshal sha1 q (marshal sha1 p) ≡ (true, record p { hash = packet_hash_v3 p })
  unfolding unmarshal marshal
  unmarshal-marshal_v3 p q v =
      rw
        (
          marshal_fields-eq sha1 sha1_len version kind psn csn addr payload v.payload_len,
          length-whole version kind psn csn addr payload h v.payload_len
              (length-hash sha1 sha1_len _),
          slice-psn version kind psn csn addr payload h,
          slice-csn version kind psn csn addr payload h,
          slice-addr version kind psn csn addr payload h,
          slice-payload version kind psn csn addr payload h v.payload_len,
          slice-body version kind psn csn addr payload h v.payload_len,
          slice-hash version kind psn csn addr payload h v.payload_len
              (length-hash sha1 sha1_len _),
          bytes_eq_refl h,
          le_value-le_bytes 4 psn v.psn_u32,
          le_value-le_bytes 8 csn v.csn_u64,
          le_value-le_bytes 8 addr v.addr_u64,
          copy_full (replicate packet_data_size 0) payload
              (v.payload_len ∙ sym (length-replicate {A = ℕ} packet_data_size 0)),
        )
        refl
    where
      open p use {version, kind, psn, csn, addr, payload}

      h : List ℕ
      h = packet_hash_v3 p

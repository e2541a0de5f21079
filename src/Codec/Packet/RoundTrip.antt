-- ===== src/Codec/Packet/RoundTrip.antt =====
-- Reading back what `Marshal` of src/codec/packet_v2.go wrote, and what `Unmarshal` accepts.
use fec.Prelude.{
  ℕ, suc, ◌^◌, ◌<◌, ◌≡◌, ◌↔◌, refl, sym, ◌∙◌, true, List, [], ◌∷◌, ◌++◌, arith, length,
  length-replicate, replicate, take, drop, copy_full, slice, le_value-le_bytes, bytes_eq_refl,
  bytes_eq→eq, ◌==◌, if◌then◌else◌, ==_false, min, drop-min, copy-replicate, length-copy,
}
use fec.Codec.Packet.{
  PacketV2, packet_size, packet_data_size, new_packet_v2, hash, marshal, unmarshal,
}
use fec.Codec.Packet.Layout.{header, length-hash, marshal_fields-eq}
use fec.Codec.Packet.Slices.{
  slice-psn, slice-csn, slice-addr, slice-payload, slice-body, slice-hash, length-whole,
}

-- The fields fit their widths in the packet.
pub record IsPacket (p : PacketV2) : Type 0 where
  pub psn_u32 : p.psn < 2 ^ 32
  pub csn_u64 : p.csn < 2 ^ 64
  pub addr_u64 : p.addr < 2 ^ 64
  pub payload_len : length p.payload ≡ packet_data_size

module _ (sha1 : List ℕ → List ℕ) (sha1_len : (x : List ℕ) → length (sha1 x) ≡ 20) where
  -- The hash that goes with the fields of a packet.
  abbrev pub packet_hash : PacketV2 → List ℕ
  packet_hash p = hash sha1 (header p.version p.kind p.psn p.csn p.addr ++ p.payload)

  pub length-marshal : (p : PacketV2) → IsPacket p → length (marshal sha1 p) ≡ packet_size
  unfolding marshal
  length-marshal p v =
      rw
        (marshal_fields-eq sha1 sha1_len p.version p.kind p.psn p.csn p.addr p.payload
          v.payload_len)
        (length-whole p.version p.kind p.psn p.csn p.addr p.payload (packet_hash p) v.payload_len
          (length-hash sha1 sha1_len _))

  -- `Unmarshal` accepts what `Marshal` wrote for a packet whose fields fit their widths, into any
  -- packet, and leaves the same packet with its hash filled in.
  pub unmarshal-marshal :
      (p q : PacketV2)
      → IsPacket p
      → unmarshal sha1 q (marshal sha1 p) ≡ (true, record p { hash = packet_hash p })
  unfolding unmarshal marshal
  unmarshal-marshal p q v =
      rw
        (
          marshal_fields-eq sha1 sha1_len version kind psn csn addr payload v.payload_len,
          length-whole version kind psn csn addr payload h v.payload_len
              (length-hash sha1 sha1_len _),
          slice-psn version kind psn csn addr payload h,
          slice-csn version kind psn csn addr payload h,
          slice-addr version kind psn csn addr payload h,
          slice-payload version kind psn csn addr payload h v.payload_len,
          slice-body version kind psn csn addr payload h v.payload_len,
          slice-hash version kind psn csn addr payload h v.payload_len
              (length-hash sha1 sha1_len _),
          bytes_eq_refl h,
          le_value-le_bytes 4 psn v.psn_u32,
          le_value-le_bytes 8 csn v.csn_u64,
          le_value-le_bytes 8 addr v.addr_u64,
          copy_full (replicate packet_data_size 0) payload
              (v.payload_len ∙ sym (length-replicate {A = ℕ} packet_data_size 0)),
        )
        refl
    where
      open p use {version, kind, psn, csn, addr, payload}

      h : List ℕ
      h = packet_hash p

  -- `Unmarshal` answers `true` exactly on the inputs of 1056 bytes whose last 8 bytes are the hash
  -- of the 1048 before them.
  pub unmarshal_accepts :
      (q : PacketV2) (input : List ℕ)
      → ((unmarshal sha1 q input).0 ≡ true)
        ↔ ((length input ≡ packet_size) × (slice input 1048 1056 ≡ hash sha1 (slice input 0 1048)))
  unfolding unmarshal
  unmarshal_accepts q input = (only_if, if_so)
    where
      only_if :
          (unmarshal sha1 q input).0 ≡ true
          → (length input ≡ packet_size) × (slice input 1048 1056 ≡ hash sha1 (slice input 0 1048))
      only_if h =
          ground (arith, bytes_eq→eq (slice input 1048 1056) (hash sha1 (slice input 0 1048)))

      if_so :
          (length input ≡ packet_size) × (slice input 1048 1056 ≡ hash sha1 (slice input 0 1048))
          → (unmarshal sha1 q input).0 ≡ true
      if_so (e, h) = rw (e, h) (bytes_eq_refl (hash sha1 (slice input 0 1048)))

whole_pair :
    (p : PacketV2) (rest : List ℕ)
    → ◌≡◌ {A = PacketV2 × List ℕ} (if length rest == 0 then (p, []) else (p, rest)) (p, rest)
whole_pair p [] = refl
whole_pair p (x ∷ rest) = rw (==_false (suc (length rest)) 0 (omega arith)) refl

-- A new packet has version 2 and no hash. Data of at most 1024 bytes leaves no remainder, stands at
-- the front of the packet's data and is padded with zeros; of longer data the packet takes the
-- first 1024 bytes and the remainder is handed back.
pub new_packet_v2_lem :
    (kind csn psn addr : ℕ) (src : List ℕ)
    → let (p, rest) = new_packet_v2 kind csn psn addr src in
      (take packet_data_size (src ++ replicate packet_data_size 0) ≡ p.payload)
      × (rest ≡ drop packet_data_size src)
      × (length p.payload ≡ packet_data_size)
      × (p.version ≡ 2)
      × (p.kind ≡ kind)
      × (p.csn ≡ csn)
      × (p.psn ≡ psn)
      × (p.addr ≡ addr)
unfolding new_packet_v2
new_packet_v2_lem kind csn psn addr src =
    rw (whole_pair _ (drop (min packet_data_size (length src)) src)) (
      sym (copy-replicate packet_data_size 0 src),
      drop-min packet_data_size src,
      length-copy (replicate packet_data_size 0) src ∙ length-replicate {A = ℕ} packet_data_size 0,
      refl,
      refl,
      refl,
      refl,
      refl,
    )

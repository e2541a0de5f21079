-- ===== src/Codec/Recovery/Wire.antt =====
-- The packets on the wire: from `Marshal` through `decode` of src/codec/decoder.go.
use fec.Prelude.{
  ℕ, ◌+◌, ◌^◌, ◌<◌, ◌≡◌, refl, some, List, [], ◌∷◌, arith, if◌then◌else◌, ◌==◌, length, All,
}
use mathlib.Core.Path.{subst}
use fec.Codec.Packet.{PacketV2, packet_data_size, marshal}
use fec.Codec.Packet.RoundTrip.{IsPacket, packet_hash, unmarshal-marshal, length-marshal}
use fec.Codec.ReedSolomon.{HasSize}
use fec.Codec.Encoder.{Coder}
use fec.Codec.Encoder.Encode.{addr_fec, encode}
use fec.Codec.Decoder.Decode.{empty_packet, decode}
use fec.Prelude.{
  zero, suc, ◌*◌, ◌≢◌, ◌≤◌, map, length-map, get_elem?, Option, none, refl, ap, ap₂, ◌++◌, ◌∙◌,
  add64,
}
use fec.Codec.Chunk.{Chunk, chunk_bytes}
use fec.Codec.Decoder.{Assembler}
use fec.Codec.Decoder.Decode.{decode_all}
use fec.Codec.Decoder.Assembly.{assemble_all}
use fec.Codec.Decoder.Assembly.Geometry.{le-mul}
use fec.Codec.Decoder.Assembly.Collect.{Done, Ready}
use fec.Codec.Decoder.Restore.{restore}
use fec.Codec.Recovery.Delivered.{IsOneOf, Distinct, restore-assemble_all}
use fec.Codec.Recovery.Packets.{packet_of, packets_of}
use fec.Codec.Recovery.Restored.{restorer_of, IsCoder, Fits, encode_lem}

module _ (sha1 : List ℕ → List ℕ) (sha1_len : (x : List ℕ) → length (sha1 x) ≡ 20) where
  -- `decode` of what `Marshal` wrote for a packet whose fields fit their widths: the packet goes
  -- on to the assembler, with its hash, if it is addressed to the codec, and is dropped otherwise.
  pub decode-marshal :
      (p : PacketV2)
      → IsPacket p
      → decode sha1 (marshal sha1 p)
        ≡ (if p.addr == addr_fec then record p { hash = packet_hash sha1 sha1_len p } ∷ [] else [])
  unfolding decode
  decode-marshal p v =
      rw (unmarshal-marshal sha1 sha1_len p empty_packet v, length-marshal sha1 sha1_len p v) refl

  -- The packet goes through unharmed.
  abbrev pub Decodes : PacketV2 → Type 0
  Decodes p = decode sha1 (marshal sha1 p) ≡ record p { hash = packet_hash sha1 sha1_len p } ∷ []

  packets_of-Decodes :
      (csn i : ℕ) (shards : List (List ℕ))
      → csn < 2 ^ 64
      → All (HasSize packet_data_size) shards
      → All Decodes (packets_of csn i shards)
  packets_of-Decodes csn i [] hc h = tt
  packets_of-Decodes csn i (s ∷ shards) hc (hs, h) = (
    decode-marshal (packet_of csn i s)
        (record { psn_u32 = omega arith; csn_u64 = hc; addr_u64 = omega arith; payload_len = hs }),
    packets_of-Decodes csn (i + 1) shards hc h,
  )

  -- With a Reed-Solomon code that behaves as documented: every packet that `encode` makes of data
  -- that fits is marshalled, read back and accepted by `decode`, unchanged but for its hash.
  pub decode-encode :
      (e : Coder) (csn next : ℕ) (src : List ℕ) (packets : List PacketV2)
      → IsCoder e
      → csn < 2 ^ 64
      → Fits e src
      → encode e csn src ≡ some (next, packets)
      → All Decodes packets
  decode-encode e csn next src packets v hc fits made =
      let (shards, sent, count, sizes) = encode_lem e csn src v hc fits in
      let same : packets_of csn 0 shards ≡ packets = ground (arith, sent) in
      subst (λ ps. All Decodes ps) same (packets_of-Decodes csn 0 shards hc sizes)

  -- The packet as it is read back, with its hash.
  abbrev pub hashed : PacketV2 → PacketV2
  hashed p = record p { hash = packet_hash sha1 sha1_len p }

  -- The packet stands at its own number among the packets.
  abbrev pub IsIn : List PacketV2 → PacketV2 → Type 0
  IsIn packets p = get_elem? packets p.psn ≡ some p

  pub All-get_elem? :
      (P : PacketV2 → Type 0) (packets : List PacketV2) (i : ℕ) (p : PacketV2)
      → All P packets
      → get_elem? packets i ≡ some p
      → P p
  All-get_elem? P [] i p h e = cc
  All-get_elem? P (x ∷ xs) zero p (hx, h) e =
      subst P (ap (λ o. elim o [ none ↦ x | some y ↦ y ]) e) hx
  All-get_elem? P (x ∷ xs) (suc i) p (hx, h) e = All-get_elem? P xs i p h e

  decode_all-marshal :
      (packets ps : List PacketV2)
      → All Decodes packets
      → All (IsIn packets) ps
      → decode_all sha1 (map (marshal sha1) ps) ≡ map hashed ps
  unfolding decode_all
  decode_all-marshal packets [] h os = refl
  decode_all-marshal packets (p ∷ ps) h (o, os) =
      ap₂ (λ xs ys. xs ++ ys) (All-get_elem? Decodes packets p.psn p h o)
        (decode_all-marshal packets ps h os)

  hashed-IsOneOf :
      (packets ps : List PacketV2) → All (IsIn packets) ps → All (IsOneOf packets) (map hashed ps)
  hashed-IsOneOf packets [] os = tt
  hashed-IsOneOf packets (p ∷ ps) (o, os) = ((p, o, (refl, refl)), hashed-IsOneOf packets ps os)

  hashed-apart :
      (p : PacketV2) (ps : List PacketV2)
      → All (λ q. p.psn ≢ q.psn) ps
      → All (λ q. p.psn ≢ q.psn) (map hashed ps)
  hashed-apart p [] h = tt
  hashed-apart p (q ∷ ps) (hq, h) = (hq, hashed-apart p ps h)

  pub hashed-Distinct : (ps : List PacketV2) → Distinct ps → Distinct (map hashed ps)
  hashed-Distinct [] d = tt
  hashed-Distinct (p ∷ ps) (h, d) = (hashed-apart p ps h, hashed-Distinct ps d)

  -- From end to end, with a Reed-Solomon code that behaves as documented and a chunk number whose
  -- places in the decoder's table do not overflow: data that fits is encoded into packets, and as
  -- many different ones of them as there are data shards (two or more) are marshalled and arrive,
  -- in any order, at a decoder with the encoder's numbers of shards that is ready for the chunk.
  -- Then `decode` and the assembler send one list of packets, and `restore` makes of it one chunk
  -- with the same number and the same data.
  pub restore-decode_all :
      (e : Coder) (csn next ok err : ℕ) (src : List ℕ) (packets ps : List PacketV2) (a : Assembler)
      → IsCoder e
      → csn * e.total + e.total < 2 ^ 64
      → Fits e src
      → encode e csn src ≡ some (next, packets)
      → Ready a csn
      → a.total ≡ e.total
      → a.parts ≡ e.parts
      → 2 ≤ a.parts
      → All (IsIn packets) ps
      → Distinct ps
      → length ps ≡ a.parts
      → (got : List (Option PacketV2)) × (b : Assembler) × (chunk : Chunk) × (assemble_all a
            (decode_all sha1 (map (marshal sha1) ps))
          ≡ some (got ∷ [], b))
        × Done a b csn
        × (restore (restorer_of e ok err) got ≡ some (chunk ∷ [], restorer_of e (add64 ok 1) err))
        × (chunk.csn ≡ csn)
        × (chunk_bytes chunk ≡ src)
  restore-decode_all e csn next ok err src packets ps a v small fits made r same_total same_parts
        two os d full =
      let hc : csn < 2 ^ 64 =
        omega (arith, le-mul csn e.total (omega (arith, v.some_parts, v.enough))) in
      let come : decode_all sha1 (map (marshal sha1) ps) ≡ map hashed ps =
        decode_all-marshal packets ps (decode-encode e csn next src packets v hc fits made) os in
      let (got, b, chunk, sent, done, restored, numbered, bytes) =
        restore-assemble_all e csn next ok err src packets (map hashed ps) a v small fits made r
          same_total same_parts two (hashed-IsOneOf packets ps os) (hashed-Distinct ps d)
          (length-map hashed ps ∙ full) in
      (got, b, chunk, ap (assemble_all a) come ∙ sent, done, restored, numbered, bytes)

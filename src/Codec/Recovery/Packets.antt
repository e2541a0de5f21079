-- ===== src/Codec/Recovery/Packets.antt =====
-- The packets that `encode` of src/codec/encoder.go makes of a coded chunk.
use fec.Prelude.{
  ℕ, suc, ◌+◌, ◌≡◌, inl, inr, refl, sym, ap, ◌∙◌, Option, none, some, List, [], ◌∷◌, map, arith,
  if◌then◌else◌, ◌==◌, length, length-replicate, drop_all, replicate, min, u32, All, copy_full,
}
use fec.Codec.Packet.{PacketV2, packet_data_size, packet_bytes, new_packet_v2}
use fec.Codec.ReedSolomon.{HasSize, Survives, present}
use fec.Codec.Encoder.Encode.{addr_fec, encode_packets}

-- The packet that carries shard `i`.
abbrev pub packet_of : ℕ → ℕ → List ℕ → PacketV2
packet_of csn i shard = record {
  version = 2;
  kind = if csn == 1 then 2 else 1;
  psn = u32 i;
  csn = csn;
  addr = addr_fec;
  payload = shard;
  hash = replicate 8 0;
}

new_packet_v2-full :
    (kind csn psn addr : ℕ) (shard : List ℕ)
    → HasSize packet_data_size shard
    → new_packet_v2 kind csn psn addr shard ≡ (
      record {
        version = 2;
        kind = kind;
        psn = psn;
        csn = csn;
        addr = addr;
        payload = shard;
        hash = replicate 8 0;
      },
      [],
    )
unfolding new_packet_v2
new_packet_v2-full kind csn psn addr shard h =
    rw
      (
        drop_all (min packet_data_size (length shard)) shard (omega arith),
        copy_full (replicate packet_data_size 0) shard
            (h ∙ sym (length-replicate {A = ℕ} packet_data_size 0)),
      )
      refl

abbrev pub packets_of : ℕ → ℕ → List (List ℕ) → List PacketV2
packets_of csn i [] = []
packets_of csn i (shard ∷ shards) = packet_of csn i shard ∷ packets_of csn (i + 1) shards

-- Every full shard goes into a packet of its own.
pub encode_packets-eq :
    (csn i : ℕ) (shards : List (List ℕ))
    → All (HasSize packet_data_size) shards
    → encode_packets csn i shards ≡ packets_of csn i shards
unfolding encode_packets
encode_packets-eq csn i [] h = refl
encode_packets-eq csn i (shard ∷ shards) (hs, h) =
    rw (new_packet_v2-full (if csn == 1 then 2 else 1) csn (u32 i) addr_fec shard hs)
      (ap (◌∷◌ (packet_of csn i shard)) (encode_packets-eq csn (i + 1) shards h))

pub length-packets_of :
    (csn i : ℕ) (shards : List (List ℕ)) → length (packets_of csn i shards) ≡ length shards
length-packets_of csn i [] = refl
length-packets_of csn i (shard ∷ shards) = ap suc (length-packets_of csn (i + 1) shards)

-- `q` carries the data of `p`: only the fields that the decoder does not read further may differ.
abbrev pub Carries : PacketV2 → PacketV2 → Type 0
Carries p q = (q.csn ≡ p.csn) × (q.payload ≡ p.payload)

abbrev pub ArrivesAs : PacketV2 → Option PacketV2 → Type 0
ArrivesAs p none = Unit
ArrivesAs p (some q) = Carries p q

-- What arrives of a sequence of packets: for each of them one that carries its data, or nil.
abbrev pub Arrives : List PacketV2 → List (Option PacketV2) → Type 0
Arrives [] [] = Unit
Arrives [] (g ∷ got) = ⊥
Arrives (p ∷ ps) [] = ⊥
Arrives (p ∷ ps) (g ∷ got) = ArrivesAs p g × Arrives ps got

-- How many arrive.
abbrev pub received : List (Option PacketV2) → ℕ
received [] = 0
received (none ∷ got) = received got
received (some p ∷ got) = suc (received got)

pub length-Arrives :
    (ps : List PacketV2) (got : List (Option PacketV2)) → Arrives ps got → length got ≡ length ps
length-Arrives [] [] h = refl
length-Arrives [] (g ∷ got) h = absurd h
length-Arrives (p ∷ ps) [] h = absurd h
length-Arrives (p ∷ ps) (g ∷ got) (hg, h) = ap suc (length-Arrives ps got h)

-- The bytes of what arrives are what survives of the shards, and as many.
pub Arrives-Survives :
    (csn i : ℕ) (shards : List (List ℕ)) (got : List (Option PacketV2))
    → All (HasSize packet_data_size) shards
    → Arrives (packets_of csn i shards) got
    → Survives shards (map packet_bytes got) × (present (map packet_bytes got) ≡ received got)
unfolding packet_bytes
Arrives-Survives csn i [] [] h a = (tt, refl)
Arrives-Survives csn i [] (g ∷ got) h a = absurd a
Arrives-Survives csn i (s ∷ shards) [] h a = absurd a
Arrives-Survives csn i (s ∷ shards) (none ∷ got) (hs, h) (hg, a) =
    let (e, n) = Arrives-Survives csn (i + 1) shards got h a in ((inr refl, e), n)
Arrives-Survives csn i ([] ∷ shards) (some p ∷ got) (hs, h) (hg, a) = absurd (omega arith)
Arrives-Survives csn i ((b ∷ bs) ∷ shards) (some p ∷ got) (hs, h) (hg, a) =
    let (e, n) = Arrives-Survives csn (i + 1) shards got h a in ((inl hg.1, e), rw (hg.1, n) refl)

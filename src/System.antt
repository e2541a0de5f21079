-- ===== src/System.antt =====
-- Two clients at the relay: cmd/server/main.go between the encoder of one client and src/client.go
-- with the decoder of the other.
use mathlib.Core.Path.{subst}
use fec.Prelude.{
  ℕ, ◌+◌, ◌*◌, ◌^◌, ◌≤◌, ◌<◌, ◌≡◌, ◌≢◌, inl, inr, refl, sym, ap, ◌∙◌, Bool-cases, true, false,
  Option, some, List, [], ◌∷◌, ◌++◌, if◌then◌else◌, arith, map, length, take, drop, bytes_eq,
  ==_false, ltb, All,
}
use fec.Relay.{
  uid, uuid_nil, UdpAddr, new_server, same_addr, datagram, Written, check_handshake, serve_all,
}
use fec.Relay.Talk.{
  Turn, from_first, from_second, from_elsewhere, turns, relayed, same_addr_refl, IsTalk,
}
use fec.Relay.Session.{KeepsIds, IsId, serve_all-relayed}
use fec.Codec.Packet.{PacketV2, packet_data_size, marshal}
use fec.Codec.Packet.Layout.{marshal_fields-eq}
use fec.Codec.ReedSolomon.{ReedSolomon, HasSize}
use fec.Codec.Encoder.{Coder, made}
use fec.Codec.Decoder.{Decoder, new_decoder}
use fec.Codec.Decoder.Run.{run}
use fec.Codec.Recovery.Packets.{packets_of}
use fec.Codec.Recovery.Restored.{IsCoder, Fits, encode_lem}
use fec.Codec.Recovery.Wire.{All-get_elem?}
use fec.Codec.Recovery.Stream.{Batch, sent_packets, in_turn, data_from, encode-sent_packets}
use fec.Codec.Recovery.Stream.Delivery.{IsMade, AreSentBatches, in_turn_lem, run-data_from}
use fec.Client.Routes.{Event, route_all, new_routes}
use fec.Client.Lane.{decoder_in, server_reads}
use fec.Client.Lanes.{route_all-lanes}

-- What is written to an address.
unfoldable pub received : UdpAddr → Written → List (List ℕ)
received b [] = []
received b ((buf, addr) ∷ written) =
    let rest = received b written in if same_addr (some addr) (some b) then buf ∷ rest else rest

-- What comes from the first peer.
unfoldable pub firsts : List Turn → List (List ℕ)
firsts [] = []
firsts (from_first buf w ∷ ts) = buf ∷ firsts ts
firsts (from_second buf w ∷ ts) = firsts ts
firsts (from_elsewhere buf c w ∷ ts) = firsts ts

module _ (a b : UdpAddr) (apart : same_addr (some a) (some b) ≡ false) where
  received-here :
      (buf : List ℕ) (written : Written)
      → received b ((buf, b) ∷ written) ≡ buf ∷ received b written
  unfolding received
  received-here buf written = rw (same_addr_refl b) refl

  received-there :
      (buf : List ℕ) (written : Written) → received b ((buf, a) ∷ written) ≡ received b written
  unfolding received
  received-there buf written = rw apart refl

  received-relayed : (ts : List Turn) → received b (relayed a b ts) ≡ firsts ts
  unfolding received firsts
  received-relayed [] = refl
  received-relayed (from_first buf w ∷ ts) =
      received-here buf (relayed a b ts) ∙ ap (λ xs. buf ∷ xs) (received-relayed ts)
  received-relayed (from_second buf w ∷ ts) =
      received-there buf (relayed a b ts) ∙ received-relayed ts
  received-relayed (from_elsewhere buf c w ∷ ts) = received-relayed ts

module _ (from_bytes_or_nil : List ℕ → List ℕ) where
  abbrev pub IsNoHandshake : List ℕ → Type 0
  IsNoHandshake buf = check_handshake from_bytes_or_nil buf ≡ uuid_nil

  -- As `IsTalk`, of all turns but those of the first peer.
  abbrev pub IsOthers : UdpAddr → UdpAddr → List Turn → Type 0
  IsOthers a b [] = Unit
  IsOthers a b (from_first buf w ∷ ts) = IsOthers a b ts
  IsOthers a b (from_second buf w ∷ ts) = IsNoHandshake buf × IsOthers a b ts
  IsOthers a b (from_elsewhere buf c w ∷ ts) =
      IsNoHandshake buf
      × (same_addr (some a) (some c) ≡ false)
      × (same_addr (some b) (some c) ≡ false)
      × IsOthers a b ts

  others-IsTalk :
      (a b : UdpAddr) (ts : List Turn)
      → All IsNoHandshake (firsts ts)
      → IsOthers a b ts
      → IsTalk from_bytes_or_nil a b ts
  unfolding firsts
  others-IsTalk a b [] h o = tt
  others-IsTalk a b (from_first buf w ∷ ts) (n, h) o = (n, others-IsTalk a b ts h o)
  others-IsTalk a b (from_second buf w ∷ ts) h (n, o) = (n, others-IsTalk a b ts h o)
  others-IsTalk a b (from_elsewhere buf c w ∷ ts) h (n, e, f, o) =
      (n, e, f, others-IsTalk a b ts h o)

  begins_otherwise : (x : ℕ) (xs : List ℕ) → x ≢ 23 → IsNoHandshake (x ∷ xs)
  unfolding check_handshake take bytes_eq
  begins_otherwise x xs n = elim (Bool-cases (ltb (length (x ∷ xs)) 32)) [
    | inl e ↦ rw e refl
    | inr e ↦ rw (e, ==_false x 23 n) refl
  ]

-- A packet as `encode` makes it.
abbrev IsFull : PacketV2 → Type 0
IsFull q = (q.version ≡ 2) × HasSize packet_data_size q.payload

packets_of-IsFull :
    (csn i : ℕ) (shards : List (List ℕ))
    → All (HasSize packet_data_size) shards
    → All IsFull (packets_of csn i shards)
packets_of-IsFull csn i [] h = tt
packets_of-IsFull csn i (shard ∷ shards) (s, h) =
    ((refl, s), packets_of-IsFull csn (i + 1) shards h)

module _ (from_bytes_or_nil : List ℕ → List ℕ) (sha1 : List ℕ → List ℕ)
    (sha1_len : (x : List ℕ) → length (sha1 x) ≡ 20) where
  IsFull-IsNoHandshake :
      (q : PacketV2) → IsFull q → IsNoHandshake from_bytes_or_nil (marshal sha1 q)
  unfolding marshal
  IsFull-IsNoHandshake q (version, size) =
      rw
        (
          marshal,
          marshal_fields-eq sha1 sha1_len q.version q.kind q.psn q.csn q.addr q.payload size,
        )
        (begins_otherwise from_bytes_or_nil q.version _ (omega (arith, version)))

  module _ (e : Coder) (src : ℕ → List ℕ) (v : IsCoder e) (fits : (n : ℕ) → Fits e (src n)) where
    made-IsNoHandshake :
        (c : ℕ) (q : PacketV2)
        → c < 2 ^ 64
        → IsMade sha1 sha1_len e src c q
        → IsNoHandshake from_bytes_or_nil (marshal sha1 q)
    made-IsNoHandshake c q hc at =
        let (shards, sent, count, sizes) = encode_lem e c (src c) v hc (fits c) in
        let these : sent_packets e src c ≡ packets_of c 0 shards =
          ground (arith, sent, encode-sent_packets e src v fits c hc) in
        IsFull-IsNoHandshake q (
          All-get_elem? sha1 sha1_len IsFull (sent_packets e src c) q.psn q
            (subst (All IsFull) (sym these) (packets_of-IsFull c 0 shards sizes)) at)

    all-IsNoHandshake :
        (qs : List PacketV2)
        → All (λ q. IsNoHandshake from_bytes_or_nil (marshal sha1 q)) qs
        → All (IsNoHandshake from_bytes_or_nil) (map (marshal sha1) qs)
    all-IsNoHandshake [] h = tt
    all-IsNoHandshake (q ∷ qs) (n, h) = (n, all-IsNoHandshake qs h)

    -- The second peer gets the answer to its handshake, and then what comes from the first.
    pub received-session :
        (p q : List ℕ) (a b : UdpAddr) (w x : Option ℕ) (ts : List Turn) (batches : List Batch)
        → KeepsIds from_bytes_or_nil
        → IsId p
        → IsId q
        → p ≢ q
        → same_addr (some a) (some b) ≡ false
        → firsts ts ≡ map (marshal sha1) (in_turn batches)
        → IsOthers from_bytes_or_nil a b ts
        → AreSentBatches sha1 sha1_len e src 1 batches
        → received b
            (serve_all from_bytes_or_nil new_server
              (datagram (uid ++ p) a w ∷ datagram (uid ++ q) b x ∷ turns a b ts)).0
          ≡ (uid ++ q) ∷ firsts ts
    received-session p q a b w x ts batches keeps vp vq apart addrs sends others h =
        let talk : IsTalk from_bytes_or_nil a b ts =
          others-IsTalk from_bytes_or_nil a b ts
            (subst (All (IsNoHandshake from_bytes_or_nil)) (sym sends) (
              all-IsNoHandshake (in_turn batches)
                (in_turn_lem sha1 sha1_len e src v fits _ made-IsNoHandshake 1 batches h)))
            others in
        ap (received b)
          (serve_all-relayed from_bytes_or_nil p q a b w x ts keeps vp vq apart addrs talk)
        ∙ received-there a b addrs (uid ++ p) ((uid ++ q, b) ∷ relayed a b ts)
        ∙ received-here a b addrs (uid ++ q) (relayed a b ts)
        ∙ ap (λ xs. (uid ++ q) ∷ xs) (received-relayed a b addrs ts)

    -- With a Reed-Solomon code that behaves as documented, `src n` being the data of chunk `n`,
    -- which fits; the parser of ids keeps 16 bytes as they are. Two peers with different real ids
    -- and different addresses register with a new relay. What comes from the first peer then is its
    -- encoder's datagrams, as the network leaves them: for each chunk from the first one on as many
    -- different ones as there are data shards, in any order, and behind them any late or repeated
    -- ones of chunks up to it. (The numbers of the chunks and of the decoder's lines, of which
    -- at least one is there, are so small that no place overflows.) In between, the second peer and
    -- strangers send anything but handshakes, and writes fail or do not. The client of the second
    -- peer reads what the relay writes to it, first the answer to its handshake and the rest in its
    -- goroutines, in any interleaving with everything else that they do. Then the decoder of this
    -- client, made for the encoder's numbers of shards, at least two of data, puts out exactly the
    -- data of all these chunks, in their order, and none of its goroutines panics.
    pub run-relayed :
        (p q : List ℕ) (a b : UdpAddr) (w x : Option ℕ) (ts : List Turn) (events : List Event)
        (new_rs : ℕ → ℕ → Option ReedSolomon) (lines size : ℕ) (d : Decoder) (batches : List Batch)
        → KeepsIds from_bytes_or_nil
        → IsId p
        → IsId q
        → p ≢ q
        → same_addr (some a) (some b) ≡ false
        → firsts ts ≡ map (marshal sha1) (in_turn batches)
        → IsOthers from_bytes_or_nil a b ts
        → received b
            (serve_all from_bytes_or_nil new_server
              (datagram (uid ++ p) a w ∷ datagram (uid ++ q) b x ∷ turns a b ts)).0
          ≡ (uid ++ q) ∷ server_reads true events
        → new_rs e.parts e.total ≡ some e.rs
        → 2 ≤ e.parts
        → 0 < lines
        → lines * e.total < 2 ^ 64
        → new_decoder new_rs e.parts e.total lines size ≡ made d
        → AreSentBatches sha1 sha1_len e src 1 batches
        → 1 + length batches < 2 ^ 64
        → (d' : Decoder) × (run sha1 d (decoder_in (route_all new_routes events).0)
            ≡ some (data_from src 1 (length batches), d'))
    unfolding drop firsts
    run-relayed p q a b w x ts events new_rs lines size d batches keeps vp vq apart addrs sends
          others reads code two pos small new h few =
        let heard =
          received-session p q a b w x ts batches keeps vp vq apart addrs sends others h in
        let given : decoder_in (route_all new_routes events).0
            ≡ map (marshal sha1) (in_turn batches) =
          (route_all-lanes events).0 ∙ ap (drop 1) (sym reads ∙ heard) ∙ sends in
        let (d', out) =
          run-data_from sha1 sha1_len e src v fits new_rs lines size d batches code two pos small
            new h few in
        (d', ap (run sha1 d) given ∙ out)

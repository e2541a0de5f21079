-- ===== src/Codec/Recovery/Spread/Delivery.antt =====
-- The datagrams of interleaved chunks through all goroutines of src/codec/decoder.go.
use fec.Prelude.{
  ℕ, zero, suc, ◌+◌, ◌*◌, ◌^◌, ◌≤◌, ◌<◌, ◌≡◌, refl, sym, ap, ap₂, ◌∙◌, Option, some, List, [], ◌∷◌,
  ◌++◌, map, map-append, arith, length, get_elem?, All,
}
use fec.Codec.ReedSolomon.{ReedSolomon}
use fec.Codec.Packet.{PacketV2, marshal}
use fec.Codec.Encoder.{Coder, made}
use fec.Codec.Encoder.Dispatch.Interleave.{batch}
use fec.Codec.Decoder.{Decoder, new_decoder}
use fec.Codec.Decoder.Decode.{decode_all}
use fec.Codec.Decoder.Run.{run}
use fec.Codec.Decoder.Assembly.Geometry.{le-mul}
use fec.Codec.Decoder.Assembly.Bounds.{All-append}
use fec.Codec.Decoder.Assembly.Fresh.{fresh_assembler, fresh_assembler-Idle}
use fec.Codec.Decoder.Assembly.Round.{Round, rounds_of}
use fec.Codec.Recovery.Restored.{restorer_of, IsCoder, Fits}
use fec.Codec.Recovery.Wire.{hashed, Decodes}
use fec.Codec.Recovery.Made.{decoder_of, fresh_dispatcher_of, new_decoder-decoder_of}
use fec.Codec.Recovery.Stream.{data_from, sent_packets, small_number}
use fec.Codec.Recovery.Stream.Turn.{dispatch_all-InTurn}
use fec.Codec.Recovery.Stream.Delivery.{IsMade, IsMade-Decodes, decode_all-Decodes}
use fec.Codec.Recovery.Spread.Rounds.{
  Numbers, sent_packet, sent_packet-IsNth, round, rounds, chunk_small,
}
use fec.Codec.Recovery.Spread.Lines.{Heard, IsHeard, AreHeard, arrivals, split_small, spread_lem}

module _ (sha1 : List ℕ → List ℕ) (sha1_len : (x : List ℕ) → length (sha1 x) ≡ 20) where
  module _ (e : Coder) (src : ℕ → List ℕ) (n : ℕ) where
    -- As `IsHeard`, and the late packets are ones that `encode` made.
    pub record IsSent (c : ℕ) (h : Heard) : Type 0 where
      pub heard : IsHeard e src n c h
      pub made : All (λ q. IsMade sha1 sha1_len e src q.csn q) h.late

    abbrev pub AreSent : ℕ → List Heard → Type 0
    AreSent c [] = Unit
    AreSent c (h ∷ hs) = IsSent c h × AreSent (c + n) hs

    AreSent-AreHeard : (c : ℕ) (hs : List Heard) → AreSent c hs → AreHeard e src n c hs
    AreSent-AreHeard c [] s = tt
    AreSent-AreHeard c (h ∷ hs) (i, s) = (i.heard, AreSent-AreHeard (c + n) hs s)

    module _ (v : IsCoder e) (fits : (k : ℕ) → Fits e (src k)) (few : e.total ≤ 2 ^ 32) where
      abbrev plain_round : ℕ → ℕ → Round
      plain_round = round e src v fits few (λ q. q) (λ q. (refl, refl)) (λ q. refl)

      -- The packets, before they are marshalled.
      abbrev pub sent : ℕ → List Heard → List PacketV2
      sent = arrivals e src n v fits few (λ q. q) (λ q. (refl, refl)) (λ q. refl)

      abbrev got : ℕ → List Heard → List PacketV2
      got = arrivals e src n v fits few (hashed sha1 sha1_len) (λ q. (refl, refl)) (λ q. refl)

      map-batch :
          (f : PacketV2 → PacketV2) (P : Round) (i m : ℕ)
          → map f (batch P i m) ≡ batch (λ j. f (P j)) i m
      map-batch f P i zero = refl
      map-batch f P i (suc m) = ap (λ xs. f (P i) ∷ xs) (map-batch f P (i + 1) m)

      hashed-rounds :
          (c : ℕ) (rs : List ℕ)
          → map (hashed sha1 sha1_len) (rounds_of n (map (plain_round c) rs))
            ≡ rounds_of n (
                rounds e src v fits few (hashed sha1 sha1_len) (λ q. (refl, refl)) (λ q. refl) c rs)
      hashed-rounds c [] = refl
      hashed-rounds c (r ∷ rs) =
          map-append (hashed sha1 sha1_len) (batch (plain_round c r) 0 n)
            (rounds_of n (map (plain_round c) rs))
          ∙ ap₂ (λ xs ys. xs ++ ys) (map-batch (hashed sha1 sha1_len) (plain_round c r) 0 n)
              (hashed-rounds c rs)

      map-id : (qs : List PacketV2) → map (λ q. q) qs ≡ qs
      map-id [] = refl
      map-id (q ∷ qs) = ap (λ xs. q ∷ xs) (map-id qs)

      hashed-sent : (c : ℕ) (hs : List Heard) → map (hashed sha1 sha1_len) (sent c hs) ≡ got c hs
      unfolding arrivals
      hashed-sent c [] = refl
      hashed-sent c (h ∷ hs) =
          map-append (hashed sha1 sha1_len) (rounds_of n (map (plain_round c) h.numbers))
            (map (λ q. q) h.late ++ sent (c + n) hs)
          ∙ ap₂ (λ xs ys. xs ++ ys) (hashed-rounds c h.numbers)
              (ap (λ xs. map (hashed sha1 sha1_len) (xs ++ sent (c + n) hs)) (map-id h.late)
                ∙ map-append (hashed sha1 sha1_len) h.late (sent (c + n) hs)
                ∙ ap (λ xs. map (hashed sha1 sha1_len) h.late ++ xs) (hashed-sent (c + n) hs))

      round-Decodes :
          (c r i m : ℕ)
          → i + m ≡ n
          → (c + n) * e.total < 2 ^ 64
          → r < e.total
          → All (Decodes sha1 sha1_len) (batch (plain_round c r) i m)
      round-Decodes c r i zero is small lt = tt
      round-Decodes c r i (suc m) is small lt =
          let here = chunk_small e.total c n i (omega arith) small in
          let x = sent_packet-IsNth e src v fits few (c + i) r here lt in
          (
            IsMade-Decodes sha1 sha1_len e src v fits (c + i) (sent_packet e src (c + i) r)
                (small_number e src v fits (c + i) here)
                (ap (get_elem? (sent_packets e src (c + i))) x.number ∙ x.found),
            round-Decodes c r (i + 1) m (omega arith) small lt,
          )

      rounds-Decodes :
          (c : ℕ) (rs : List ℕ)
          → (c + n) * e.total < 2 ^ 64
          → Numbers e.total rs
          → All (Decodes sha1 sha1_len) (rounds_of n (map (plain_round c) rs))
      rounds-Decodes c [] small h = tt
      rounds-Decodes c (r ∷ rs) small (lt, _, h) =
          All-append (Decodes sha1 sha1_len) (batch (plain_round c r) 0 n)
            (rounds_of n (map (plain_round c) rs)) (round-Decodes c r 0 n (omega arith) small lt)
            (rounds-Decodes c rs small h)

      late-Decodes :
          (m : ℕ) (qs : List PacketV2)
          → m * e.total < 2 ^ 64
          → All (λ q. q.csn < m) qs
          → All (λ q. IsMade sha1 sha1_len e src q.csn q) qs
          → All (Decodes sha1 sha1_len) (map (λ q. q) qs)
      late-Decodes m [] small h k = tt
      late-Decodes m (q ∷ qs) small (lt, h) (at, k) = (
        IsMade-Decodes sha1 sha1_len e src v fits q.csn q
            (omega (arith, lt, small, le-mul m e.total (omega (arith, v.some_parts, v.enough)))) at,
        late-Decodes m qs small h k,
      )

      sent-Decodes :
          (c : ℕ) (hs : List Heard)
          → (c + n * length hs) * e.total < 2 ^ 64
          → AreSent c hs
          → All (Decodes sha1 sha1_len) (sent c hs)
      unfolding arrivals
      sent-Decodes c [] small s = tt
      sent-Decodes c (h ∷ hs) small (i, s) =
          let (first, later) = split_small e.total c n (length hs) small in
          All-append (Decodes sha1 sha1_len) (rounds_of n (map (plain_round c) h.numbers))
            (map (λ q. q) h.late ++ sent (c + n) hs)
            (rounds-Decodes c h.numbers first i.heard.different)
            (All-append (Decodes sha1 sha1_len) (map (λ q. q) h.late) (sent (c + n) hs)
              (late-Decodes (c + n) h.late first i.heard.behind i.made)
              (sent-Decodes (c + n) hs later s))

      -- With a hash of 20 bytes and a Reed-Solomon code that behaves as documented; `src k` is the
      -- data of chunk `k`, which fits, and a chunk has at most `2 ^ 32` packets. An encoder
      -- interleaves batches of `n` chunks, `n` not zero, and a decoder is made for its numbers of
      -- shards, with two or more data shards, and at least `n` lines; the places of the decoder
      -- and the numbers of the packets do not overflow. For each batch the decoder gets as many
      -- different rounds of the encoder's datagrams as there are data shards, in any order, a
      -- round being `n` datagrams next to each other, one of each chunk; and behind them late or
      -- repeated ones of this batch or of earlier ones. Then no goroutine panics, and what comes
      -- out is exactly the data of all these chunks, in their order.
      pub run-sent :
          (new_rs : ℕ → ℕ → Option ReedSolomon) (lines size : ℕ) (d : Decoder) (hs : List Heard)
          → new_rs e.parts e.total ≡ some e.rs
          → 2 ≤ e.parts
          → 0 < n
          → n ≤ lines
          → lines * e.total < 2 ^ 64
          → new_decoder new_rs e.parts e.total lines size ≡ made d
          → AreSent 1 hs
          → (1 + n * length hs) * e.total < 2 ^ 64
          → (b : Decoder) × (run sha1 d (map (marshal sha1) (sent 1 hs))
              ≡ some (data_from src 1 (n * length hs), b))
      unfolding run
      run-sent new_rs lines size d hs code two pos room table new s small =
          let is : decoder_of e lines size ≡ d =
            new_decoder-decoder_of new_rs e lines size d v.some_parts (omega (arith, v.enough)) code
              new in
          let decoded : decode_all sha1 (map (marshal sha1) (sent 1 hs)) ≡ got 1 hs =
            decode_all-Decodes sha1 sha1_len e src v fits (sent 1 hs) (sent-Decodes 1 hs small s)
            ∙ hashed-sent 1 hs in
          let (lists, a, chunks, ok, assembled, restored, numbered, counted) =
            spread_lem e src n v fits few (hashed sha1 sha1_len) (λ q. (refl, refl)) (λ q. refl)
              lines room (fresh_assembler e.parts e.total lines) 1 0 0 hs pos two
              record {
                idle =
                    fresh_assembler-Idle e.parts e.total lines (omega (arith, v.small))
                      (omega (arith, two, v.enough)) (omega (arith, pos, room)) table;
                sizes = record { lines_is = refl; total_is = refl; parts_is = refl };
                last_is = omega arith;
              }
              small (AreSent-AreHeard 1 hs s) in
          let few_chunks : 1 + length chunks < 2 ^ 64 = omega (
            arith,
            counted,
            small,
            le-mul (1 + n * length hs) e.total (omega (arith, v.some_parts, v.enough)),
          ) in
          let (b, dispatched) =
            dispatch_all-InTurn src (fresh_dispatcher_of size) 1 chunks refl refl refl few_chunks
              numbered in
          let out : Decoder = record {
            assembler = a;
            restorer = restorer_of e ok 0;
            dispatcher = b;
          } in
          (
            out,
            ap (λ x. run sha1 x (map (marshal sha1) (sent 1 hs))) (sym is)
                ∙ rw (run, decoded, assembled, restored, dispatched)
                    (ap (λ m. some (data_from src 1 m, out)) counted),
          )

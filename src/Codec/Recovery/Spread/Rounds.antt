-- ===== src/Codec/Recovery/Spread/Rounds.antt =====
-- The packets of one number of several chunks: what the dispatcher of src/codec/encoder.go sends in
-- one round.
use mathlib.Core.Path.{subst}
use fec.Prelude.{
  ℕ, zero, suc, ◌+◌, ◌*◌, ◌^◌, ◌≤◌, ◌<◌, ◌≡◌, ◌≢◌, refl, sym, ap, ◌∙◌, none, some, List, [], ◌∷◌,
  map, length-map, arith, length, get_elem?, get_elem?-eq-get_or, get_or, replicate, All, add64,
}
use fec.Codec.Packet.{PacketV2}
use fec.Codec.Chunk.{Chunk}
use fec.Codec.Encoder.{Coder}
use fec.Codec.Decoder.Decode.{empty_packet}
use fec.Codec.Decoder.Restore.{restore_all}
use fec.Codec.Decoder.Assembly.Geometry.{line_fits}
use fec.Codec.Decoder.Assembly.Round.{Round, lists_of, IsRound}
use fec.Codec.Recovery.Packets.{packets_of, length-packets_of, Carries}
use fec.Codec.Recovery.Restored.{restorer_of, IsCoder, Fits, encode_lem}
use fec.Codec.Recovery.Delivered.{IsOneOf, Distinct, packets_of-IsFor, restore-place}
use fec.Codec.Recovery.Stream.{sent_packets, InTurn, encode-sent_packets, small_number}

-- Different numbers of packets.
abbrev pub Numbers : ℕ → List ℕ → Type 0
Numbers total [] = Unit
Numbers total (r ∷ rs) = (r < total) × All (λ s. r ≢ s) rs × Numbers total rs

packets_of-psn :
    (csn i k : ℕ) (shards : List (List ℕ)) (d : PacketV2)
    → k < length shards
    → i + length shards ≤ 2 ^ 32
    → (get_or (packets_of csn i shards) k d).psn ≡ i + k
packets_of-psn csn i k [] d lt small = absurd (omega arith)
packets_of-psn csn i zero (s ∷ shards) d lt small = omega arith
packets_of-psn csn i (suc k) (s ∷ shards) d lt small =
    packets_of-psn csn (i + 1) k shards d (omega arith) (omega arith) ∙ omega arith

pub chunk_small : (t c n j : ℕ) → j < n → (c + n) * t < 2 ^ 64 → (c + j) * t + t < 2 ^ 64
chunk_small t c n j hj small = omega (arith, small, line_fits (c + j) (c + n) t (omega (arith, hj)))

module _ (e : Coder) (src : ℕ → List ℕ) where
  -- Packet `r` of chunk `c`.
  abbrev pub sent_packet : ℕ → ℕ → PacketV2
  sent_packet c r = get_or (sent_packets e src c) r empty_packet

  module _ (v : IsCoder e) (fits : (n : ℕ) → Fits e (src n)) (few : e.total ≤ 2 ^ 32) where
    pub record IsNth (c r : ℕ) : Type 0 where
      pub found : get_elem? (sent_packets e src c) r ≡ some (sent_packet c r)
      pub number : (sent_packet c r).psn ≡ r
      pub chunk : (sent_packet c r).csn ≡ c

    pub sent_packet-IsNth : (c r : ℕ) → c * e.total + e.total < 2 ^ 64 → r < e.total → IsNth c r
    sent_packet-IsNth c r small lt =
        let hc = small_number e src v fits c small in
        let (shards, sent, count, sizes) = encode_lem e c (src c) v hc (fits c) in
        let these : sent_packets e src c ≡ packets_of c 0 shards =
          ground (arith, sent, encode-sent_packets e src v fits c hc) in
        let here : get_elem? (sent_packets e src c) r ≡ some (sent_packet c r) =
          get_elem?-eq-get_or (sent_packets e src c) r empty_packet
            (omega (arith, ap length these, length-packets_of c 0 shards, count)) in
        record {
          found = here;
          number =
              ap (λ ps. (get_or ps r empty_packet).psn) these
              ∙ packets_of-psn c 0 r shards empty_packet (omega (arith, count))
                  (omega (arith, count))
              ∙ omega arith;
          chunk =
              (packets_of-IsFor c 0 r shards (sent_packet c r)
                (ap (λ ps. get_elem? ps r) (sym these) ∙ here)).0;
        }

    -- `f` is what becomes of a packet on its way.
    module _ (f : PacketV2 → PacketV2) (carries : (q : PacketV2) → Carries q (f q))
        (keeps : (q : PacketV2) → (f q).psn ≡ q.psn) where
      abbrev pub round : ℕ → ℕ → Round
      round c r j = f (sent_packet (c + j) r)

      abbrev pub rounds : ℕ → List ℕ → List Round
      rounds c = map (round c)

      pub round-IsRound :
          (lines c n r : ℕ) (room : n ≤ lines)
          → (c + n) * e.total < 2 ^ 64
          → r < e.total
          → IsRound lines e.total e.parts c n room (round c r)
      round-IsRound lines c n r room small lt j hj =
          let h = chunk_small e.total c n j hj small in
          let x = sent_packet-IsNth (c + j) r h lt in
          record {
            same = (carries (sent_packet (c + j) r)).0 ∙ x.chunk;
            placed = record {
              psn_in = omega (arith, keeps (sent_packet (c + j) r), x.number);
              no_wrap = rw ((carries (sent_packet (c + j) r)).0 ∙ x.chunk) h;
            };
          }

      pub rounds-IsRound :
          (lines c n : ℕ) (rs : List ℕ) (room : n ≤ lines)
          → (c + n) * e.total < 2 ^ 64
          → Numbers e.total rs
          → All (IsRound lines e.total e.parts c n room) (rounds c rs)
      rounds-IsRound lines c n [] room small h = tt
      rounds-IsRound lines c n (r ∷ rs) room small (lt, _, h) =
          (round-IsRound lines c n r room small lt, rounds-IsRound lines c n rs room small h)

      -- The packets of chunk `c + j` in the rounds.
      abbrev lane : ℕ → List ℕ → ℕ → List PacketV2
      lane c rs j = map (λ (P : Round). P j) (rounds c rs)

      lane-IsOneOf :
          (c j : ℕ) (rs : List ℕ)
          → (c + j) * e.total + e.total < 2 ^ 64
          → Numbers e.total rs
          → All (IsOneOf (sent_packets e src (c + j))) (lane c rs j)
      lane-IsOneOf c j [] small h = tt
      lane-IsOneOf c j (r ∷ rs) small (lt, _, h) =
          let x = sent_packet-IsNth (c + j) r small lt in
          let at = keeps (sent_packet (c + j) r) ∙ x.number in
          (
            (
              sent_packet (c + j) r,
              ap (get_elem? (sent_packets e src (c + j))) at ∙ x.found,
              carries (sent_packet (c + j) r),
            ),
            lane-IsOneOf c j rs small h,
          )

      lane-apart :
          (c j r : ℕ) (p : PacketV2) (rs : List ℕ)
          → (c + j) * e.total + e.total < 2 ^ 64
          → p.psn ≡ r
          → All (λ s. r ≢ s) rs
          → Numbers e.total rs
          → All (λ q. p.psn ≢ q.psn) (lane c rs j)
      lane-apart c j r p [] small is ne h = tt
      lane-apart c j r p (s ∷ rs) small is (n, ne) (lt, _, h) =
          let x = sent_packet-IsNth (c + j) s small lt in
          (
            (λ same. n (sym is ∙ same ∙ keeps (sent_packet (c + j) s) ∙ x.number)),
            lane-apart c j r p rs small is ne h,
          )

      lane-Distinct :
          (c j : ℕ) (rs : List ℕ)
          → (c + j) * e.total + e.total < 2 ^ 64
          → Numbers e.total rs
          → Distinct (lane c rs j)
      lane-Distinct c j [] small h = tt
      lane-Distinct c j (r ∷ rs) small (lt, ne, h) =
          let x = sent_packet-IsNth (c + j) r small lt in
          (
            lane-apart c j r (round c r j) rs small (keeps (sent_packet (c + j) r) ∙ x.number) ne h,
            lane-Distinct c j rs small h,
          )

      -- The lists of `m` chunks from `c + i` on are restored.
      pub restore_all-lists_of :
          (c : ℕ) (rs : List ℕ) (i m ok err : ℕ)
          → Numbers e.total rs
          → e.parts ≤ length rs
          → (c + (i + m)) * e.total < 2 ^ 64
          → (chunks : List Chunk) × (ok' : ℕ) × (restore_all
                (restorer_of e ok err)
                (lists_of (λ j. replicate e.total none) (rounds c rs) i m)
              ≡ some (chunks, restorer_of e ok' err))
            × InTurn src (c + i) chunks
            × (length chunks ≡ m)
      unfolding restore_all
      restore_all-lists_of c rs i zero ok err h enough small = ([], ok, refl, tt, refl)
      restore_all-lists_of c rs i (suc m) ok err h enough small =
          let here = chunk_small e.total c (i + suc m) i (omega arith) small in
          let many : e.parts ≤ length (lane c rs i) = omega (
            arith,
            enough,
            length-map (λ (P : Round). P i) (rounds c rs),
            length-map (round c) rs,
          ) in
          let (chunk, restored, number, bytes) =
            restore-place e (c + i) (add64 (c + i) 1) ok err (src (c + i))
              (sent_packets e src (c + i)) (lane c rs i) v here (fits (c + i))
              (encode-sent_packets e src v fits (c + i) (small_number e src v fits (c + i) here))
              (lane-IsOneOf c i rs here h) (lane-Distinct c i rs here h) many in
          let (chunks, ok', rest, numbered, counted) =
            restore_all-lists_of c rs (i + 1) m (add64 ok 1) err h enough (
              subst (λ x. (c + x) * e.total < 2 ^ 64) {x = i + suc m} {y = i + 1 + m} (omega arith)
                small) in
          (
            chunk ∷ chunks,
            ok',
            rw (restored, restore_all, rest) refl,
            (
              number,
              bytes,
              subst (λ x. InTurn src x chunks) {x = c + (i + 1)} {y = c + i + 1} (omega arith)
                  numbered,
            ),
            ap suc counted,
          )

-- ===== src/Codec/Recovery/Spread/Lossless.antt =====
-- The rounds of src/codec/encoder.go that all arrive, as batches of src/codec/decoder.go.
use fec.Prelude.{
  ℕ, zero, suc, ◌+◌, ◌-◌, ◌*◌, ◌^◌, ◌≤◌, ◌<◌, ◌≡◌, ◌≢◌, refl, sym, ap, ap₂, ◌∙◌, List, [], ◌∷◌,
  ◌++◌, map, map-append, append_assoc, arith, length, get_elem?, All,
}
use fec.Codec.Packet.{PacketV2}
use fec.Codec.Encoder.{Coder}
use fec.Codec.Encoder.Dispatch.Interleave.{batch}
use fec.Codec.Decoder.Assembly.Bounds.{All-append}
use fec.Codec.Decoder.Assembly.Round.{Round, rounds_of}
use fec.Codec.Recovery.Restored.{IsCoder, Fits}
use fec.Codec.Recovery.Stream.{sent_packets}
use fec.Codec.Recovery.Stream.Delivery.{IsMade}
use fec.Codec.Recovery.Spread.Lines.{Heard, arrivals, split_small}
use fec.Codec.Recovery.Spread.Rounds.{Numbers, sent_packet, sent_packet-IsNth, chunk_small}
use fec.Codec.Recovery.Spread.Batches.{range}
use fec.Codec.Recovery.Spread.Sent.{sent_round}
use fec.Codec.Recovery.Spread.Dispatched.{rounds_from}
use fec.Codec.Recovery.Spread.Delivery.{AreSent, sent}

length-range : (r m : ℕ) → length (range r m) ≡ m
unfolding range
length-range r zero = refl
length-range r (suc m) = ap suc (length-range (r + 1) m)

range-append : (r m k : ℕ) → range r (m + k) ≡ range r m ++ range (r + m) k
unfolding range
range-append r zero k = ap₂ range {x = r} {y = r + 0} (omega arith) (omega arith)
range-append r (suc m) k =
    ap (range r) {x = suc m + k} {y = suc (m + k)} (omega arith)
    ∙ ap (λ xs. r ∷ xs) (range-append (r + 1) m k)
    ∙ ap (λ i. r ∷ (range (r + 1) m ++ range i k)) {x = r + 1 + m} {y = r + suc m} (omega arith)

range-apart : (r s m : ℕ) → r < s → All (λ x. r ≢ x) (range s m)
unfolding range
range-apart r s zero h = tt
range-apart r s (suc m) h = ((λ e. omega (arith, e)), range-apart r (s + 1) m (omega arith))

range-Numbers : (total r m : ℕ) → r + m ≤ total → Numbers total (range r m)
unfolding range
range-Numbers total r zero h = tt
range-Numbers total r (suc m) h = (
  omega arith,
  range-apart r (r + 1) m (omega arith),
  range-Numbers total (r + 1) m (omega arith),
)

rounds_of-append :
    (n : ℕ) (Ps Qs : List Round) → rounds_of n (Ps ++ Qs) ≡ rounds_of n Ps ++ rounds_of n Qs
rounds_of-append n [] Qs = refl
rounds_of-append n (P ∷ Ps) Qs =
    ap (λ xs. batch P 0 n ++ xs) (rounds_of-append n Ps Qs)
    ∙ sym (append_assoc (batch P 0 n) (rounds_of n Ps) (rounds_of n Qs))

module _ (sha1 : List ℕ → List ℕ) (sha1_len : (x : List ℕ) → length (sha1 x) ≡ 20) where
  module _ (e : Coder) (src : ℕ → List ℕ) (n : ℕ) where
    -- Of `k` batches from chunk `c` on all rounds come: enough of them, and the others behind.
    abbrev pub all_heard : ℕ → ℕ → List Heard
    all_heard c zero = []
    all_heard c (suc k) =
        record {
          numbers = range 0 e.parts;
          late = rounds_of n (map (sent_round e src c) (range e.parts (e.total - e.parts)));
        }
        ∷ all_heard (c + n) k

    pub length-all_heard : (c k : ℕ) → length (all_heard c k) ≡ k
    length-all_heard c zero = refl
    length-all_heard c (suc k) = ap suc (length-all_heard (c + n) k)

    -- A packet of one of `n` chunks from `c` on, that `encode` made.
    abbrev IsOurs : ℕ → PacketV2 → Type 0
    IsOurs c q = (q.csn < c + n) × IsMade sha1 sha1_len e src q.csn q

    module _ (v : IsCoder e) (fits : (k : ℕ) → Fits e (src k)) (few : e.total ≤ 2 ^ 32) where
      batch-IsOurs :
          (c r i m : ℕ)
          → i + m ≡ n
          → (c + n) * e.total < 2 ^ 64
          → r < e.total
          → All (IsOurs c) (batch (sent_round e src c r) i m)
      batch-IsOurs c r i zero is small lt = tt
      batch-IsOurs c r i (suc m) is small lt =
          let x =
            sent_packet-IsNth e src v fits few (c + i) r
              (chunk_small e.total c n i (omega arith) small) lt in
          let q = sent_packet e src (c + i) r in
          (
            (
              omega (arith, x.chunk),
              ap (λ k. get_elem? (sent_packets e src k) q.psn) x.chunk
                  ∙ ap (get_elem? (sent_packets e src (c + i))) x.number
                  ∙ x.found,
            ),
            batch-IsOurs c r (i + 1) m (omega arith) small lt,
          )

      rounds-IsOurs :
          (c r m : ℕ)
          → r + m ≤ e.total
          → (c + n) * e.total < 2 ^ 64
          → All (IsOurs c) (rounds_of n (map (sent_round e src c) (range r m)))
      unfolding range
      rounds-IsOurs c r zero h small = tt
      rounds-IsOurs c r (suc m) h small =
          All-append (IsOurs c) (batch (sent_round e src c r) 0 n)
            (rounds_of n (map (sent_round e src c) (range (r + 1) m)))
            (batch-IsOurs c r 0 n (omega arith) small (omega arith))
            (rounds-IsOurs c (r + 1) m (omega arith) small)

      both :
          (c : ℕ) (qs : List PacketV2)
          → All (IsOurs c) qs
          → All (λ q. q.csn < c + n) qs × All (λ q. IsMade sha1 sha1_len e src q.csn q) qs
      both c [] h = (tt, tt)
      both c (q ∷ qs) ((lt, at), h) = let (xs, ys) = both c qs h in ((lt, xs), (at, ys))

      pub all_heard-AreSent :
          (c k : ℕ)
          → (c + n * k) * e.total < 2 ^ 64
          → AreSent sha1 sha1_len e src n c (all_heard c k)
      all_heard-AreSent c zero small = tt
      all_heard-AreSent c (suc k) small =
          let (first, later) = split_small e.total c n k small in
          let (behind, made) =
            both c _
              (rounds-IsOurs c e.parts (e.total - e.parts) (omega (arith, v.enough)) first) in
          (
            record {
              heard = record {
                different = range-Numbers e.total 0 e.parts (omega (arith, v.enough));
                enough = length-range 0 e.parts;
                behind = behind;
              };
              made = made;
            },
            all_heard-AreSent (c + n) k later,
          )

      map-id : (qs : List PacketV2) → map (λ q. q) qs ≡ qs
      map-id [] = refl
      map-id (q ∷ qs) = ap (λ xs. q ∷ xs) (map-id qs)

      pub sent-all_heard :
          (c k : ℕ)
          → sent sha1 sha1_len e src n v fits few c (all_heard c k)
            ≡ rounds_from sha1 e src v fits n c k
      unfolding arrivals
      sent-all_heard c zero = refl
      sent-all_heard c (suc k) =
          let first = range 0 e.parts in
          let behind = range e.parts (e.total - e.parts) in
          let all : first ++ behind ≡ range 0 e.total =
            ap (λ r. first ++ range r (e.total - e.parts)) {x = e.parts} {y = 0 + e.parts}
              (omega arith)
            ∙ sym (range-append 0 e.parts (e.total - e.parts))
            ∙ ap (range 0) {x = e.parts + (e.total - e.parts)} {y = e.total}
                (omega (arith, v.enough)) in
          ap (λ xs. rounds_of n (map (sent_round e src c) first) ++ xs)
            (ap₂ (λ xs ys. xs ++ ys) (map-id (rounds_of n (map (sent_round e src c) behind)))
              (sent-all_heard (c + n) k))
          ∙ sym (
              append_assoc (rounds_of n (map (sent_round e src c) first))
                (rounds_of n (map (sent_round e src c) behind))
                (rounds_from sha1 e src v fits n (c + n) k))
          ∙ ap (λ xs. xs ++ rounds_from sha1 e src v fits n (c + n) k)
              (sym (
                  rounds_of-append n (map (sent_round e src c) first)
                    (map (sent_round e src c) behind))
                ∙ ap (rounds_of n) (
                    sym (map-append (sent_round e src c) first behind)
                    ∙ ap (map (sent_round e src c)) all))

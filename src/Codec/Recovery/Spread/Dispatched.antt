-- ===== src/Codec/Recovery/Spread/Dispatched.antt =====
-- The dispatcher of src/codec/encoder.go over the packets of many chunks: batch by batch, in
-- rounds.
use mathlib.Core.Path.{subst}
use fec.Prelude.{
  ℕ, zero, suc, ◌+◌, ◌*◌, ◌^◌, ◌<◌, ◌≡◌, inl, inr, refl, sym, ap, ap₂, ◌∙◌, Option, none, some,
  List, [], ◌∷◌, ◌++◌, map, map-append, append_assoc, arith, length, length-replicate, Option-cases,
  none≢some, some-injective,
}
use fec.Codec.Packet.{PacketV2, marshal}
use fec.Codec.Encoder.{Coder, Dispatcher}
use fec.Codec.Encoder.Dispatch.{dispatch, dispatch_all}
use fec.Codec.Encoder.Dispatch.Place.{packet_at}
use fec.Codec.Encoder.Dispatch.Interleave.{
  batch, marshalled, emptied, Filled, dispatch_all-interleaves, dispatch_all-waits,
}
use fec.Codec.Decoder.Assembly.Geometry.{line_fits}
use fec.Codec.Decoder.Assembly.Round.{rounds_of}
use fec.Codec.Recovery.Restored.{IsCoder, Fits}
use fec.Codec.Recovery.Stream.{sent_packets}
use fec.Codec.Recovery.Spread.Lines.{times_le}
use fec.Codec.Recovery.Spread.Batches.{range, marshalled-batch, batch-rounds_of}
use fec.Codec.Recovery.Spread.Sent.{
  chunks_from, packet_from, sent_round, packet_from-round, chunks_from-batch,
}

-- An empty dispatcher for chunks of `total` packets, whose sizes do not overflow.
pub record IsEmpty (d : Dispatcher) (total : ℕ) : Type 0 where
  pub per_chunk_is : d.per_chunk ≡ total
  pub count_is : d.count ≡ 0
  pub places : length d.slots ≡ d.chunks * d.per_chunk
  pub some_chunks : 0 < d.chunks
  pub some_packets : 0 < d.per_chunk
  pub sizes : d.chunks * (d.chunks * d.per_chunk) + d.chunks < 2 ^ 64

emptied-IsEmpty : (d : Dispatcher) (total : ℕ) → IsEmpty d total → IsEmpty (emptied d) total
emptied-IsEmpty d total i = record {
  per_chunk_is = i.per_chunk_is;
  count_is = refl;
  places = length-replicate {A = Option PacketV2} (d.chunks * d.per_chunk) none;
  some_chunks = i.some_chunks;
  some_packets = i.some_packets;
  sizes = i.sizes;
}

module _ (sha1 : List ℕ → List ℕ) where
  IsEmpty-Filled :
      (d : Dispatcher) (total : ℕ) (P : ℕ → PacketV2) → IsEmpty d total → Filled sha1 P d 0
  IsEmpty-Filled d total P i = record {
    some_chunks = i.some_chunks;
    some_packets = i.some_packets;
    fits = i.sizes;
    counted = i.count_is;
    places = i.places;
    taken = λ k lt. absurd (omega (arith, lt));
  }

  -- One sequence of packets behind another.
  dispatch_all-append :
      (d b c : Dispatcher) (xs ys : List PacketV2) (first later : List (List ℕ))
      → dispatch_all sha1 d xs ≡ some (first, b)
      → dispatch_all sha1 b ys ≡ some (later, c)
      → dispatch_all sha1 d (xs ++ ys) ≡ some (first ++ later, c)
  unfolding dispatch_all
  dispatch_all-append d b c [] ys first later e f = ground (arith, e, f)
  dispatch_all-append d b c (x ∷ xs) ys first later e f = elim (Option-cases (dispatch sha1 d x)) [
    | inl g ↦ absurd (none≢some (first, b) (sym (rw (g, dispatch_all) refl) ∙ e))
    | inr ((now, d'), g) ↦ elim (Option-cases (dispatch_all sha1 d' xs)) [
      | inl h ↦ absurd (none≢some (first, b) (sym (rw (g, dispatch_all, h) refl) ∙ e))
      | inr ((rest, b'), h) ↦
          let same : (now ++ rest, b') ≡ (first, b) =
            some-injective (now ++ rest, b') (first, b) (sym (rw (g, dispatch_all, h) refl) ∙ e) in
          let ih =
            dispatch_all-append d' b' c xs ys rest later h
              (ap (λ x. dispatch_all sha1 x ys) (ap (λ x. x.1) same) ∙ f) in
          rw (g, dispatch_all, ih)
            (ap (λ zs. some (zs, c))
              (sym (append_assoc now rest later) ∙ ap (λ x. x.0 ++ later) same))
    ]
  ]

  module _ (e : Coder) (src : ℕ → List ℕ) (v : IsCoder e) (fits : (n : ℕ) → Fits e (src n)) where
    -- All rounds of `k` batches of `n` chunks, from chunk `c` on.
    abbrev pub rounds_from : ℕ → ℕ → ℕ → List PacketV2
    rounds_from n c zero = []
    rounds_from n c (suc k) =
        rounds_of n (map (sent_round e src c) (range 0 e.total)) ++ rounds_from n (c + n) k

    chunks_from-append :
        (c m k : ℕ)
        → chunks_from e src c (m + k) ≡ chunks_from e src c m ++ chunks_from e src (c + m) k
    chunks_from-append c zero k =
        ap₂ (chunks_from e src) {x = c} {y = c + 0} (omega arith) (omega arith)
    chunks_from-append c (suc m) k =
        ap (chunks_from e src c) {x = suc m + k} {y = suc (m + k)} (omega arith)
        ∙ ap (λ xs. sent_packets e src c ++ xs) (chunks_from-append (c + 1) m k)
        ∙ ap (λ i. sent_packets e src c ++ (chunks_from e src (c + 1) m ++ chunks_from e src i k))
            {x = c + 1 + m} {y = c + suc m} (omega arith)
        ∙ sym (
            append_assoc (sent_packets e src c) (chunks_from e src (c + 1) m)
              (chunks_from e src (c + suc m) k))

    chunks_from-first :
        (c m : ℕ)
        → (c + m) * e.total < 2 ^ 64
        → chunks_from e src c m ≡ batch (packet_from e src c) 0 (m * e.total)
    chunks_from-first c m small =
        ap (λ k. chunks_from e src k m) {x = c} {y = c + 0} (omega arith)
        ∙ chunks_from-batch e src v fits c 0 m
            (subst (λ k. k * e.total < 2 ^ 64) {x = c + m} {y = c + 0 + m} (omega arith) small)
        ∙ ap (λ k. batch (packet_from e src c) k (m * e.total)) {x = 0 * e.total} {y = 0}
            (omega arith)

    dispatch_all-batch :
        (d : Dispatcher) (c : ℕ)
        → IsEmpty d e.total
        → (c + d.chunks) * e.total < 2 ^ 64
        → dispatch_all sha1 d (chunks_from e src c d.chunks)
          ≡ some (
            map (marshal sha1) (rounds_of d.chunks (map (sent_round e src c) (range 0 e.total))),
            emptied d,
          )
    dispatch_all-batch d c i small =
        let P = packet_from e src c in
        ap (dispatch_all sha1 d) (chunks_from-first c d.chunks small)
        ∙ ap (λ t. dispatch_all sha1 d (batch P 0 (d.chunks * t))) (sym i.per_chunk_is)
        ∙ dispatch_all-interleaves sha1 P d (IsEmpty-Filled d e.total P i)
        ∙ ap (λ t. some (marshalled sha1 P (packet_at d.chunks t) 0 (d.chunks * t), emptied d))
            i.per_chunk_is
        ∙ ap (λ xs. some (xs, emptied d))
            (marshalled-batch sha1 P (packet_at d.chunks e.total) 0 (d.chunks * e.total)
              ∙ ap
                  (λ k.
                    map (marshal sha1)
                      (batch (λ s. P (packet_at d.chunks e.total s)) k (d.chunks * e.total)))
                  {x = 0} {y = d.chunks * 0} (omega arith)
              ∙ ap (map (marshal sha1)) (
                  batch-rounds_of d.chunks e.total P (sent_round e src c)
                    (λ r j hr hj. packet_from-round e src v fits c r j hr) 0 e.total (omega arith)))

    -- Whole batches are sent, and what is left over waits.
    pub dispatch_all-batches :
        (k m c : ℕ) (d : Dispatcher)
        → IsEmpty d e.total
        → m < d.chunks
        → (c + (d.chunks * k + m)) * e.total < 2 ^ 64
        → (b : Dispatcher) × (dispatch_all sha1 d (chunks_from e src c (d.chunks * k + m))
            ≡ some (map (marshal sha1) (rounds_from d.chunks c k), b))
    dispatch_all-batches zero m c d i less small =
        let P = packet_from e src c in
        let (b, waits) =
          dispatch_all-waits sha1 P (m * e.total) 0 d (IsEmpty-Filled d e.total P i) (
            omega (
              arith,
              line_fits m d.chunks e.total less,
              ap (λ t. d.chunks * t) i.per_chunk_is,
              i.some_packets,
              i.per_chunk_is,
            )) in
        (
          b,
          ap (λ n. dispatch_all sha1 d (chunks_from e src c n)) {x = d.chunks * 0 + m} {y = m}
                (omega arith)
              ∙ ap (dispatch_all sha1 d) (
                  chunks_from-first c m (
                    subst (λ n. (c + n) * e.total < 2 ^ 64) {x = d.chunks * 0 + m} {y = m}
                      (omega arith) small))
              ∙ waits,
        )
    dispatch_all-batches (suc k) m c d i less small =
        let split : d.chunks * suc k + m ≡ d.chunks + (d.chunks * k + m) = grind arith in
        let all = subst (λ n. (c + n) * e.total < 2 ^ 64) split small in
        let first : (c + d.chunks) * e.total < 2 ^ 64 = omega (
          arith,
          all,
          times_le (c + d.chunks) (c + (d.chunks + (d.chunks * k + m))) e.total (omega arith),
        ) in
        let later : (c + d.chunks + (d.chunks * k + m)) * e.total < 2 ^ 64 =
          subst (λ n. n * e.total < 2 ^ 64) {x = c + (d.chunks + (d.chunks * k + m))}
            {y = c + d.chunks + (d.chunks * k + m)} (omega arith) all in
        let now = rounds_of d.chunks (map (sent_round e src c) (range 0 e.total)) in
        let (b, rest) =
          dispatch_all-batches k m (c + d.chunks) (emptied d) (emptied-IsEmpty d e.total i) less
            later in
        (
          b,
          ap (λ n. dispatch_all sha1 d (chunks_from e src c n)) split
              ∙ ap (dispatch_all sha1 d) (chunks_from-append c d.chunks (d.chunks * k + m))
              ∙ dispatch_all-append d (emptied d) b (chunks_from e src c d.chunks)
                  (chunks_from e src (c + d.chunks) (d.chunks * k + m)) (map (marshal sha1) now)
                  (map (marshal sha1) (rounds_from d.chunks (c + d.chunks) k))
                  (dispatch_all-batch d c i first) rest
              ∙ ap (λ xs. some (xs, b))
                  (sym (map-append (marshal sha1) now (rounds_from d.chunks (c + d.chunks) k))),
        )

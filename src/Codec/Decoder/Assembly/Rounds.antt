-- ===== src/Codec/Decoder/Assembly/Rounds.antt =====
-- The packets of several chunks, in rounds of one packet of each chunk, in `assembly` of
-- src/codec/decoder.go.
use fec.Prelude.{
  ℕ, ◌+◌, ◌≤◌, ◌<◌, ◌≡◌, ap, ◌∙◌, Option, none, some, List, [], ◌∷◌, append-nil, length, arith,
  replicate, All,
}
use fec.Codec.Packet.{PacketV2}
use fec.Codec.Encoder.Dispatch.Interleave.{batch}
use fec.Codec.Decoder.{Assembler}
use fec.Codec.Decoder.Assembly.{assemble_all}
use fec.Codec.Decoder.Assembly.Geometry.{Shape}
use fec.Codec.Decoder.Assembly.Step.{row}
use fec.Codec.Decoder.Assembly.Late.{assemble_all-append}
use fec.Codec.Decoder.Assembly.Round.{
  Round, rounds_of, lists_of, HasSizes, IsRound, Level, with_packet, grow_round, finish_round,
  lists_of-cons,
}

module _ (lines total parts c n : ℕ) (room : n ≤ lines) where
  -- All chunks have been sent.
  pub record Cleared (a : Assembler) : Type 0 where
    pub shape : Shape a
    pub sizes : HasSizes a lines total parts
    pub cleared : (j : ℕ) → j < n → row a (c + j) ≡ replicate a.total none
    pub last_is : a.last + 1 ≡ c + n

  -- From lines that hold `k` packets each: with the last round all chunks are sent, in order.
  pub collect_rounds :
      (a : Assembler) (k : ℕ) (cells : ℕ → List (Option PacketV2)) (P : Round) (rounds : List Round)
      → 0 < n
      → 2 ≤ parts
      → k + length (P ∷ rounds) ≡ parts
      → All (IsRound lines total parts c n room) (P ∷ rounds)
      → Shape a
      → Level lines total parts c n room a k cells
      → (b : Assembler) × (assemble_all a (rounds_of n (P ∷ rounds))
          ≡ some (lists_of cells (P ∷ rounds) 0 n, b))
        × Cleared b
  collect_rounds a k cells P [] some_chunks two full (h, tt) shape l =
      let (b, e, f) =
        finish_round lines total parts c n room k cells P h a 0 n (omega arith)
          (λ z. omega (arith, z)) (omega arith)
          record {
            shape = shape;
            sizes = l.sizes;
            cleared = λ j hj. absurd (omega (arith, hj));
            ahead = λ j hj lt. l.held j lt;
            last_is = λ pos. absurd (omega (arith, pos));
          } in
      (
        b,
        ap (assemble_all a) (append-nil (batch P 0 n)) ∙ e,
        record {
          shape = f.shape;
          sizes = f.sizes;
          cleared = f.cleared;
          last_is = f.last_is some_chunks;
        },
      )
  collect_rounds a k cells P (Q ∷ rounds) some_chunks two full (h, hs) shape l =
      let (b, e, g) =
        grow_round lines total parts c n room k cells P h a 0 n (omega arith) (omega arith) record {
          sizes = l.sizes;
          behind = λ j hj. absurd (omega (arith, hj));
          ahead = λ j hj lt. l.held j lt;
        } in
      let (d, e', done) =
        collect_rounds b (k + 1) (with_packet lines total parts c n room k cells P h) Q rounds
          some_chunks two (omega arith) hs (g.behind 0 some_chunks).shape
          (record { sizes = g.sizes; held = g.behind }) in
      (
        d,
        assemble_all-append a b d (batch P 0 n) (rounds_of n (Q ∷ rounds)) [] _ e e'
            ∙ ap (λ x. some (x, d))
                (lists_of-cons lines total parts c n room k cells P h (Q ∷ rounds) 0 n),
        done,
      )

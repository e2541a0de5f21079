-- ===== src/Codec/Decoder/Assembly/Interleaved.antt =====
-- A batch of interleaved chunks in `assembly` of src/codec/decoder.go, from one empty table to the
-- next.
use mathlib.Core.Path.{subst}
use fec.Prelude.{
  ℕ, zero, suc, ◌+◌, ◌≤◌, ◌<◌, ◌≡◌, refl, sym, ap, ◌∙◌, none, some, List, [], ◌∷◌, ◌++◌, append-nil,
  length, arith, replicate, All,
}
use fec.Codec.Packet.{PacketV2}
use fec.Codec.Encoder.Dispatch.Interleave.{batch}
use fec.Codec.Decoder.{Assembler}
use fec.Codec.Decoder.Assembly.{assemble_all}
use fec.Codec.Decoder.Assembly.Geometry.{IsPlaced}
use fec.Codec.Decoder.Assembly.Step.{row, Line}
use fec.Codec.Decoder.Assembly.Bounds.{All-append}
use fec.Codec.Decoder.Assembly.Separate.{Separate}
use fec.Codec.Decoder.Assembly.Sequence.{assemble_all-OfOneChunk}
use fec.Codec.Decoder.Assembly.Idle.{Idle, Idle-Separate, Idle-Ready, cleared-Idle}
use fec.Codec.Decoder.Assembly.Late.{assemble_all-late, assemble_all-append}
use fec.Codec.Decoder.Assembly.Round.{Round, rounds_of, lists_of, HasSizes, IsRound, Level}
use fec.Codec.Decoder.Assembly.Rounds.{collect_rounds}

-- An empty table of these sizes, whose last chunk was the one before `c`.
pub record Between (a : Assembler) (lines total parts c : ℕ) : Type 0 where
  pub idle : Idle a
  pub sizes : HasSizes a lines total parts
  pub last_is : a.last + 1 ≡ c

late-le :
    (m last : ℕ) (qs : List PacketV2)
    → last + 1 ≡ m
    → All (λ q. q.csn < m) qs
    → All (λ q. q.csn ≤ last) qs
late-le m last [] e h = tt
late-le m last (q ∷ qs) e (lt, h) = (omega (arith, e), late-le m last qs e h)

module _ (lines total parts c n : ℕ) (room : n ≤ lines) where
  -- One of the `n` chunks from `c` on.
  abbrev Mine : ℕ → Type 0
  Mine csn = (j : ℕ) × (j < n) × (csn ≡ c + j)

  batch-Mine :
      (P : Round) (i m : ℕ)
      → i + m ≡ n
      → IsRound lines total parts c n room P
      → All (λ q. IsPlaced total q × Mine q.csn) (batch P i m)
  batch-Mine P i zero e h = tt
  batch-Mine P i (suc m) e h =
      let f = h i (omega arith) in
      ((f.placed, (i, omega arith, f.same)), batch-Mine P (i + 1) m (omega arith) h)

  rounds-Mine :
      (rounds : List Round)
      → All (IsRound lines total parts c n room) rounds
      → All (λ q. IsPlaced total q × Mine q.csn) (rounds_of n rounds)
  rounds-Mine [] h = tt
  rounds-Mine (P ∷ rounds) (h, hs) =
      All-append (λ q. IsPlaced total q × Mine q.csn) (batch P 0 n) (rounds_of n rounds)
        (batch-Mine P 0 n (omega arith) h) (rounds-Mine rounds hs)

  Idle-Line :
      (a : Assembler) (csn : ℕ) → Idle a → a.last < csn → Line a csn 0 (replicate a.total none)
  Idle-Line a csn s fresh =
      let r = Idle-Ready a csn s fresh in
      record {
        shape = r.shape;
        count = r.free;
        owner = λ ne. absurd (ne refl);
        places = r.empty;
        fresh = r.fresh;
      }

  -- With at least two data shards and as many lines as chunks: to an empty table come as many
  -- rounds of packets of `n` chunks in a row as there are data shards. Then the chunks are sent in
  -- order, each with its packets, and the table is empty again; late packets of these chunks or of
  -- earlier ones are dropped.
  pub assemble_all-interleaved :
      (a : Assembler) (P : Round) (rounds : List Round) (late : List PacketV2)
      → 0 < n
      → 2 ≤ parts
      → length (P ∷ rounds) ≡ parts
      → Between a lines total parts c
      → All (IsRound lines total parts c n room) (P ∷ rounds)
      → All (λ q. q.csn < c + n) late
      → (b : Assembler) × (assemble_all a (rounds_of n (P ∷ rounds) ++ late)
          ≡ some (lists_of (λ j. replicate total none) (P ∷ rounds) 0 n, b))
        × Between b lines total parts (c + n)
  assemble_all-interleaved a P rounds late some_chunks two full s hs behind =
      let level : Level lines total parts c n room a 0 (λ j. replicate total none) = record {
        sizes = s.sizes;
        held = λ j hj.
            subst (λ t. Line a (c + j) 0 (replicate t none)) s.sizes.total_is
              (Idle-Line a (c + j) s.idle (omega (arith, s.last_is)));
      } in
      let (b, e, d) =
        collect_rounds lines total parts c n room a 0 (λ j. replicate total none) P rounds
          some_chunks two (omega arith) hs s.idle.shape level in
      let (_, b', again, separate, _) =
        assemble_all-OfOneChunk (λ q. Mine q.csn) a (rounds_of n (P ∷ rounds))
          (Idle-Separate (λ q. Mine q.csn) a s.idle)
          (rw s.sizes.total_is (rounds-Mine (P ∷ rounds) hs)) in
      let equal : b' ≡ b = ap (λ r. elim r [ none ↦ b' | some (x, y) ↦ y ]) (sym again ∙ e) in
      let idle =
        cleared-Idle b Mine d.shape (λ csn (j, hj, same). ap (row b) same ∙ d.cleared j hj)
          (subst (Separate (λ q. Mine q.csn)) equal separate) in
      let lists = lists_of (λ j. replicate total none) (P ∷ rounds) 0 n in
      let (z, dropped, r) =
        assemble_all-late b late idle (late-le (c + n) b.last late d.last_is behind) in
      (
        z,
        assemble_all-append a b z (rounds_of n (P ∷ rounds)) late lists [] e dropped
            ∙ ap (λ x. some (x, z)) (append-nil lists),
        record {
          idle = r.idle;
          sizes = record {
            lines_is = r.same_lines ∙ d.sizes.lines_is;
            total_is = r.same_total ∙ d.sizes.total_is;
            parts_is = r.same_parts ∙ d.sizes.parts_is;
          };
          last_is = ap (λ x. x + 1) r.same_last ∙ d.last_is;
        },
      )

-- ===== src/Codec/Decoder/Assembly/Round.antt =====
-- A round of one packet of each of several chunks, in `assembly` of src/codec/decoder.go.
use mathlib.Core.Path.{subst}
use native.Mathlib.Nat.{div-add-mod}
use fec.Prelude.{
  ℕ, zero, suc, ◌+◌, ◌*◌, ◌/◌, ◌%◌, ◌≤◌, ◌<◌, ◌≡◌, ◌≢◌, refl, sym, ap, ◌∙◌, Option, none, some,
  List, [], ◌∷◌, ◌++◌, map, arith, dec_lt, ℕ_discrete, set, replicate,
}
use fec.Codec.Packet.{PacketV2}
use fec.Codec.Encoder.Dispatch.Interleave.{batch}
use fec.Codec.Decoder.{Assembler}
use fec.Codec.Decoder.Assembly.{assemble_all}
use fec.Codec.Decoder.Assembly.Geometry.{Shape, line_fits}
use fec.Codec.Decoder.Assembly.Step.{row, Line, IsFor}
use fec.Codec.Decoder.Assembly.Collect.{place, assemble_all-cons}
use fec.Codec.Decoder.Assembly.Frame.{Grows, Spares, IsElsewhere, Line-Spares, grows, completes}

-- Chunks that follow one another have different lines, if there are as many lines.
other_line : (l c i j : ℕ) → i < l → j < l → i ≢ j → (c + i) % l ≢ (c + j) % l
other_line l c i j hi hj ne e = elim (dec_lt ((c + i) / l) ((c + j) / l)) [
  | yes lt ↦ absurd (
      omega (
        arith,
        e,
        div-add-mod (c + i) l,
        div-add-mod (c + j) l,
        line_fits ((c + i) / l) ((c + j) / l) l lt,
      ))
  | no ge ↦ elim (dec_lt ((c + j) / l) ((c + i) / l)) [
    | yes lt ↦ absurd (
        omega (
          arith,
          e,
          div-add-mod (c + i) l,
          div-add-mod (c + j) l,
          line_fits ((c + j) / l) ((c + i) / l) l lt,
        ))
    | no le ↦
        let same : (c + i) / l ≡ (c + j) / l = omega (arith, ge, le) in
        ne (omega (arith, e, div-add-mod (c + i) l, div-add-mod (c + j) l, ap (λ x. l * x) same))
  ]
]

-- A round is one packet for each of `n` chunks, by its place among them.
abbrev pub Round : Type 0
Round = ℕ → PacketV2

abbrev pub rounds_of : ℕ → List Round → List PacketV2
rounds_of n [] = []
rounds_of n (P ∷ rounds) = batch P 0 n ++ rounds_of n rounds

-- The places of chunk `i` after the rounds.
abbrev pub cells_of : (ℕ → List (Option PacketV2)) → List Round → ℕ → List (Option PacketV2)
cells_of cells rounds i = place (map (λ (P : Round). P i) rounds) (cells i)

-- Those of `m` chunks from `i` on.
abbrev pub lists_of :
    (ℕ → List (Option PacketV2)) → List Round → ℕ → ℕ → List (List (Option PacketV2))
lists_of cells rounds i zero = []
lists_of cells rounds i (suc m) = cells_of cells rounds i ∷ lists_of cells rounds (i + 1) m

-- The numbers of an assembler that no packet changes.
pub record HasSizes (a : Assembler) (lines total parts : ℕ) : Type 0 where
  pub lines_is : a.lines ≡ lines
  pub total_is : a.total ≡ total
  pub parts_is : a.parts ≡ parts

Spares-HasSizes :
    (a b : Assembler) (csn lines total parts : ℕ)
    → Spares a b csn
    → HasSizes a lines total parts
    → HasSizes b lines total parts
Spares-HasSizes a b csn lines total parts s h = record {
  lines_is = s.lines_kept ∙ h.lines_is;
  total_is = s.total_kept ∙ h.total_is;
  parts_is = s.parts_kept ∙ h.parts_is;
}

module _ (lines total parts c n : ℕ) (room : n ≤ lines) where
  elsewhere :
      (a : Assembler) (i j : ℕ)
      → HasSizes a lines total parts
      → i < n
      → j < n
      → i ≢ j
      → IsElsewhere a (c + i) (c + j)
  elsewhere a i j h hi hj ne =
      other_line a.lines c i j (omega (arith, h.lines_is)) (omega (arith, h.lines_is)) ne

  -- A packet for each chunk.
  abbrev pub IsRound : Round → Type 0
  IsRound P = (j : ℕ) → j < n → IsFor total (c + j) (P j)

  -- All lines hold `k` packets.
  pub record Level (a : Assembler) (k : ℕ) (cells : ℕ → List (Option PacketV2)) : Type 0 where
    pub sizes : HasSizes a lines total parts
    pub held : (j : ℕ) → j < n → Line a (c + j) k (cells j)

  module _ (k : ℕ) (cells : ℕ → List (Option PacketV2)) (P : Round) (h : IsRound P) where
    abbrev pub with_packet : ℕ → List (Option PacketV2)
    with_packet j = set (cells j) (P j).psn (some (P j))

    -- The first `i` packets of the round have come.
    pub record Growing (a : Assembler) (i : ℕ) : Type 0 where
      pub sizes : HasSizes a lines total parts
      pub behind : (j : ℕ) → j < i → Line a (c + j) (k + 1) (with_packet j)
      pub ahead : (j : ℕ) → i ≤ j → j < n → Line a (c + j) k (cells j)

    kept-Line :
        (a : Assembler) (i j k' : ℕ) (cells' : List (Option PacketV2))
        → i < n
        → j < n
        → j ≢ i
        → HasSizes a lines total parts
        → (g : Grows a (c + i) k (cells i) (P i)) → Line a (c + j) k' cells'
        → Line g.next (c + j) k' cells'
    kept-Line a i j k' cells' hi hj ne h g l =
        Line-Spares a g.next (c + i) (c + j) k' cells' g.spares
          (elsewhere a i j h hi hj (λ e. ne (sym e))) g.line.shape
          (omega (arith, g.last_kept, l.fresh)) l

    pub grow_round :
        (a : Assembler) (i m : ℕ)
        → i + m ≡ n
        → k + 1 < parts
        → Growing a i
        → (b : Assembler) × (assemble_all a (batch P i m) ≡ some ([], b)) × Growing b n
    unfolding assemble_all
    grow_round a i zero e less g = (a, refl, subst (Growing a) {x = i} {y = n} (omega arith) g)
    grow_round a i (suc m) e less g =
        let hi : i < n = omega arith in
        let g' =
          grows a (c + i) k (cells i) (P i) (g.ahead i (omega arith) hi)
            (subst (λ t. IsFor t (c + i) (P i)) (sym g.sizes.total_is) (h i hi))
            (omega (arith, g.sizes.parts_is)) in
        let (b, rest, grown) = grow_round g'.next (i + 1) m (omega arith) less record {
          sizes = Spares-HasSizes a g'.next (c + i) lines total parts g'.spares g.sizes;
          behind = λ j hj. elim (ℕ_discrete j i) [
            | yes p ↦ subst (λ x. Line g'.next (c + x) (k + 1) (with_packet x)) (sym p) g'.line
            | no ne ↦
                kept-Line a i j (k + 1) (with_packet j) hi (omega (arith, ne)) ne g.sizes g'
                  (g.behind j (omega (arith, ne)))
          ];
          ahead = λ j hj lt.
              kept-Line a i j k (cells j) hi lt (λ e. omega (arith, e)) g.sizes g'
                (g.ahead j (omega arith) lt);
        } in
        (b, assemble_all-cons a g'.next b (P i) (batch P (i + 1) m) [] [] g'.returns rest, grown)

    -- The first `i` chunks of the round have been sent.
    pub record Finishing (a : Assembler) (i : ℕ) : Type 0 where
      pub shape : Shape a
      pub sizes : HasSizes a lines total parts
      pub cleared : (j : ℕ) → j < i → row a (c + j) ≡ replicate a.total none
      pub ahead : (j : ℕ) → i ≤ j → j < n → Line a (c + j) k (cells j)
      pub last_is : 0 < i → a.last + 1 ≡ c + i

    pub finish_round :
        (a : Assembler) (i m : ℕ)
        → i + m ≡ n
        → k ≢ 0
        → k + 1 ≡ parts
        → Finishing a i
        → (b : Assembler) × (assemble_all a (batch P i m) ≡ some (lists_of cells (P ∷ []) i m, b))
          × Finishing b n
    unfolding assemble_all place
    finish_round a i zero e ne full g =
        (a, refl, subst (Finishing a) {x = i} {y = n} (omega arith) g)
    finish_round a i (suc m) e ne full g =
        let hi : i < n = omega arith in
        let g' =
          completes a (c + i) k (cells i) (P i) (g.ahead i (omega arith) hi)
            (subst (λ t. IsFor t (c + i) (P i)) (sym g.sizes.total_is) (h i hi)) ne
            (omega (arith, g.sizes.parts_is)) in
        let (b, rest, finished) = finish_round g'.next (i + 1) m (omega arith) ne full record {
          shape = g'.done.shape;
          sizes = Spares-HasSizes a g'.next (c + i) lines total parts g'.spares g.sizes;
          cleared = λ j hj. elim (ℕ_discrete j i) [
            | yes p ↦
                subst (λ x. row g'.next (c + x) ≡ replicate g'.next.total none) (sym p)
                  g'.done.empty
            | no other ↦
                g'.spares.rows (c + j)
                  (elsewhere a i j g.sizes hi (omega (arith, other)) (λ e. other (sym e)))
                ∙ g.cleared j (omega (arith, other))
                ∙ ap (λ t. replicate t none) (sym g'.done.total_kept)
          ];
          ahead = λ j hj lt.
              let l = g.ahead j (omega arith) lt in
              Line-Spares a g'.next (c + i) (c + j) k (cells j) g'.spares
                (elsewhere a i j g.sizes hi lt (λ e. omega (arith, e))) g'.done.shape
                (omega (arith, g'.done.last_csn, hj)) l;
          last_is = λ pos. omega (arith, g'.done.last_csn);
        } in
        (
          b,
          assemble_all-cons a g'.next b (P i) (batch P (i + 1) m) (with_packet i ∷ [])
              (lists_of cells (P ∷ []) (i + 1) m) g'.returns rest,
          finished,
        )

    pub lists_of-cons :
        (rounds : List Round) (i m : ℕ)
        → lists_of with_packet rounds i m ≡ lists_of cells (P ∷ rounds) i m
    unfolding place
    lists_of-cons rounds i zero = refl
    lists_of-cons rounds i (suc m) =
        ap (λ xs. cells_of cells (P ∷ rounds) i ∷ xs) (lists_of-cons rounds (i + 1) m)

-- ===== src/Codec/Decoder/Assembly/Idle.antt =====
-- The packet table of src/codec/decoder.go between two chunks: it is empty.
use native.Mathlib.Nat.{div-add-mod, mod-lt}
use fec.Prelude.{
  ℕ, zero, suc, ◌+◌, ◌*◌, ◌/◌, ◌%◌, ◌≤◌, ◌<◌, ◌≡◌, inl, inr, refl, sym, ap, ◌∙◌, Option, none, some,
  List, [], ◌∷◌, arith, none≢some, Option-cases, length, length-slice, get_or, get_or-replicate,
  replicate, dec_lt,
}
use fec.Codec.Packet.{PacketV2}
use fec.Codec.Decoder.{Assembler}
use fec.Codec.Decoder.Assembly.Geometry.{Shape, line_start, line_fits}
use fec.Codec.Decoder.Assembly.Cells.{get_or-slice, get_or_outside}
use fec.Codec.Decoder.Assembly.Step.{row}
use fec.Codec.Decoder.Assembly.Collect.{Done, Ready}
use fec.Codec.Decoder.Assembly.Separate.{Separate}

pub record Idle (a : Assembler) : Type 0 where
  pub shape : Shape a
  pub free : (j : ℕ) → get_or a.found j 0 ≡ 0
  pub empty : (k : ℕ) → get_or a.packets k none ≡ none

rows-le : (m n t : ℕ) → m ≤ n → m * t ≤ n * t
rows-le m n t h = grind arith

-- Nothing is known of no packets.
pub Idle-Separate : (Keep : PacketV2 → Type 0) (a : Assembler) → Idle a → Separate Keep a
Idle-Separate Keep a s =
    let nothing : (k : ℕ) (q : PacketV2) → get_or a.packets k none ≡ some q → ⊥ =
      λ k q e. none≢some q (sym (s.empty k) ∙ e) in
    record {
      shape = s.shape;
      few = λ j. omega (arith, s.free j);
      busy = λ j i q hj hi e. absurd (nothing (j * a.total + i) q e);
      owned = λ j i q hj hi e. absurd (nothing (j * a.total + i) q e);
      in_line = λ j i q hj hi e. absurd (nothing (j * a.total + i) q e);
      holds = λ j hj h. absurd (omega (arith, h, s.free j));
    }

all_none :
    (n : ℕ) (xs : List (Option PacketV2))
    → length xs ≡ n
    → ((i : ℕ) → i < n → get_or xs i none ≡ none)
    → xs ≡ replicate n none
unfolding replicate
all_none zero [] len h = refl
all_none zero (x ∷ xs) len h = absurd (omega arith)
all_none (suc n) [] len h = absurd (omega arith)
all_none (suc n) (x ∷ xs) len h =
    ap (λ y. y ∷ xs) (h 0 (omega arith))
    ∙ ap (λ ys. none ∷ ys) (all_none n xs (omega arith) (λ i lt. h (suc i) (omega arith)))

module _ (a : Assembler) (s : Shape a) (csn : ℕ) where
  row_inside : line_start a csn + a.total ≤ length a.packets
  row_inside = omega (
    arith,
    s.sized,
    s.packets_len,
    line_fits (csn % a.lines) a.lines a.total (mod-lt csn s.some_lines),
  )

  length-row : length (row a csn) ≡ a.total
  length-row =
      length-slice a.packets (line_start a csn) (line_start a csn + a.total) (omega arith)
        row_inside
      ∙ omega arith

-- An empty table is ready for any chunk behind the last.
pub Idle-Ready : (a : Assembler) (csn : ℕ) → Idle a → a.last < csn → Ready a csn
Idle-Ready a csn s h = record {
  shape = s.shape;
  free = s.free (csn % a.lines);
  empty = all_none a.total (row a csn) (length-row a s.shape csn) (λ i lt.
      get_or-slice a.packets (line_start a csn) a.total i none lt ∙ s.empty (line_start a csn + i));
  fresh = h;
}

abbrev pub IsOfChunk : ℕ → PacketV2 → Type 0
IsOfChunk csn q = q.csn ≡ csn

module _ (b : Assembler) (Mine : ℕ → Type 0) (shape : Shape b)
    (cleared : (csn : ℕ) → Mine csn → row b csn ≡ replicate b.total none)
    (s : Separate (λ q. Mine q.csn) b) where
  none_left :
      (j i : ℕ) (q : PacketV2)
      → j < b.lines
      → i < b.total
      → get_or b.packets (j * b.total + i) none ≡ some q
      → ⊥
  none_left j i q hj hi e =
      let (_, _, mine) = s.owned j i q hj hi e in
      none≢some q (
        sym (get_or-replicate b.total i none)
        ∙ ap (λ xs. get_or xs i none) (sym (cleared q.csn mine))
        ∙ get_or-slice b.packets (line_start b q.csn) b.total i none hi
        ∙ ap (λ k. get_or b.packets (k * b.total + i) none) (s.in_line j i q hj hi e)
        ∙ e)

  nothing_left : (k : ℕ) → get_or b.packets k none ≡ none
  nothing_left k = elim (Option-cases (get_or b.packets k none)) [
    | inl e ↦ e
    | inr (q, e) ↦ elim (dec_lt k (length b.packets)) [
      | no out ↦ get_or_outside b.packets k none (omega (arith, out))
      | yes inside ↦
          let split : k / b.total * b.total + k % b.total ≡ k =
            omega (arith, div-add-mod k b.total) in
          let line : k / b.total < b.lines = elim (dec_lt (k / b.total) b.lines) [
            | yes lt ↦ lt
            | no ge ↦ absurd (
                omega (
                  arith,
                  split,
                  inside,
                  shape.packets_len,
                  shape.sized,
                  rows-le b.lines (k / b.total) b.total (omega (arith, ge)),
                ))
          ] in
          absurd (
            none_left (k / b.total) (k % b.total) q line (mod-lt k shape.some_packets)
              (ap (λ x. get_or b.packets x none) split ∙ e))
    ]
  ]

  -- A table with packets of some chunks, whose lines are empty, is empty.
  pub cleared-Idle : Idle b
  cleared-Idle = record {
    shape = shape;
    free = λ j. elim (dec_lt 0 (get_or b.found j 0)) [
      | no z ↦ omega (arith, z)
      | yes pos ↦ elim (dec_lt j b.lines) [
        | no out ↦ get_or_outside b.found j 0 (omega (arith, out, shape.found_len))
        | yes hj ↦ let (i, q, hi, e) = s.holds j hj pos in absurd (none_left j i q hj hi e)
      ]
    ];
    empty = nothing_left;
  }

-- After a chunk was sent, the table is empty.
pub Done-Idle : (a b : Assembler) (csn : ℕ) → Done a b csn → Separate (IsOfChunk csn) b → Idle b
Done-Idle a b csn d s = cleared-Idle b (λ c. c ≡ csn) d.shape (λ c e. ap (row b) e ∙ d.empty) s

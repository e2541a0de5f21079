-- ===== src/Codec/Decoder/Assembly/Collect.antt =====
-- The packets of one chunk, one after the other, in `assembly` of src/codec/decoder.go.
use mathlib.Core.Path.{subst}
use fec.Prelude.{
  ℕ, ◌+◌, ◌%◌, ◌≤◌, ◌<◌, ◌≡◌, refl, sym, ◌∙◌, Option, none, some, List, [], ◌∷◌, ◌++◌, arith,
  length, get_or, set, replicate, All,
}
use fec.Codec.Packet.{PacketV2}
use fec.Codec.Decoder.{Assembler}
use fec.Codec.Decoder.Assembly.{Assembled, new_line, assemble, assemble_all}
use fec.Codec.Decoder.Assembly.Geometry.{Shape}
use fec.Codec.Decoder.Assembly.Step.{
  row, Line, IsFor, assemble-store, store-new_line, store-push_packet, joined, sent_off,
  push_packet-joined, push_packet-sent_off,
}

-- The places of a line after the packets.
unfoldable pub place : List PacketV2 → List (Option PacketV2) → List (Option PacketV2)
place [] cells = cells
place (p ∷ ps) cells = place ps (set cells p.psn (some p))

-- The line of chunk `csn` is free and empty, and chunk `csn` has been sent.
pub record Done (a b : Assembler) (csn : ℕ) : Type 0 where
  pub shape : Shape b
  pub lines_kept : b.lines ≡ a.lines
  pub total_kept : b.total ≡ a.total
  pub parts_kept : b.parts ≡ a.parts
  pub last_csn : b.last ≡ csn
  pub free : get_or b.found (csn % b.lines) 0 ≡ 0
  pub empty : row b csn ≡ replicate b.total none

-- One list of cells is sent, and the assembler is done with the chunk.
abbrev pub Collects : Assembler → ℕ → List (Option PacketV2) → Assembled → Type 0
Collects a csn cells r = (b : Assembler) × (r ≡ some (cells ∷ [], b)) × Done a b csn

pub assemble_all-cons :
    (a a' b : Assembler) (p : PacketV2) (ps : List PacketV2)
    (sent later : List (List (Option PacketV2)))
    → assemble a (some p) ≡ some (sent, a')
    → assemble_all a' ps ≡ some (later, b)
    → assemble_all a (p ∷ ps) ≡ some (sent ++ later, b)
unfolding assemble_all
assemble_all-cons a a' b p ps sent later e h = rw (e, h, assemble_all) refl

assemble_all-nil : (a : Assembler) → assemble_all a [] ≡ some ([], a)
unfolding assemble_all
assemble_all-nil a = refl

module _ (a : Assembler) (csn k : ℕ) (cells : List (Option PacketV2)) (p : PacketV2) where
  module _ (l : Line a csn k cells) (ne : k ≡ 0 → ⊥) (f : IsFor a.total csn p) where
    here : Line a p.csn k cells
    here = subst (λ c. Line a c k cells) (sym f.same) l

    pub assemble-joined : k + 1 < a.parts → assemble a (some p) ≡ some ([], joined a k cells p)
    assemble-joined less =
        assemble-store a csn k cells p l f
        ∙ store-push_packet a k cells p here f.placed ne
        ∙ (push_packet-joined a k cells p here f.placed less).0

    pub joined-Line :
        k + 1 < a.parts → Line (joined a k cells p) csn (k + 1) (set cells p.psn (some p))
    joined-Line less =
        subst (λ c. Line (joined a k cells p) c (k + 1) (set cells p.psn (some p))) f.same
          ((push_packet-joined a k cells p here f.placed less).1 ne)

    pub assemble-sent_off :
        k + 1 ≡ a.parts → Collects a csn (set cells p.psn (some p)) (assemble a (some p))
    unfolding sent_off
    assemble-sent_off full =
        let (e, empty, shape, free) = push_packet-sent_off a k cells p here f.placed full in
        (
          sent_off a k cells p,
          assemble-store a csn k cells p l f ∙ store-push_packet a k cells p here f.placed ne ∙ e,
          record {
            shape = shape;
            lines_kept = refl;
            total_kept = refl;
            parts_kept = refl;
            last_csn = f.same;
            free = subst (λ c. get_or (sent_off a k cells p).found (c % a.lines) 0 ≡ 0) f.same free;
            empty = subst (λ c. row (sent_off a k cells p) c ≡ replicate a.total none) f.same empty;
          },
        )

-- From a line that holds some packets.
assemble_all-Collects :
    (a : Assembler) (csn k : ℕ) (cells : List (Option PacketV2)) (p : PacketV2) (ps : List PacketV2)
    → Line a csn k cells
    → (k ≡ 0 → ⊥)
    → All (IsFor a.total csn) (p ∷ ps)
    → k + length (p ∷ ps) ≡ a.parts
    → Collects a csn (place (p ∷ ps) cells) (assemble_all a (p ∷ ps))
unfolding place joined
assemble_all-Collects a csn k cells p [] l ne (f, fs) full =
    let (b, e, done) = assemble-sent_off a csn k cells p l ne f (omega arith) in
    (
      b,
      assemble_all-cons a b b p [] (set cells p.psn (some p) ∷ []) [] e (assemble_all-nil b),
      done,
    )
assemble_all-Collects a csn k cells p (p' ∷ ps) l ne (f, fs) full =
    let less : k + 1 < a.parts = omega arith in
    let a' = joined a k cells p in
    let (b, e, done) =
      assemble_all-Collects a' csn (k + 1) (set cells p.psn (some p)) p' ps
        (joined-Line a csn k cells p l ne f less) (λ z. omega arith) fs (omega arith) in
    (
      b,
      assemble_all-cons a a' b p (p' ∷ ps) [] _ (assemble-joined a csn k cells p l ne f less) e,
      record {
        shape = done.shape;
        lines_kept = done.lines_kept;
        total_kept = done.total_kept;
        parts_kept = done.parts_kept;
        last_csn = done.last_csn;
        free = done.free;
        empty = done.empty;
      },
    )

-- The table has its sizes, the line of chunk `csn` is free and empty, and no chunk from this one on
-- has been sent or dropped.
pub record Ready (a : Assembler) (csn : ℕ) : Type 0 where
  pub shape : Shape a
  pub free : get_or a.found (csn % a.lines) 0 ≡ 0
  pub empty : row a csn ≡ replicate a.total none
  pub fresh : a.last < csn

-- With at least two data shards: as many packets of one chunk as there are data shards, each with a
-- place, come to an assembler that is ready for the chunk. Then the last of them sends the chunk's
-- places, filled with these packets, and nothing else is sent; afterwards the line is free and
-- empty again and `last` is the chunk.
pub assemble_all_lem :
    (a : Assembler) (csn : ℕ) (ps : List PacketV2)
    → Ready a csn
    → All (IsFor a.total csn) ps
    → 2 ≤ a.parts
    → length ps ≡ a.parts
    → (b : Assembler) × (assemble_all a ps ≡ some (place ps (replicate a.total none) ∷ [], b))
      × Done a b csn
unfolding place new_line
assemble_all_lem a csn [] r fs two full = absurd (omega arith)
assemble_all_lem a csn (p ∷ []) r fs two full = absurd (omega arith)
assemble_all_lem a csn (p ∷ p' ∷ ps) r (f, fs) two full =
    let l : Line a csn 0 (replicate a.total none) = record {
      shape = r.shape;
      count = r.free;
      owner = λ ne. absurd (ne refl);
      places = r.empty;
      fresh = r.fresh;
    } in
    let l' = subst (λ c. Line a c 0 (replicate a.total none)) (sym f.same) l in
    let (e, begun) = store-new_line a 0 (replicate a.total none) p l' f.placed refl in
    let cells = set (replicate a.total none) p.psn (some p) in
    let (b, sent, done) =
      assemble_all-Collects (new_line a p) csn 1 cells p' ps
        (subst (λ c. Line (new_line a p) c 1 cells) f.same begun) (λ z. omega arith) fs
        (omega arith) in
    (
      b,
      assemble_all-cons a (new_line a p) b p (p' ∷ ps) [] _ (assemble-store a csn 0 _ p l f ∙ e)
          sent,
      record {
        shape = done.shape;
        lines_kept = done.lines_kept;
        total_kept = done.total_kept;
        parts_kept = done.parts_kept;
        last_csn = done.last_csn;
        free = done.free;
        empty = done.empty;
      },
    )

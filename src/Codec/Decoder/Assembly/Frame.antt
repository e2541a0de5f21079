-- ===== src/Codec/Decoder/Assembly/Frame.antt =====
-- One packet in `assembly` of src/codec/decoder.go, as the lines of the other chunks see it: not at
-- all.
use mathlib.Core.Path.{subst}
use fec.Prelude.{
  ℕ, ◌+◌, ◌*◌, ◌%◌, ◌≤◌, ◌<◌, ◌≡◌, ◌≢◌, ◌⊎◌, inl, inr, refl, sym, ap, ◌∙◌, Option, none, some, List,
  [], ◌∷◌, arith, dec_lt, ℕ_discrete, get_or, get_or-set_ne, set, slice,
}
use fec.Codec.Packet.{PacketV2}
use fec.Codec.Decoder.{Assembler}
use fec.Codec.Decoder.Assembly.{at_chunk, at_packet, clear_line, new_line, assemble}
use fec.Codec.Decoder.Assembly.Geometry.{Shape, IsPlaced, line_start, line_fits, at_packet-eq}
use fec.Codec.Decoder.Assembly.Rows.{slice-set_ne, slice-clear_from_ne}
use fec.Codec.Decoder.Assembly.Step.{
  row, Line, IsFor, assemble-store, store-new_line, store-push_packet, joined, sent_off,
  push_packet-sent_off, clear_line-eq,
}
use fec.Codec.Decoder.Assembly.Collect.{Done, assemble-sent_off, assemble-joined, joined-Line}

-- A place of line `j` is outside line `k`, and so is the whole line.
outside_line : (t j k i : ℕ) → j ≢ k → i < t → (j * t + i < k * t) ⊎ (k * t + t ≤ j * t + i)
outside_line t j k i ne hi = elim (dec_lt j k) [
  | yes lt ↦ inl (omega (arith, line_fits j k t lt))
  | no ge ↦ inr (omega (arith, line_fits k j t (omega (arith, ne, ge))))
]

whole_outside : (t j k : ℕ) → j ≢ k → (j * t + t ≤ k * t) ⊎ (k * t + t ≤ j * t)
whole_outside t j k ne = elim (dec_lt j k) [
  | yes lt ↦ inl (line_fits j k t lt)
  | no ge ↦ inr (line_fits k j t (omega (arith, ne, ge)))
]

-- The line of chunk `c` is another than that of chunk `csn`.
abbrev pub IsElsewhere : Assembler → ℕ → ℕ → Type 0
IsElsewhere a csn c = csn % a.lines ≢ c % a.lines

-- Nothing changes in the lines of other chunks than `csn`.
pub record Spares (a b : Assembler) (csn : ℕ) : Type 0 where
  pub lines_kept : b.lines ≡ a.lines
  pub total_kept : b.total ≡ a.total
  pub parts_kept : b.parts ≡ a.parts
  pub rows : (c : ℕ) → IsElsewhere a csn c → row b c ≡ row a c
  pub counts :
      (c : ℕ)
      → IsElsewhere a csn c
      → get_or b.found (c % b.lines) 0 ≡ get_or a.found (c % a.lines) 0
  pub owners :
      (c : ℕ) → IsElsewhere a csn c → get_or b.csn (c % b.lines) 0 ≡ get_or a.csn (c % a.lines) 0

pub Line-Spares :
    (a b : Assembler) (csn c k : ℕ) (cells : List (Option PacketV2))
    → Spares a b csn
    → IsElsewhere a csn c
    → Shape b
    → b.last < c
    → Line a c k cells
    → Line b c k cells
Line-Spares a b csn c k cells s other shape fresh l = record {
  shape = shape;
  count = s.counts c other ∙ l.count;
  owner = λ ne. s.owners c other ∙ l.owner ne;
  places = s.rows c other ∙ l.places;
  fresh = fresh;
}

module _ (a : Assembler) (p : PacketV2) (s : Shape a) (v : IsPlaced a.total p) where
  row-set_ne :
      (xs : List (Option PacketV2)) (x : Option PacketV2) (c : ℕ)
      → IsElsewhere a p.csn c
      → slice (set xs (at_packet a p) x) (line_start a c) (line_start a c + a.total)
        ≡ slice xs (line_start a c) (line_start a c + a.total)
  row-set_ne xs x c other = slice-set_ne xs (line_start a c) a.total (at_packet a p) x (
      rw (at_packet-eq a p s v)
        (outside_line a.total (p.csn % a.lines) (c % a.lines) p.psn other v.psn_in))

  row-clear_line :
      (xs : List (Option PacketV2)) (c : ℕ)
      → IsElsewhere a p.csn c
      → slice (clear_line a p xs) (line_start a c) (line_start a c + a.total)
        ≡ slice xs (line_start a c) (line_start a c + a.total)
  row-clear_line xs c other = rw (clear_line-eq a p xs s v) (
      slice-clear_from_ne a.total (line_start a p.csn) (line_start a c) a.total xs
        (whole_outside a.total (p.csn % a.lines) (c % a.lines) other))

  Spares-new_line : Spares a (new_line a p) p.csn
  unfolding new_line at_chunk
  Spares-new_line = record {
    lines_kept = refl;
    total_kept = refl;
    parts_kept = refl;
    rows = λ c other. row-set_ne a.packets (some p) c other;
    counts = λ c other. get_or-set_ne a.found (p.csn % a.lines) (c % a.lines) 1 0 other;
    owners = λ c other. get_or-set_ne a.csn (p.csn % a.lines) (c % a.lines) p.csn 0 other;
  }

  Spares-joined : (k : ℕ) (cells : List (Option PacketV2)) → Spares a (joined a k cells p) p.csn
  unfolding joined
  Spares-joined k cells = record {
    lines_kept = refl;
    total_kept = refl;
    parts_kept = refl;
    rows = λ c other. row-set_ne a.packets (some p) c other;
    counts = λ c other. get_or-set_ne a.found (p.csn % a.lines) (c % a.lines) (k + 1) 0 other;
    owners = λ c other. refl;
  }

  Spares-sent_off : (k : ℕ) (cells : List (Option PacketV2)) → Spares a (sent_off a k cells p) p.csn
  unfolding sent_off
  Spares-sent_off k cells = record {
    lines_kept = refl;
    total_kept = refl;
    parts_kept = refl;
    rows = λ c other.
        row-clear_line (set a.packets (at_packet a p) (some p)) c other
        ∙ row-set_ne a.packets (some p) c other;
    counts = λ c other. get_or-set_ne a.found (p.csn % a.lines) (c % a.lines) 0 0 other;
    owners = λ c other. get_or-set_ne a.csn (p.csn % a.lines) (c % a.lines) 0 0 other;
  }

-- A packet that does not fill its line, and one that does.
pub record Grows (a : Assembler) (csn k : ℕ) (cells : List (Option PacketV2)) (p : PacketV2)
    : Type 0 where
  pub next : Assembler
  pub returns : assemble a (some p) ≡ some ([], next)
  pub line : Line next csn (k + 1) (set cells p.psn (some p))
  pub spares : Spares a next csn
  pub last_kept : next.last ≡ a.last

pub record Completes (a : Assembler) (csn : ℕ) (cells : List (Option PacketV2)) (p : PacketV2)
    : Type 0 where
  pub next : Assembler
  pub returns : assemble a (some p) ≡ some (set cells p.psn (some p) ∷ [], next)
  pub done : Done a next csn
  pub spares : Spares a next csn

module _ (a : Assembler) (csn k : ℕ) (cells : List (Option PacketV2)) (p : PacketV2) where
  module _ (l : Line a csn k cells) (f : IsFor a.total csn p) where
    here : Line a p.csn k cells
    here = subst (λ c. Line a c k cells) (sym f.same) l

    begins : k ≡ 0 → Grows a csn k cells p
    unfolding new_line
    begins e =
        let (stored, line) = store-new_line a k cells p here f.placed e in
        record {
          next = new_line a p;
          returns = assemble-store a csn k cells p l f ∙ stored;
          line =
              subst (λ n. Line (new_line a p) csn n (set cells p.psn (some p))) {x = 1} {y = k + 1}
                (omega (arith, e))
                (subst (λ c. Line (new_line a p) c 1 (set cells p.psn (some p))) f.same line);
          spares = subst (Spares a (new_line a p)) f.same (Spares-new_line a p l.shape f.placed);
          last_kept = refl;
        }

    joins : k ≢ 0 → k + 1 < a.parts → Grows a csn k cells p
    unfolding joined
    joins ne less = record {
      next = joined a k cells p;
      returns = assemble-joined a csn k cells p l ne f less;
      line = joined-Line a csn k cells p l ne f less;
      spares =
          subst (Spares a (joined a k cells p)) f.same (Spares-joined a p l.shape f.placed k cells);
      last_kept = refl;
    }

    pub grows : k + 1 < a.parts → Grows a csn k cells p
    grows less = elim (ℕ_discrete k 0) [ yes e ↦ begins e | no ne ↦ joins ne less ]

    pub completes : k ≢ 0 → k + 1 ≡ a.parts → Completes a csn cells p
    completes ne full =
        let (b, e, done) = assemble-sent_off a csn k cells p l ne f full in
        let e' =
          assemble-store a csn k cells p l f
          ∙ store-push_packet a k cells p here f.placed ne
          ∙ (push_packet-sent_off a k cells p here f.placed full).0 in
        let same : sent_off a k cells p ≡ b =
          ap (λ r. elim r [ none ↦ b | some (x, y) ↦ y ]) (sym e' ∙ e) in
        record {
          next = b;
          returns = e;
          done = done;
          spares =
              subst (λ x. Spares a x csn) same
                (subst (Spares a (sent_off a k cells p)) f.same
                  (Spares-sent_off a p l.shape f.placed k cells));
        }

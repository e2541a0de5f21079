-- ===== src/Codec/Decoder/Assembly/Late.antt =====
-- The packet table of src/codec/decoder.go, when packets of chunks come that are over, and one
-- sequence of packets behind another.
use mathlib.Core.Path.{subst}
use fec.Prelude.{
  ℕ, ◌≤◌, ◌≡◌, inl, inr, refl, sym, ap, ◌∙◌, Option, none, some, List, [], ◌∷◌, ◌++◌, append_assoc,
  Option-cases, ltb, le→leb, Bool-cases, ◌==◌, add64, All,
}
use fec.Codec.Packet.{PacketV2}
use fec.Codec.Decoder.{Assembler}
use fec.Codec.Decoder.Assembly.{Assembled, assemble, assemble_all}
use fec.Codec.Decoder.Assembly.Step.{Shape-keep}
use fec.Codec.Decoder.Assembly.Idle.{Idle}

-- The table is empty again, and nothing else has changed but the counters.
pub record Rests (a b : Assembler) : Type 0 where
  pub idle : Idle b
  pub same_last : b.last ≡ a.last
  pub same_lines : b.lines ≡ a.lines
  pub same_total : b.total ≡ a.total
  pub same_parts : b.parts ≡ a.parts

Rests-err : (a : Assembler) (err : ℕ) → Idle a → Rests a (record a { err = err })
Rests-err a err s = record {
  idle = record {
    shape = Shape-keep a a.last a.csn a.found a.packets a.ok err s.shape refl refl refl;
    free = s.free;
    empty = s.empty;
  };
  same_last = refl;
  same_lines = refl;
  same_total = refl;
  same_parts = refl;
}

Rests-trans : (a b c : Assembler) → Rests a b → Rests b c → Rests a c
Rests-trans a b c f g = record {
  idle = g.idle;
  same_last = g.same_last ∙ f.same_last;
  same_lines = g.same_lines ∙ f.same_lines;
  same_total = g.same_total ∙ f.same_total;
  same_parts = g.same_parts ∙ f.same_parts;
}

assemble-late :
    (a : Assembler) (q : PacketV2)
    → Idle a
    → q.csn ≤ a.last
    → (b : Assembler) × (assemble a (some q) ≡ some ([], b)) × Rests a b
unfolding assemble
assemble-late a q s h = elim (Bool-cases (ltb a.total q.psn)) [
  | inl e ↦ (record a { err = add64 a.err 1 }, rw e refl, Rests-err a (add64 a.err 1) s)
  | inr e ↦ elim (Bool-cases (q.csn == 0)) [
    | inl z ↦ (record a { err = add64 a.err 1 }, rw (e, z) refl, Rests-err a (add64 a.err 1) s)
    | inr z ↦ (a, rw (e, z, le→leb q.csn a.last h) refl, Rests-err a a.err s)
  ]
]

-- Packets of chunks that are over, when the table is empty.
pub assemble_all-late :
    (a : Assembler) (qs : List PacketV2)
    → Idle a
    → All (λ q. q.csn ≤ a.last) qs
    → (b : Assembler) × (assemble_all a qs ≡ some ([], b)) × Rests a b
unfolding assemble_all
assemble_all-late a [] s h = (a, refl, Rests-err a a.err s)
assemble_all-late a (q ∷ qs) s (hq, h) =
    let (b, now, r) = assemble-late a q s hq in
    let (c, later, r') =
      assemble_all-late b qs r.idle (subst (λ n. All (λ q. q.csn ≤ n) qs) (sym r.same_last) h) in
    (c, rw (now, assemble_all, later) refl, Rests-trans a b c r r')

-- One sequence behind another.
unfoldable and_then : Assembled → List PacketV2 → Assembled
and_then none ys = none
and_then (some (s, b)) ys = elim (assemble_all b ys) [
  | none ↦ none
  | some (t, c) ↦ some (s ++ t, c)
]

assemble_all-and_then :
    (a : Assembler) (xs ys : List PacketV2)
    → assemble_all a (xs ++ ys) ≡ and_then (assemble_all a xs) ys
unfolding assemble_all and_then
assemble_all-and_then a [] ys = elim (Option-cases (assemble_all a ys)) [
  | inl e ↦ rw (assemble_all, and_then, e) refl
  | inr ((t, c), e) ↦ rw (assemble_all, and_then, e) refl
]
assemble_all-and_then a (p ∷ xs) ys = elim (Option-cases (assemble a (some p))) [
  | inl e ↦ rw (assemble_all, and_then, e) refl
  | inr ((s, a'), e) ↦
      let ih = assemble_all-and_then a' xs ys in
      elim (Option-cases (assemble_all a' xs)) [
        | inl f ↦ rw (e, assemble_all, ih, f) refl
        | inr ((t, b), f) ↦ elim (Option-cases (assemble_all b ys)) [
          | inl g ↦ rw (e, assemble_all, ih, f, and_then, g) refl
          | inr ((u, c), g) ↦
              rw (e, assemble_all, ih, f, and_then, g)
                (ap (λ l. some (l, c)) (sym (append_assoc s t u)))
        ]
      ]
]

pub assemble_all-append :
    (a b c : Assembler) (xs ys : List PacketV2) (s t : List (List (Option PacketV2)))
    → assemble_all a xs ≡ some (s, b)
    → assemble_all b ys ≡ some (t, c)
    → assemble_all a (xs ++ ys) ≡ some (s ++ t, c)
unfolding and_then
assemble_all-append a b c xs ys s t e f = assemble_all-and_then a xs ys ∙ rw (e, and_then, f) refl

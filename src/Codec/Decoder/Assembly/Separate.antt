-- ===== src/Codec/Decoder/Assembly/Separate.antt =====
-- The lines of the packet table of src/codec/decoder.go: each holds the packets of one chunk only,
-- as long as all packets have numbers less than the number of packets in a chunk.
use native.Mathlib.Nat.{mod-lt}
use mathlib.Core.Path.{subst}
use fec.Prelude.{
  some-injective, none≢some, ℕ, ◌+◌, ◌*◌, ◌%◌, ◌<◌, ◌≡◌, inl, inr, refl, sym, ap, ◌∙◌, Option, none,
  some, List, arith, length, get_or, get_or-set_self, get_or-set_ne, set, max, ℕ_discrete, dec_lt,
}
use fec.Codec.Packet.{PacketV2}
use fec.Codec.Decoder.{Assembler}
use fec.Codec.Decoder.Assembly.{at_packet, clear_line}
use fec.Codec.Decoder.Assembly.Geometry.{Shape, IsPlaced, line_fits, at_packet-eq, line_inside}
use fec.Codec.Decoder.Assembly.Step.{clear_line-eq}
use fec.Codec.Decoder.Assembly.Bounds.{length-clear_line}
use fec.Codec.Decoder.Assembly.Cells.{place_unique, get_or-clear_from, get_or-clear_from_ne}

-- `Keep` is what is known of the packets that come.
module _ (Keep : PacketV2 → Type 0) where
  -- A packet of chunk `csn` with number `i`.
  abbrev pub Belongs : ℕ → ℕ → PacketV2 → Type 0
  Belongs csn i q = (q.csn ≡ csn) × (q.psn ≡ i) × Keep q

  -- Every packet of the table stands in the line of its chunk, at its number, and the line counts
  -- it; a line with a full count has been sent.
  pub record Separate (a : Assembler) : Type 0 where
    pub shape : Shape a
    pub few : (j : ℕ) → get_or a.found j 0 < max a.parts 2
    pub busy :
        (j i : ℕ) (q : PacketV2)
        → j < a.lines
        → i < a.total
        → get_or a.packets (j * a.total + i) none ≡ some q
        → 0 < get_or a.found j 0
    pub owned :
        (j i : ℕ) (q : PacketV2)
        → j < a.lines
        → i < a.total
        → get_or a.packets (j * a.total + i) none ≡ some q
        → Belongs (get_or a.csn j 0) i q
    pub in_line :
        (j i : ℕ) (q : PacketV2)
        → j < a.lines
        → i < a.total
        → get_or a.packets (j * a.total + i) none ≡ some q
        → q.csn % a.lines ≡ j
    pub holds :
        (j : ℕ)
        → j < a.lines
        → 0 < get_or a.found j 0
        → (i : ℕ) × (q : PacketV2) × (i < a.total)
          × (get_or a.packets (j * a.total + i) none ≡ some q)

  -- The places of one chunk, each empty or with the packet of its number.
  abbrev pub OfOneChunk : ℕ → List (Option PacketV2) → Type 0
  OfOneChunk total cells =
      (csn : ℕ) × (length cells ≡ total)
      × ((i : ℕ) (q : PacketV2) → get_or cells i none ≡ some q → Belongs csn i q)

  module _ (a : Assembler) (p : PacketV2) where
    module _ (s : Separate a) (v : IsPlaced a.total p) (keep : Keep p) where
      pub line_lt : p.csn % a.lines < a.lines
      line_lt = mod-lt p.csn {m = a.lines} s.shape.some_lines

      -- `xs` is the table, or the table with the packet's line cleared.
      pub record Before (xs : List (Option PacketV2)) : Type 0 where
        pub same_len : length xs ≡ length a.packets
        pub others :
            (j i : ℕ)
            → ¬ (j ≡ p.csn % a.lines)
            → i < a.total
            → get_or xs (j * a.total + i) none ≡ get_or a.packets (j * a.total + i) none
        pub own :
            (i : ℕ) (q : PacketV2)
            → i < a.total
            → get_or xs (p.csn % a.lines * a.total + i) none ≡ some q
            → Belongs p.csn i q

      -- The line after the packet was written.
      pub own-set :
          (xs : List (Option PacketV2))
          → Before xs
          → (i : ℕ) (q : PacketV2) → i < a.total
          → get_or (set xs (at_packet a p) (some p)) (p.csn % a.lines * a.total + i) none ≡ some q
          → Belongs p.csn i q
      own-set xs b i q hi e = elim (ℕ_discrete i p.psn) [
        | yes same ↦
            let at : p.csn % a.lines * a.total + i ≡ at_packet a p =
              omega (arith, same, at_packet-eq a p s.shape v) in
            let written : some p ≡ some q =
              sym (
                get_or-set_self xs (at_packet a p) (some p) none (
                  omega (
                    arith,
                    b.same_len,
                    at_packet-eq a p s.shape v,
                    v.psn_in,
                    line_inside a p s.shape v,
                  )))
              ∙ ap (λ k. get_or (set xs (at_packet a p) (some p)) k none) (sym at)
              ∙ e in
            subst (Belongs p.csn i) (some-injective p q written) (refl, sym same, keep)
        | no other ↦ b.own i q hi (
            sym (
              get_or-set_ne xs (at_packet a p) (p.csn % a.lines * a.total + i) (some p) none
                (λ h. other (omega (arith, h, at_packet-eq a p s.shape v))))
            ∙ e)
      ]

      pub others-set :
          (xs : List (Option PacketV2))
          → Before xs
          → (j i : ℕ) → ¬ (j ≡ p.csn % a.lines)
          → i < a.total
          → get_or (set xs (at_packet a p) (some p)) (j * a.total + i) none
            ≡ get_or a.packets (j * a.total + i) none
      others-set xs b j i ne hi =
          get_or-set_ne xs (at_packet a p) (j * a.total + i) (some p) none (λ h. ne (
            (place_unique a.total j i (p.csn % a.lines) p.psn hi v.psn_in
              (sym h ∙ at_packet-eq a p s.shape v)).0))
          ∙ b.others j i ne hi

      -- The line is the packet's chunk's.
      pub Before-own : get_or a.csn (p.csn % a.lines) 0 ≡ p.csn → Before a.packets
      Before-own e = record {
        same_len = refl;
        others = λ j i ne hi. refl;
        own = λ i q hi h. subst (λ c. Belongs c i q) e (s.owned (p.csn % a.lines) i q line_lt hi h);
      }

      -- The line is free.
      pub Before-free : get_or a.found (p.csn % a.lines) 0 ≡ 0 → Before a.packets
      Before-free e = record {
        same_len = refl;
        others = λ j i ne hi. refl;
        own = λ i q hi h. absurd (omega (arith, e, s.busy (p.csn % a.lines) i q line_lt hi h));
      }

      -- What clearing the line leaves.
      pub cleared_own :
          (xs : List (Option PacketV2)) (i : ℕ)
          → i < a.total
          → get_or (clear_line a p xs) (p.csn % a.lines * a.total + i) none ≡ none
      cleared_own xs i hi =
          ap (λ ys. get_or ys (p.csn % a.lines * a.total + i) none) (clear_line-eq a p xs s.shape v)
          ∙ get_or-clear_from a.total (p.csn % a.lines * a.total) (p.csn % a.lines * a.total + i) xs
              (omega arith) (omega arith)

      pub cleared_others :
          (xs : List (Option PacketV2)) (j i : ℕ)
          → ¬ (j ≡ p.csn % a.lines)
          → i < a.total
          → get_or (clear_line a p xs) (j * a.total + i) none ≡ get_or xs (j * a.total + i) none
      cleared_others xs j i ne hi =
          ap (λ ys. get_or ys (j * a.total + i) none) (clear_line-eq a p xs s.shape v)
          ∙ get_or-clear_from_ne a.total (p.csn % a.lines * a.total) (j * a.total + i) xs
              (elim (dec_lt j (p.csn % a.lines)) [
                | yes lt ↦ inl (omega (arith, line_fits j (p.csn % a.lines) a.total lt))
                | no ge ↦
                    inr
                      (omega (arith, line_fits (p.csn % a.lines) j a.total (omega (arith, ge, ne))))
              ])

      pub Before-cleared : Before (clear_line a p a.packets)
      Before-cleared = record {
        same_len = length-clear_line a p a.packets;
        others = λ j i ne hi. cleared_others a.packets j i ne hi;
        own = λ i q hi h. absurd (none≢some q (sym (cleared_own a.packets i hi) ∙ h));
      }

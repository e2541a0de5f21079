-- ===== src/Codec/Decoder/Assembly/Sequence.antt =====
-- `assembly` of src/codec/decoder.go keeps the chunks apart, as long as all packets have numbers
-- less than the number of packets in a chunk. (Its guard lets that number itself through.)
use mathlib.Core.Path.{subst}
use fec.Prelude.{
  ℕ, ◌+◌, ◌%◌, ◌<◌, ◌≡◌, inl, inr, refl, sym, ◌∙◌, false, Bool-cases, Option, some, List, [], ◌∷◌,
  ◌++◌, arith, ltb, leb, ==_iff, ◌==◌, get_or, get_or-set_self, get_or-set_ne, length-set, set,
  add64, All, leb_false→lt,
}
use fec.Codec.Packet.{PacketV2}
use fec.Codec.Decoder.{Assembler}
use fec.Codec.Decoder.Assembly.{
  Assembled, at_chunk, push_packet, new_line, drop_line, store, clear_line, assemble, assemble_all,
}
use fec.Codec.Decoder.Assembly.Geometry.{IsPlaced}
use fec.Codec.Decoder.Assembly.Step.{Shape-keep}
use fec.Codec.Decoder.Assembly.Bounds.{All-append, in_order, there}
use fec.Codec.Decoder.Assembly.Separate.{
  Separate, OfOneChunk, Before-own, Before-free, Before-cleared, line_lt,
}
use fec.Codec.Decoder.Assembly.Written.{written}
use fec.Codec.Decoder.Assembly.Sent.{Separate-sent_off, OfOneChunk-sent, sent_cells}

module _ (Keep : PacketV2 → Type 0) where
  record Apart (a : Assembler) (r : Assembled) : Type 0 where
    sent : List (List (Option PacketV2))
    next : Assembler
    returns : r ≡ some (sent, next)
    separate : Separate Keep next
    same_total : next.total ≡ a.total
    whole : All (OfOneChunk Keep a.total) sent

  apart :
      (a b : Assembler) (sent : List (List (Option PacketV2)))
      → Separate Keep b
      → b.total ≡ a.total
      → All (OfOneChunk Keep a.total) sent
      → Apart a (some (sent, b))
  apart a b sent s e w = record {
    sent = sent;
    next = b;
    returns = refl;
    separate = s;
    same_total = e;
    whole = w;
  }

  module _ (a : Assembler) (p : PacketV2) where
    module _ (s : Separate Keep a) (v : IsPlaced a.total p) (keep : Keep p) where
      Apart-push_packet :
          ((get_or a.found (p.csn % a.lines) 0 == 0) ≡ false)
          → get_or a.csn (p.csn % a.lines) 0 ≡ p.csn
          → Apart a (push_packet a p)
      unfolding push_packet at_chunk
      Apart-push_packet busy same =
          let b = Before-own Keep a p s v keep same in
          let k = get_or a.found (p.csn % a.lines) 0 in
          let n = add64 k 1 in
          elim (Bool-cases (leb a.parts n)) [
            | inl e ↦
                rw (e, in_order a p s.shape v.no_wrap)
                  (apart a _ (sent_cells Keep a p s v keep ∷ [])
                    (Separate-sent_off Keep a p s v keep (add64 a.ok 1) b) refl
                    (OfOneChunk-sent Keep a p s v keep b, tt))
            | inr e ↦
                let less : n < a.parts = leb_false→lt a.parts n e in
                let sum : n ≡ k + 1 = omega (arith, s.few (p.csn % a.lines), s.shape.parts_u64) in
                rw e (
                  apart a _ []
                    (written Keep a p s v keep a.last n (add64 a.ok 1) a.err a.csn a.packets b refl
                      same (λ j ne. refl) (omega arith) (omega arith))
                    refl tt)
          ]

      Apart-new_line : get_or a.found (p.csn % a.lines) 0 ≡ 0 → Apart a (some ([], new_line a p))
      unfolding new_line at_chunk
      Apart-new_line free =
          apart a _ []
            (written Keep a p s v keep a.last 1 (add64 a.ok 1) a.err
              (set a.csn (p.csn % a.lines) p.csn) a.packets (Before-free Keep a p s v keep free)
              (length-set a.csn (p.csn % a.lines) p.csn)
              (get_or-set_self a.csn (p.csn % a.lines) p.csn 0
                (omega (arith, line_lt Keep a p s v keep, s.shape.csn_len)))
              (λ j ne. get_or-set_ne a.csn (p.csn % a.lines) j p.csn 0 (λ e. ne (sym e)))
              (omega arith) (omega arith))
            refl tt

      Apart-drop_line : Apart a (some ([], drop_line a p))
      unfolding drop_line at_chunk
      Apart-drop_line =
          apart a _ []
            (written Keep a p s v keep (get_or a.csn (p.csn % a.lines) 0) 1 (add64 a.ok 1)
              (add64 a.err 1) (set a.csn (p.csn % a.lines) p.csn) (clear_line a p a.packets)
              (Before-cleared Keep a p s v keep) (length-set a.csn (p.csn % a.lines) p.csn)
              (get_or-set_self a.csn (p.csn % a.lines) p.csn 0
                (omega (arith, line_lt Keep a p s v keep, s.shape.csn_len)))
              (λ j ne. get_or-set_ne a.csn (p.csn % a.lines) j p.csn 0 (λ e. ne (sym e)))
              (omega arith) (omega arith))
            refl tt

      Apart-store : Apart a (store a p)
      unfolding store at_chunk
      Apart-store =
          let found = get_or a.found (p.csn % a.lines) 0 in
          rw (there a p s.shape v.no_wrap) (elim (Bool-cases (found == 0)) [
            | inl e ↦ rw e (Apart-new_line ((==_iff found 0).0 e))
            | inr e ↦ elim (Bool-cases (get_or a.csn (p.csn % a.lines) 0 == p.csn)) [
              | inl same ↦
                  rw (e, same)
                    (Apart-push_packet e ((==_iff (get_or a.csn (p.csn % a.lines) 0) p.csn).0 same))
              | inr other ↦ rw (e, other) Apart-drop_line
            ]
          ])

      Apart-assemble : Apart a (assemble a (some p))
      unfolding assemble
      Apart-assemble = elim (Bool-cases (ltb a.total p.psn)) [
        | inl e ↦ rw e (apart a _ [] (rejected (add64 a.err 1)) refl tt)
        | inr e ↦ elim (Bool-cases (p.csn == 0)) [
          | inl z ↦ rw (e, z) (apart a _ [] (rejected (add64 a.err 1)) refl tt)
          | inr z ↦ elim (Bool-cases (leb p.csn a.last)) [
            | inl old ↦ rw (e, z, old) (apart a a [] s refl tt)
            | inr new ↦ rw (e, z, new) Apart-store
          ]
        ]
      ]
        where
          rejected : (err : ℕ) → Separate Keep (record a { err = err })
          rejected err = record {
            shape = Shape-keep a a.last a.csn a.found a.packets a.ok err s.shape refl refl refl;
            few = s.few;
            busy = s.busy;
            owned = s.owned;
            in_line = s.in_line;
            holds = s.holds;
          }

  Apart-assemble_all :
      (a : Assembler) (ps : List PacketV2)
      → Separate Keep a
      → All (λ p. IsPlaced a.total p × Keep p) ps
      → Apart a (assemble_all a ps)
  unfolding assemble_all
  Apart-assemble_all a [] s n = apart a a [] s refl tt
  Apart-assemble_all a (p ∷ ps) s ((v, keep), n) =
      let one = Apart-assemble a p s v keep in
      let rest =
        Apart-assemble_all one.next ps one.separate
          (subst (λ t. All (λ p. IsPlaced t p × Keep p) ps) (sym one.same_total) n) in
      rw (one.returns, assemble_all, rest.returns)
        (apart a rest.next (one.sent ++ rest.sent) rest.separate (rest.same_total ∙ one.same_total)
          (All-append (OfOneChunk Keep a.total) one.sent rest.sent one.whole
            (subst (λ t. All (OfOneChunk Keep t) rest.sent) one.same_total rest.whole)))

  -- From a table whose lines hold one chunk each: packets for which `Keep` holds, each with a
  -- number less than `total`, the number of packets in a chunk, and with a place that is computed
  -- without wrapping, come in any order, repeated or not, of any chunks. Then the assembler does
  -- not panic, every list that it sends has `total` places and holds packets of one chunk only,
  -- each at its own number and one for which `Keep` holds, and the lines of the table still hold
  -- one chunk each.
  pub assemble_all-OfOneChunk :
      (a : Assembler) (ps : List PacketV2)
      → Separate Keep a
      → All (λ p. IsPlaced a.total p × Keep p) ps
      → (sent : List (List (Option PacketV2))) × (b : Assembler) × (assemble_all a ps
          ≡ some (sent, b))
        × Separate Keep b
        × All (OfOneChunk Keep a.total) sent
  assemble_all-OfOneChunk a ps s n =
      let r = Apart-assemble_all a ps s n in (r.sent, r.next, r.returns, r.separate, r.whole)

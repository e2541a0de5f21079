-- ===== src/Codec/Decoder/Assembly/Written.antt =====
-- The packet table of src/codec/decoder.go when one of its lines changes: the others stay as they
-- are.
use mathlib.Core.Path.{subst}
use fec.Prelude.{
  ℕ, ◌+◌, ◌*◌, ◌%◌, ◌<◌, ◌≡◌, sym, ap, ◌∙◌, Option, none, some, List, arith, length, length-set,
  get_or, get_or-set_self, get_or-set_ne, set, max, ℕ_discrete,
}
use fec.Codec.Packet.{PacketV2}
use fec.Codec.Decoder.{Assembler}
use fec.Codec.Decoder.Assembly.{at_packet}
use fec.Codec.Decoder.Assembly.Geometry.{IsPlaced, at_packet-eq, line_inside}
use fec.Codec.Decoder.Assembly.Step.{Shape-keep}
use fec.Codec.Decoder.Assembly.Separate.{Belongs, Separate, Before, own-set, others-set, line_lt}

module _ (Keep : PacketV2 → Type 0) where
  -- What `Separate` says of line `j`.
  pub record IsLine (a : Assembler) (j : ℕ) : Type 0 where
    pub few : get_or a.found j 0 < max a.parts 2
    pub busy :
        (i : ℕ) (q : PacketV2)
        → i < a.total
        → get_or a.packets (j * a.total + i) none ≡ some q
        → 0 < get_or a.found j 0
    pub owned :
        (i : ℕ) (q : PacketV2)
        → i < a.total
        → get_or a.packets (j * a.total + i) none ≡ some q
        → Belongs Keep (get_or a.csn j 0) i q
    pub in_line :
        (i : ℕ) (q : PacketV2)
        → i < a.total
        → get_or a.packets (j * a.total + i) none ≡ some q
        → q.csn % a.lines ≡ j
    pub holds :
        0 < get_or a.found j 0
        → (i : ℕ) × (q : PacketV2) × (i < a.total)
          × (get_or a.packets (j * a.total + i) none ≡ some q)

  module _ (a : Assembler) (s : Separate Keep a) (last ok err : ℕ) (csn found : List ℕ)
      (xs : List (Option PacketV2)) (k : ℕ) where
    abbrev pub changed : Assembler
    changed = record a { last = last; csn = csn; found = found; packets = xs; ok = ok; err = err }

    -- Only line `k` is changed.
    pub record Elsewhere : Type 0 where
      pub csn_len : length csn ≡ length a.csn
      pub found_len : length found ≡ length a.found
      pub packets_len : length xs ≡ length a.packets
      pub same_csn : (j : ℕ) → ¬ (j ≡ k) → get_or csn j 0 ≡ get_or a.csn j 0
      pub same_found : (j : ℕ) → ¬ (j ≡ k) → get_or found j 0 ≡ get_or a.found j 0
      pub same_packets :
          (j i : ℕ)
          → ¬ (j ≡ k)
          → i < a.total
          → get_or xs (j * a.total + i) none ≡ get_or a.packets (j * a.total + i) none

    -- The table is separate if the line that changed is.
    pub Separate-changed : Elsewhere → IsLine changed k → Separate Keep changed
    Separate-changed e l = record {
      shape = Shape-keep a last csn found xs ok err s.shape e.csn_len e.found_len e.packets_len;
      few = λ j. elim (ℕ_discrete j k) [
        | yes same ↦ subst (λ m. get_or found m 0 < max a.parts 2) (sym same) l.few
        | no ne ↦ omega (arith, s.few j, e.same_found j ne)
      ];
      busy = λ j i q hj hi h. elim (ℕ_discrete j k) [
        | yes same ↦
            subst (λ m. 0 < get_or found m 0) (sym same) (l.busy i q hi (moved j i q same h))
        | no ne ↦
            omega
              (arith, s.busy j i q hj hi (sym (e.same_packets j i ne hi) ∙ h), e.same_found j ne)
      ];
      owned = λ j i q hj hi h. elim (ℕ_discrete j k) [
        | yes same ↦
            subst (λ m. Belongs Keep (get_or csn m 0) i q) (sym same)
              (l.owned i q hi (moved j i q same h))
        | no ne ↦
            subst (λ c. Belongs Keep c i q) (sym (e.same_csn j ne))
              (s.owned j i q hj hi (sym (e.same_packets j i ne hi) ∙ h))
      ];
      in_line = λ j i q hj hi h. elim (ℕ_discrete j k) [
        | yes same ↦ l.in_line i q hi (moved j i q same h) ∙ sym same
        | no ne ↦ s.in_line j i q hj hi (sym (e.same_packets j i ne hi) ∙ h)
      ];
      holds = λ j hj h. elim (ℕ_discrete j k) [
        | yes same ↦
            let (i, q, hi, h') = l.holds (subst (λ m. 0 < get_or found m 0) same h) in
            (i, q, hi, ap (λ m. get_or xs (m * a.total + i) none) same ∙ h')
        | no ne ↦
            let (i, q, hi, h') = s.holds j hj (omega (arith, h, e.same_found j ne)) in
            (i, q, hi, e.same_packets j i ne hi ∙ h')
      ];
    }
      where
        moved :
            (j i : ℕ) (q : PacketV2)
            → j ≡ k
            → get_or xs (j * a.total + i) none ≡ some q
            → get_or xs (k * a.total + i) none ≡ some q
        moved j i q same h = ap (λ m. get_or xs (m * a.total + i) none) (sym same) ∙ h

  module _ (a : Assembler) (p : PacketV2) (s : Separate Keep a) (v : IsPlaced a.total p)
      (keep : Keep p) where
    -- The table in which the packet was written is separate again, with the line counted `n`.
    pub written :
        (last n ok err : ℕ) (csn : List ℕ) (xs : List (Option PacketV2))
        → Before Keep a p s v keep xs
        → length csn ≡ length a.csn
        → get_or csn (p.csn % a.lines) 0 ≡ p.csn
        → ((j : ℕ) → ¬ (j ≡ p.csn % a.lines) → get_or csn j 0 ≡ get_or a.csn j 0)
        → 0 < n
        → n < max a.parts 2
        → Separate Keep (record a {
          last = last;
          csn = csn;
          found = set a.found (p.csn % a.lines) n;
          packets = set xs (at_packet a p) (some p);
          ok = ok;
          err = err;
        })
    written last n ok err csn xs b csn_len here there pos small =
        let k = p.csn % a.lines in
        let at = at_packet-eq a p s.shape v in
        let counted : get_or (set a.found k n) k 0 ≡ n =
          get_or-set_self a.found k n 0
            (omega (arith, line_lt Keep a p s v keep, s.shape.found_len)) in
        Separate-changed a s last ok err csn (set a.found k n) (set xs (at_packet a p) (some p)) k
          record {
            csn_len = csn_len;
            found_len = length-set a.found k n;
            packets_len = length-set xs (at_packet a p) (some p) ∙ b.same_len;
            same_csn = there;
            same_found = λ j ne. get_or-set_ne a.found k j n 0 (λ h. ne (sym h));
            same_packets = others-set Keep a p s v keep xs b;
          }
          record {
            few = omega (arith, counted, small);
            busy = λ i q hi h. omega (arith, counted, pos);
            owned = λ i q hi h.
                subst (λ c. Belongs Keep c i q) (sym here)
                  (own-set Keep a p s v keep xs b i q hi h);
            in_line = λ i q hi h. ap (λ c. c % a.lines) (own-set Keep a p s v keep xs b i q hi h).0;
            holds = λ h. (
              p.psn,
              p,
              v.psn_in,
              ap (λ m. get_or (set xs (at_packet a p) (some p)) m none) (sym at)
                  ∙ get_or-set_self xs (at_packet a p) (some p) none
                      (omega (arith, b.same_len, at, v.psn_in, line_inside a p s.shape v)),
            );
          }

-- ===== src/Codec/Decoder/Assembly/Sent.antt =====
-- A line of the packet table of src/codec/decoder.go as it is sent and cleared.
use fec.Prelude.{
  none≢some, ℕ, ◌+◌, ◌-◌, ◌*◌, ◌%◌, ◌<◌, ◌≡◌, ◌≢◌, sym, ap, ◌∙◌, Option, none, some, List, arith,
  length, length-set, length-replicate, length-copy, length-slice, get_or, get_or-set_self,
  get_or-set_ne, set, replicate, copy, copy_full, slice, dec_lt,
}
use fec.Codec.Packet.{PacketV2}
use fec.Codec.Decoder.{Assembler}
use fec.Codec.Decoder.Assembly.{at_packet, chunk_start, chunk_end, clear_line}
use fec.Codec.Decoder.Assembly.Geometry.{
  IsPlaced, line_start, chunk_start-eq, chunk_end-eq, line_inside,
}
use fec.Codec.Decoder.Assembly.Bounds.{length-clear_line}
use fec.Codec.Decoder.Assembly.Cells.{get_or_outside, get_or-slice}
use fec.Codec.Decoder.Assembly.Separate.{
  Separate, OfOneChunk, Before, own-set, others-set, cleared_own, cleared_others, line_lt,
}
use fec.Codec.Decoder.Assembly.Written.{Separate-changed}

module _ (Keep : PacketV2 → Type 0) (a : Assembler) (p : PacketV2) (s : Separate Keep a)
    (v : IsPlaced a.total p) (keep : Keep p) where
  -- The line was sent and is free again.
  pub Separate-sent_off :
      (ok : ℕ)
      → Before Keep a p s v keep a.packets
      → Separate Keep (record a {
        last = p.csn;
        csn = set a.csn (p.csn % a.lines) 0;
        found = set a.found (p.csn % a.lines) 0;
        packets = clear_line a p (set a.packets (at_packet a p) (some p));
        ok = ok;
      })
  Separate-sent_off ok b =
      let k = p.csn % a.lines in
      let stored = set a.packets (at_packet a p) (some p) in
      let counted : get_or (set a.found k 0) k 0 ≡ 0 =
        get_or-set_self a.found k 0 0
          (omega (arith, line_lt Keep a p s v keep, s.shape.found_len)) in
      let gone : (i : ℕ) (q : PacketV2)
          → i < a.total
          → get_or (clear_line a p stored) (k * a.total + i) none ≢ some q =
        λ i q hi e. none≢some q (sym (cleared_own Keep a p s v keep stored i hi) ∙ e) in
      Separate-changed Keep a s p.csn ok a.err (set a.csn k 0) (set a.found k 0)
        (clear_line a p stored) k
        record {
          csn_len = length-set a.csn k 0;
          found_len = length-set a.found k 0;
          packets_len =
              length-clear_line a p stored ∙ length-set a.packets (at_packet a p) (some p);
          same_csn = λ j ne. get_or-set_ne a.csn k j 0 0 (λ h. ne (sym h));
          same_found = λ j ne. get_or-set_ne a.found k j 0 0 (λ h. ne (sym h));
          same_packets = λ j i ne hi.
              cleared_others Keep a p s v keep stored j i ne hi
              ∙ others-set Keep a p s v keep a.packets b j i ne hi;
        }
        record {
          few = omega (arith, counted);
          busy = λ i q hi e. absurd (gone i q hi e);
          owned = λ i q hi e. absurd (gone i q hi e);
          in_line = λ i q hi e. absurd (gone i q hi e);
          holds = λ h. absurd (omega (arith, h, counted));
        }

  -- What is sent of the line.
  abbrev pub sent_cells : List (Option PacketV2)
  sent_cells =
      copy (replicate a.total none)
        (slice (set a.packets (at_packet a p) (some p)) (chunk_start a p) (chunk_end a p))

  sent_cells-eq :
      sent_cells
      ≡ slice
          (set a.packets (at_packet a p) (some p))
          (line_start a p.csn)
          (line_start a p.csn + a.total)
  sent_cells-eq =
      let stored = set a.packets (at_packet a p) (some p) in
      rw (chunk_start-eq a p s.shape v, chunk_end-eq a p s.shape v)
        (copy_full (replicate a.total none)
          (slice stored (line_start a p.csn) (line_start a p.csn + a.total))
          (length-slice stored (line_start a p.csn) (line_start a p.csn + a.total) (omega arith) (
              omega
                (arith, line_inside a p s.shape v, length-set a.packets (at_packet a p) (some p)))
            ∙ (let n : line_start a p.csn + a.total - line_start a p.csn ≡ a.total = omega arith in
                n)
            ∙ sym (length-replicate {A = Option PacketV2} a.total none)))

  length-sent_cells : length sent_cells ≡ a.total
  length-sent_cells =
      length-copy (replicate a.total none)
        (slice (set a.packets (at_packet a p) (some p)) (chunk_start a p) (chunk_end a p))
      ∙ length-replicate {A = Option PacketV2} a.total none

  pub OfOneChunk-sent : Before Keep a p s v keep a.packets → OfOneChunk Keep a.total sent_cells
  OfOneChunk-sent b = (
    p.csn,
    length-sent_cells,
    λ i q e. elim (dec_lt i a.total) [
      | yes lt ↦ own-set Keep a p s v keep a.packets b i q lt (
          sym (
            get_or-slice (set a.packets (at_packet a p) (some p)) (line_start a p.csn) a.total i
              none lt)
          ∙ ap (λ xs. get_or xs i none) (sym sent_cells-eq)
          ∙ e)
      | no ge ↦ absurd (
          none≢some q
            (sym (get_or_outside sent_cells i none (omega (arith, ge, length-sent_cells))) ∙ e))
    ],
  )

-- ===== src/Codec/Decoder/Assembly/Step.antt =====
-- One packet in `assembly` of src/codec/decoder.go, as its line sees it.
use fec.Prelude.{
  ℕ, ◌+◌, ◌-◌, ◌%◌, ◌≤◌, ◌<◌, ◌≡◌, refl, sym, ap, ◌∙◌, true, Option, none, some, List, [], ◌∷◌,
  arith, ltb, leb, lt→ltb, ltb-false, le→leb, leb-false, ==_refl, ==_false, length, length-set,
  length-replicate, length-slice, get_or, get_or-set_self, set, replicate, copy, copy_full, slice,
  add64,
}
use fec.Codec.Packet.{PacketV2}
use fec.Codec.Decoder.{Assembler}
use fec.Codec.Decoder.Assembly.{
  at_packet, at_chunk, chunk_start, chunk_end, clear_from, clear_line, push_packet, new_line, store,
  assemble,
}
use fec.Codec.Decoder.Assembly.Geometry.{
  Shape, IsPlaced, line_start, at_packet-eq, chunk_start-eq, chunk_end-eq, line_inside, at_chunk-lt,
}
use fec.Codec.Decoder.Assembly.Rows.{slice-set, slice-clear_self, length-clear_from}

-- The places of the line of chunk `csn`.
abbrev pub row : Assembler → ℕ → List (Option PacketV2)
row a csn = slice a.packets (line_start a csn) (line_start a csn + a.total)

-- The line of chunk `csn` holds `k` packets of it (if `k` is 0, it is free), in the places `cells`,
-- and no chunk from `csn` on has been sent.
pub record Line (a : Assembler) (csn k : ℕ) (cells : List (Option PacketV2)) : Type 0 where
  pub shape : Shape a
  pub count : get_or a.found (csn % a.lines) 0 ≡ k
  pub owner : (k ≡ 0 → ⊥) → get_or a.csn (csn % a.lines) 0 ≡ csn
  pub places : row a csn ≡ cells
  pub fresh : a.last < csn

-- A packet of chunk `csn` with a place in the table.
pub record IsFor (total csn : ℕ) (p : PacketV2) : Type 0 where
  pub same : p.csn ≡ csn
  pub placed : IsPlaced total p

pub Shape-keep :
    (a : Assembler) (last : ℕ) (csn found : List ℕ) (packets : List (Option PacketV2)) (ok err : ℕ)
    → Shape a
    → length csn ≡ length a.csn
    → length found ≡ length a.found
    → length packets ≡ length a.packets
    → Shape
        (record a { last = last; csn = csn; found = found; packets = packets; ok = ok; err = err })
Shape-keep a last csn found packets ok err s hc hf hp = record {
  some_lines = s.some_lines;
  some_packets = s.some_packets;
  sized = s.sized;
  csn_len = hc ∙ s.csn_len;
  found_len = hf ∙ s.found_len;
  packets_len = hp ∙ s.packets_len;
  parts_u64 = s.parts_u64;
}

-- `assemble` comes to `store`.
pub assemble-store :
    (a : Assembler) (csn k : ℕ) (cells : List (Option PacketV2)) (p : PacketV2)
    → Line a csn k cells
    → IsFor a.total csn p
    → assemble a (some p) ≡ store a p
unfolding assemble
assemble-store a csn k cells p l f =
    rw
      (
        ltb-false a.total p.psn (omega (arith, f.placed.psn_in)),
        ==_false p.csn 0 (omega (arith, f.same, l.fresh)),
        leb-false p.csn a.last (omega (arith, f.same, l.fresh)),
      )
      refl

pub clear_line-eq :
    (a : Assembler) (p : PacketV2) (xs : List (Option PacketV2))
    → Shape a
    → IsPlaced a.total p
    → clear_line a p xs ≡ clear_from a.total (line_start a p.csn) xs
unfolding clear_line
clear_line-eq a p xs s v =
    rw (chunk_start-eq a p s v, chunk_end-eq a p s v)
      (ap (λ n. clear_from n (line_start a p.csn) xs) (omega arith))

module _ (a : Assembler) (k : ℕ) (cells : List (Option PacketV2)) (p : PacketV2) where
  module _ (l : Line a p.csn k cells) (v : IsPlaced a.total p) where
    chunk_in : ltb (at_chunk a p) (length a.found) ≡ true
    chunk_in = lt→ltb _ _ (omega (arith, at_chunk-lt a p l.shape v, l.shape.found_len))

    packet_in : ltb (at_packet a p) (length a.packets) ≡ true
    packet_in =
        lt→ltb _ _ (omega (arith, at_packet-eq a p l.shape v, line_inside a p l.shape v, v.psn_in))

    -- What a write of the packet makes of its line.
    row-set :
        slice
          (set a.packets (at_packet a p) (some p))
          (line_start a p.csn)
          (line_start a p.csn + a.total)
        ≡ set cells p.psn (some p)
    row-set =
        ap
          (λ i.
            slice (set a.packets i (some p)) (line_start a p.csn) (line_start a p.csn + a.total))
          (at_packet-eq a p l.shape v)
        ∙ slice-set a.packets (line_start a p.csn) a.total p.psn (some p)
        ∙ ap (λ c. set c p.psn (some p)) l.places

  -- The first packet of a chunk takes the free line.
  pub store-new_line :
      Line a p.csn k cells
      → IsPlaced a.total p
      → k ≡ 0
      → (store a p ≡ some ([], new_line a p))
        × Line (new_line a p) p.csn 1 (set cells p.psn (some p))
  unfolding store new_line at_chunk
  store-new_line l v e = (
    rw (chunk_in l v, packet_in l v, l.count, e) refl,
    record {
      shape =
          Shape-keep a a.last (set a.csn (p.csn % a.lines) p.csn) (set a.found (p.csn % a.lines) 1)
            (set a.packets (at_packet a p) (some p)) (add64 a.ok 1) a.err l.shape
            (length-set a.csn (p.csn % a.lines) p.csn) (length-set a.found (p.csn % a.lines) 1)
            (length-set a.packets (at_packet a p) (some p));
      count =
          get_or-set_self a.found (p.csn % a.lines) 1 0
            (omega (arith, at_chunk-lt a p l.shape v, l.shape.found_len));
      owner = λ _.
          get_or-set_self a.csn (p.csn % a.lines) p.csn 0
            (omega (arith, at_chunk-lt a p l.shape v, l.shape.csn_len));
      places = row-set l v;
      fresh = l.fresh;
    },
  )

  -- A further packet joins the line.
  pub store-push_packet :
      Line a p.csn k cells → IsPlaced a.total p → (k ≡ 0 → ⊥) → store a p ≡ push_packet a p
  unfolding store at_chunk
  store-push_packet l v ne =
      rw (chunk_in l v, packet_in l v, l.count, l.owner ne, ==_false k 0 ne, ==_refl p.csn) refl

  -- The assembler after a packet that does not fill its line, and after one that does.
  unfoldable pub joined : Assembler
  joined = record a {
    found = set a.found (p.csn % a.lines) (k + 1);
    packets = set a.packets (at_packet a p) (some p);
    ok = add64 a.ok 1;
  }

  unfoldable pub sent_off : Assembler
  sent_off = record a {
    last = p.csn;
    csn = set a.csn (p.csn % a.lines) 0;
    found = set a.found (p.csn % a.lines) 0;
    packets = clear_line a p (set a.packets (at_packet a p) (some p));
    ok = add64 a.ok 1;
  }

  pub push_packet-joined :
      Line a p.csn k cells
      → IsPlaced a.total p
      → k + 1 < a.parts
      → (push_packet a p ≡ some ([], joined))
        × ((k ≡ 0 → ⊥) → Line joined p.csn (k + 1) (set cells p.psn (some p)))
  unfolding push_packet at_chunk joined
  push_packet-joined l v less =
      let sum : add64 k 1 ≡ k + 1 = omega (arith, l.shape.parts_u64) in
      (
        rw (l.count, sum, leb-false a.parts (k + 1) less) refl,
        λ ne. record {
          shape =
              Shape-keep a a.last a.csn (set a.found (p.csn % a.lines) (k + 1))
                (set a.packets (at_packet a p) (some p)) (add64 a.ok 1) a.err l.shape refl
                (length-set a.found (p.csn % a.lines) (k + 1))
                (length-set a.packets (at_packet a p) (some p));
          count =
              get_or-set_self a.found (p.csn % a.lines) (k + 1) 0
                (omega (arith, at_chunk-lt a p l.shape v, l.shape.found_len));
          owner = λ _. l.owner ne;
          places = row-set l v;
          fresh = l.fresh;
        },
      )

  pub push_packet-sent_off :
      Line a p.csn k cells
      → IsPlaced a.total p
      → k + 1 ≡ a.parts
      → (push_packet a p ≡ some (set cells p.psn (some p) ∷ [], sent_off))
        × (row sent_off p.csn ≡ replicate a.total none)
        × Shape sent_off
        × (get_or sent_off.found (p.csn % a.lines) 0 ≡ 0)
  unfolding push_packet at_chunk sent_off
  push_packet-sent_off l v full =
      let sum : add64 k 1 ≡ k + 1 = omega (arith, l.shape.parts_u64) in
      let stored = set a.packets (at_packet a p) (some p) in
      let room : line_start a p.csn + a.total ≤ length stored =
        omega (arith, line_inside a p l.shape v, length-set a.packets (at_packet a p) (some p)) in
      let ordered : leb (chunk_start a p) (chunk_end a p) ≡ true =
        le→leb _ _ (omega (arith, chunk_start-eq a p l.shape v, chunk_end-eq a p l.shape v)) in
      let cut : copy (replicate a.total none) (slice stored (chunk_start a p) (chunk_end a p))
          ≡ set cells p.psn (some p) =
        rw (chunk_start-eq a p l.shape v, chunk_end-eq a p l.shape v)
          (copy_full (replicate a.total none)
              (slice stored (line_start a p.csn) (line_start a p.csn + a.total))
              (length-slice stored (line_start a p.csn) (line_start a p.csn + a.total) (omega arith)
                  room
                ∙ (let n : line_start a p.csn + a.total - line_start a p.csn ≡ a.total =
                      omega arith in
                    n)
                ∙ sym (length-replicate {A = Option PacketV2} a.total none))
            ∙ row-set l v) in
      (
        rw (l.count, sum, le→leb a.parts (k + 1) (omega arith), ordered, cut) refl,
        rw (clear_line-eq a p stored l.shape v)
            (slice-clear_self (line_start a p.csn) a.total stored room),
        Shape-keep a p.csn (set a.csn (p.csn % a.lines) 0) (set a.found (p.csn % a.lines) 0)
            (clear_line a p stored) (add64 a.ok 1) a.err l.shape
            (length-set a.csn (p.csn % a.lines) 0) (length-set a.found (p.csn % a.lines) 0)
            (rw (clear_line-eq a p stored l.shape v) (
              length-clear_from a.total (line_start a p.csn) stored
              ∙ length-set a.packets (at_packet a p) (some p))),
        get_or-set_self a.found (p.csn % a.lines) 0 0
            (omega (arith, at_chunk-lt a p l.shape v, l.shape.found_len)),
      )

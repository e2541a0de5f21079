-- ===== src/Codec/Decoder/Assembly/Bounds.antt =====
-- `assembly` of src/codec/decoder.go over any packets, whatever their numbers are.
use mathlib.Core.Path.{subst}
use native.Mathlib.Nat.{mod-lt}
use fec.Prelude.{
  ℕ, ◌+◌, ◌-◌, ◌*◌, ◌%◌, ◌^◌, ◌<◌, ◌≡◌, inl, inr, refl, sym, ◌∙◌, true, ◌&&◌, Bool-cases, Option,
  none, some, List, [], ◌∷◌, ◌++◌, arith, ltb, leb, lt→ltb, le→leb, ◌==◌, length, length-set,
  length-replicate, length-copy, get_or, set, replicate, slice, add64, mul64, All,
}
use fec.Codec.Packet.{PacketV2}
use fec.Codec.Decoder.{Assembler}
use fec.Codec.Decoder.Assembly.{
  Assembled, at_packet, at_chunk, chunk_start, chunk_end, clear_line, push_packet, new_line,
  drop_line, store, assemble, assemble_all,
}
use fec.Codec.Decoder.Assembly.Geometry.{Shape, IsPlaced, le-mul, chunk_start-eq, chunk_end-eq}
use fec.Codec.Decoder.Assembly.Rows.{length-clear_from}
use fec.Codec.Decoder.Assembly.Step.{Shape-keep}

-- The places of the packet's chunk are computed without wrapping.
abbrev pub NoWrap : ℕ → PacketV2 → Type 0
NoWrap total p = p.csn * total + total < 2 ^ 64

abbrev pub HasLength : ℕ → List (Option PacketV2) → Type 0
HasLength n cells = length cells ≡ n

-- The assembler goes on, and what it sends are whole lines.
pub record Goes (a : Assembler) (r : Assembled) : Type 0 where
  pub sent : List (List (Option PacketV2))
  pub next : Assembler
  pub returns : r ≡ some (sent, next)
  pub shape : Shape next
  pub same_total : next.total ≡ a.total
  pub whole : All (HasLength a.total) sent

goes :
    (a b : Assembler) (sent : List (List (Option PacketV2)))
    → Shape b
    → b.total ≡ a.total
    → All (HasLength a.total) sent
    → Goes a (some (sent, b))
goes a b sent s e w = record {
  sent = sent;
  next = b;
  returns = refl;
  shape = s;
  same_total = e;
  whole = w;
}

pub length-clear_line :
    (a : Assembler) (p : PacketV2) (xs : List (Option PacketV2))
    → length (clear_line a p xs) ≡ length xs
unfolding clear_line
length-clear_line a p xs = length-clear_from (chunk_end a p - chunk_start a p) (chunk_start a p) xs

module _ (a : Assembler) (p : PacketV2) (s : Shape a) (n : NoWrap a.total p) where
  -- The line depends on the number of the chunk only.
  first-IsPlaced : IsPlaced a.total (record p { psn = 0 })
  first-IsPlaced = record { psn_in = s.some_packets; no_wrap = n }

  pub in_order : leb (chunk_start a p) (chunk_end a p) ≡ true
  unfolding chunk_start chunk_end
  in_order = le→leb _ _ (
      omega (
        arith,
        chunk_start-eq a (record p { psn = 0 }) s first-IsPlaced,
        chunk_end-eq a (record p { psn = 0 }) s first-IsPlaced,
      ))

  pub there : (ltb (at_chunk a p) (length a.found) && ltb (at_packet a p) (length a.packets)) ≡ true
  unfolding at_packet at_chunk
  there =
      rw
        (
          lt→ltb (p.csn % a.lines) (length a.found)
              (omega (arith, s.found_len, mod-lt p.csn {m = a.lines} s.some_lines)),
          lt→ltb (at_packet a p) (length a.packets) (
              omega (
                arith,
                s.packets_len,
                mod-lt (add64 (mul64 p.csn a.total) p.psn) {m = a.size} some_size,
              )),
        )
        refl
    where
      some_size : 0 < a.size
      some_size = omega (arith, s.sized, s.some_lines, le-mul a.lines a.total s.some_packets)

  push_packet-Goes : Goes a (push_packet a p)
  unfolding push_packet
  push_packet-Goes =
      let packets = set a.packets (at_packet a p) (some p) in
      let found = add64 (get_or a.found (at_chunk a p) 0) 1 in
      let placed = length-set a.packets (at_packet a p) (some p) in
      elim (Bool-cases (leb a.parts found)) [
        | inl e ↦
            rw (e, in_order)
              (goes a _ _
                (Shape-keep a p.csn (set a.csn (at_chunk a p) 0) (set a.found (at_chunk a p) 0)
                  (clear_line a p packets) (add64 a.ok 1) a.err s
                  (length-set a.csn (at_chunk a p) 0) (length-set a.found (at_chunk a p) 0)
                  (length-clear_line a p packets ∙ placed))
                refl
                (
                  length-copy (replicate a.total none)
                        (slice packets (chunk_start a p) (chunk_end a p))
                      ∙ length-replicate {A = Option PacketV2} a.total none,
                  tt,
                ))
        | inr e ↦ rw e (
            goes a _ []
              (Shape-keep a a.last a.csn (set a.found (at_chunk a p) found) packets (add64 a.ok 1)
                a.err s refl (length-set a.found (at_chunk a p) found) placed)
              refl tt)
      ]

  new_line-Goes : Goes a (some ([], new_line a p))
  unfolding new_line
  new_line-Goes =
      goes a _ []
        (Shape-keep a a.last (set a.csn (at_chunk a p) p.csn) (set a.found (at_chunk a p) 1)
          (set a.packets (at_packet a p) (some p)) (add64 a.ok 1) a.err s
          (length-set a.csn (at_chunk a p) p.csn) (length-set a.found (at_chunk a p) 1)
          (length-set a.packets (at_packet a p) (some p)))
        refl tt

  drop_line-Goes : Goes a (some ([], drop_line a p))
  unfolding drop_line
  drop_line-Goes =
      goes a _ []
        (Shape-keep a (get_or a.csn (at_chunk a p) 0) (set a.csn (at_chunk a p) p.csn)
          (set a.found (at_chunk a p) 1) (set (clear_line a p a.packets) (at_packet a p) (some p))
          (add64 a.ok 1) (add64 a.err 1) s (length-set a.csn (at_chunk a p) p.csn)
          (length-set a.found (at_chunk a p) 1)
          (length-set (clear_line a p a.packets) (at_packet a p) (some p)
            ∙ length-clear_line a p a.packets))
        refl tt

  store-Goes : Goes a (store a p)
  unfolding store
  store-Goes =
      let found = get_or a.found (at_chunk a p) 0 in
      rw there (elim (Bool-cases (found == 0)) [
        | inl e ↦ rw e new_line-Goes
        | inr e ↦ elim (Bool-cases (get_or a.csn (at_chunk a p) 0 == p.csn)) [
          | inl same ↦ rw (e, same) push_packet-Goes
          | inr other ↦ rw (e, other) drop_line-Goes
        ]
      ])

  assemble-Goes : Goes a (assemble a (some p))
  unfolding assemble
  assemble-Goes = elim (Bool-cases (ltb a.total p.psn)) [
    | inl e ↦ rw e (goes a _ [] (rejected (add64 a.err 1)) refl tt)
    | inr e ↦ elim (Bool-cases (p.csn == 0)) [
      | inl z ↦ rw (e, z) (goes a _ [] (rejected (add64 a.err 1)) refl tt)
      | inr z ↦ elim (Bool-cases (leb p.csn a.last)) [
        | inl old ↦ rw (e, z, old) (goes a a [] s refl tt)
        | inr new ↦ rw (e, z, new) store-Goes
      ]
    ]
  ]
    where
      rejected : (err : ℕ) → Shape (record a { err = err })
      rejected err = Shape-keep a a.last a.csn a.found a.packets a.ok err s refl refl refl

pub All-append {ℓ} :
    {A : Type ℓ} (P : A → Type 0) (xs ys : List A) → All P xs → All P ys → All P (xs ++ ys)
All-append P [] ys h k = k
All-append P (x ∷ xs) ys (hx, h) k = (hx, All-append P xs ys h k)

assemble_all-Goes :
    (a : Assembler) (ps : List PacketV2)
    → Shape a
    → All (NoWrap a.total) ps
    → Goes a (assemble_all a ps)
unfolding assemble_all
assemble_all-Goes a [] s n = goes a a [] s refl tt
assemble_all-Goes a (p ∷ ps) s (np, n) =
    let one = assemble-Goes a p s np in
    let rest =
      assemble_all-Goes one.next ps one.shape
        (subst (λ t. All (NoWrap t) ps) (sym one.same_total) n) in
    rw (one.returns, assemble_all, rest.returns)
      (goes a rest.next (one.sent ++ rest.sent) rest.shape (rest.same_total ∙ one.same_total) (
        All-append (HasLength a.total) one.sent rest.sent one.whole
          (subst (λ t. All (HasLength t) rest.sent) one.same_total rest.whole)))

-- Over a table with the sizes that the constructor gives it: whatever packets come, in whatever
-- order, with whatever packet numbers, as long as the places of their chunks are computed without
-- wrapping, the assembler never panics, the table keeps its sizes, and every list that is sent
-- has exactly one place for each of the `total` packets.
pub assemble_all-Shape :
    (a : Assembler) (ps : List PacketV2)
    → Shape a
    → All (NoWrap a.total) ps
    → (sent : List (List (Option PacketV2))) × (b : Assembler) × (assemble_all a ps
        ≡ some (sent, b))
      × Shape b
      × (b.total ≡ a.total)
      × All (HasLength a.total) sent
assemble_all-Shape a ps s n =
    let r = assemble_all-Goes a ps s n in
    (r.sent, r.next, r.returns, r.shape, r.same_total, r.whole)

-- ===== src/Codec/Decoder/Assembly.antt =====
-- `assembly` of src/codec/decoder.go. `none` is a panic: an index or a slice out of range. The
-- method `reset` does nothing (its body is commented out).
pub mod Geometry
pub mod Rows
pub mod Step
pub mod Collect
pub mod Frame
pub mod Bounds
pub mod Cells
pub mod Separate
pub mod Written
pub mod Sent
pub mod Sequence
pub mod Idle
pub mod Late
pub mod Fresh
pub mod Round
pub mod Rounds
pub mod Interleaved
use fec.Prelude.{
  ℕ, zero, suc, ◌+◌, ◌-◌, ◌%◌, Bool, not, ◌&&◌, Option, none, some, List, [], ◌∷◌, ◌++◌,
  if◌then◌else◌, ltb, leb, ◌==◌, length, get_or, set, replicate, copy, slice, add64, mul64,
}
use fec.Codec.Packet.{PacketV2}
use fec.Codec.Decoder.{Assembler}

-- Where a packet goes, its line, and the line's places: from `chunk_start` up to `chunk_end`.
module _ (a : Assembler) (p : PacketV2) where
  unfoldable pub at_packet : ℕ
  at_packet = add64 (mul64 p.csn a.total) p.psn % a.size

  unfoldable pub at_chunk : ℕ
  at_chunk = p.csn % a.lines

  unfoldable pub chunk_start : ℕ
  chunk_start = mul64 p.csn a.total % a.size

  unfoldable pub chunk_end : ℕ
  chunk_end = let e = mul64 (add64 p.csn 1) a.total % a.size in if e == 0 then a.size else e

-- `for at := start; at < end; at++ { packets[at] = nil }`, over the rounds that are left.
unfoldable pub clear_from : ℕ → ℕ → List (Option PacketV2) → List (Option PacketV2)
clear_from zero at packets = packets
clear_from (suc n) at packets = clear_from n (at + 1) (set packets at none)

unfoldable pub clear_line : Assembler → PacketV2 → List (Option PacketV2) → List (Option PacketV2)
clear_line a p = clear_from (chunk_end a p - chunk_start a p) (chunk_start a p)

-- What goes to `restoreQueue`, and the assembler behind it.
abbrev pub Assembled : Type 0
Assembled = Option (List (List (Option PacketV2)) × Assembler)

-- The packet joins the line of its chunk, which is sent once it has enough packets.
unfoldable pub push_packet : Assembler → PacketV2 → Assembled
push_packet a p =
    let packets = set a.packets (at_packet a p) (some p) in
    let found = add64 (get_or a.found (at_chunk a p) 0) 1 in
    let sent = copy (replicate a.total none) (slice packets (chunk_start a p) (chunk_end a p)) in
    if leb a.parts found
    then if leb (chunk_start a p) (chunk_end a p)
      then some (
        sent ∷ [],
        record a {
          last = p.csn;
          csn = set a.csn (at_chunk a p) 0;
          found = set a.found (at_chunk a p) 0;
          packets = clear_line a p packets;
          ok = add64 a.ok 1;
        },
      )
      else none
    else some (
      [],
      record a { found = set a.found (at_chunk a p) found; packets = packets; ok = add64 a.ok 1 },
    )

-- The packet begins a chunk in a line that is free.
unfoldable pub new_line : Assembler → PacketV2 → Assembler
new_line a p = record a {
  csn = set a.csn (at_chunk a p) p.csn;
  found = set a.found (at_chunk a p) 1;
  packets = set a.packets (at_packet a p) (some p);
  ok = add64 a.ok 1;
}

-- The packet begins a chunk in the line of another chunk, which is dropped.
unfoldable pub drop_line : Assembler → PacketV2 → Assembler
drop_line a p = record a {
  last = get_or a.csn (at_chunk a p) 0;
  csn = set a.csn (at_chunk a p) p.csn;
  found = set a.found (at_chunk a p) 1;
  packets = set (clear_line a p a.packets) (at_packet a p) (some p);
  ok = add64 a.ok 1;
  err = add64 a.err 1;
}

-- `switch`, over a line that is there.
unfoldable pub store : Assembler → PacketV2 → Assembled
store a p =
    let found = get_or a.found (at_chunk a p) 0 in
    if ltb (at_chunk a p) (length a.found) && ltb (at_packet a p) (length a.packets)
    then if not (found == 0) && (get_or a.csn (at_chunk a p) 0 == p.csn)
      then push_packet a p
      else some ([], if found == 0 then new_line a p else drop_line a p)
    else none

unfoldable pub assemble : Assembler → Option PacketV2 → Assembled
assemble a none = some ([], record a { err = add64 a.err 1 })
assemble a (some p) =
    if ltb a.total p.psn
    then some ([], record a { err = add64 a.err 1 })
    else if p.csn == 0
    then some ([], record a { err = add64 a.err 1 })
    else if leb p.csn a.last
    then some ([], a)
    else store a p

-- The goroutine over a sequence of packets.
unfoldable pub assemble_all : Assembler → List PacketV2 → Assembled
assemble_all a [] = some ([], a)
assemble_all a (p ∷ ps) = elim (assemble a (some p)) [
  | none ↦ none
  | some (sent, a') ↦ elim (assemble_all a' ps) [
    | none ↦ none
    | some (later, b) ↦ some (sent ++ later, b)
  ]
]

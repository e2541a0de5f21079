-- ===== src/Codec/Decoder/Assembly/Fresh.antt =====
-- The packet table that `NewDecoder` of src/codec/decoder.go makes.
use fec.Codec.Decoder.Assembly.Idle.{Idle, Idle-Separate}
use fec.Prelude.{
  ℕ, ◌*◌, ◌^◌, ◌<◌, ◌≡◌, Option, none, arith, length-replicate, get_or-replicate, replicate, mul64,
}
use fec.Codec.Packet.{PacketV2}
use fec.Codec.Decoder.{Assembler}
use fec.Codec.Decoder.Assembly.Separate.{Separate}

-- An empty table, as `NewDecoder` makes it.
abbrev pub fresh_assembler : ℕ → ℕ → ℕ → Assembler
fresh_assembler parts total lines = record {
  parts = parts;
  total = total;
  size = mul64 lines total;
  lines = lines;
  last = 0;
  csn = replicate lines 0;
  found = replicate lines 0;
  packets = replicate (mul64 lines total) none;
  ok = 0;
  err = 0;
}

pub fresh_assembler-Idle :
    (parts total lines : ℕ)
    → parts < 2 ^ 64
    → 0 < total
    → 0 < lines
    → lines * total < 2 ^ 64
    → Idle (fresh_assembler parts total lines)
fresh_assembler-Idle parts total lines hp ht hl small = record {
  shape = record {
    some_lines = hl;
    some_packets = ht;
    sized = (let size : mul64 lines total ≡ lines * total = omega (arith, small) in size);
    csn_len = length-replicate {A = ℕ} lines 0;
    found_len = length-replicate {A = ℕ} lines 0;
    packets_len = length-replicate {A = Option PacketV2} (mul64 lines total) none;
    parts_u64 = hp;
  };
  free = λ j. get_or-replicate {A = ℕ} lines j 0;
  empty = λ k. get_or-replicate (mul64 lines total) k none;
}

pub fresh_assembler-Separate :
    (Keep : PacketV2 → Type 0) (parts total lines : ℕ)
    → parts < 2 ^ 64
    → 0 < total
    → 0 < lines
    → lines * total < 2 ^ 64
    → Separate Keep (fresh_assembler parts total lines)
fresh_assembler-Separate Keep parts total lines hp ht hl small =
    Idle-Separate Keep (fresh_assembler parts total lines)
      (fresh_assembler-Idle parts total lines hp ht hl small)

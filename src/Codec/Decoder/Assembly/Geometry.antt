-- ===== src/Codec/Decoder/Assembly/Geometry.antt =====
-- Where src/codec/decoder.go keeps the packets of a chunk: line `csn % lines`, whose places are
-- consecutive, one for each packet.
use native.Mathlib.Nat.{div-add-mod, mul-add-mod_self_left, mod-eq_of_lt, mod-lt, mod_self}
use fec.Prelude.{
  ℕ, ◌+◌, ◌*◌, ◌/◌, ◌%◌, ◌^◌, ◌≤◌, ◌<◌, ◌≡◌, refl, ap, ◌∙◌, arith, dec_lt, length, if◌then◌else◌,
  ◌==◌, ==_false, add64, mul64,
}
use fec.Codec.Packet.{PacketV2}
use fec.Codec.Decoder.{Assembler}
use fec.Codec.Decoder.Assembly.{at_packet, at_chunk, chunk_start, chunk_end}

-- The table has the sizes that `NewDecoder` gives it.
pub record Shape (a : Assembler) : Type 0 where
  pub some_lines : 0 < a.lines
  pub some_packets : 0 < a.total
  pub sized : a.size ≡ a.lines * a.total
  pub csn_len : length a.csn ≡ a.lines
  pub found_len : length a.found ≡ a.lines
  pub packets_len : length a.packets ≡ a.size
  pub parts_u64 : a.parts < 2 ^ 64

-- A packet that the table has a place for, and whose place is computed without wrapping.
pub record IsPlaced (total : ℕ) (p : PacketV2) : Type 0 where
  pub psn_in : p.psn < total
  pub no_wrap : p.csn * total + total < 2 ^ 64

abbrev pub line_start : Assembler → ℕ → ℕ
line_start a csn = csn % a.lines * a.total

pub line_fits : (j l t : ℕ) → j < l → j * t + t ≤ l * t
line_fits j l t h = grind arith

pub le-mul : (n t : ℕ) → 0 < t → n ≤ n * t
le-mul n t h = grind arith

-- The remainder by `lines * total` of a number that lies `k` behind a multiple of `total`.
mod-line : (c l t k : ℕ) → 0 < l → k < t → (c * t + k) % (l * t) ≡ c % l * t + k
mod-line c l t k hl hk =
    ap (λ n. n % (l * t)) split
    ∙ mul-add-mod_self_left (l * t) (c / l) (c % l * t + k)
    ∙ mod-eq_of_lt inside
  where
    split : c * t + k ≡ l * t * (c / l) + (c % l * t + k)
    split = omega (arith, ap (λ (n : ℕ). n * t) (div-add-mod c l))

    inside : c % l * t + k < l * t
    inside = omega (arith, line_fits (c % l) l t (mod-lt c hl))

-- The end of a line, which the code takes from the start of the next one, or from the end of the
-- table if that start is 0.
mod-next :
    (c l t : ℕ)
    → 0 < l
    → 0 < t
    → (if (c + 1) * t % (l * t) == 0 then l * t else (c + 1) * t % (l * t)) ≡ c % l * t + t
mod-next c l t hl ht = rw round (elim (dec_lt (c % l + 1) l) [
  | yes more ↦
      let below : c % l * t + t < l * t = omega (arith, line_fits (c % l + 1) l t more) in
      rw (mod-eq_of_lt below, ==_false (c % l * t + t) 0 (omega arith)) refl
  | no last ↦
      let full : c % l * t + t ≡ l * t = omega (arith, ap (λ (n : ℕ). n * t) (end_of last)) in
      rw (full, mod_self (l * t)) refl
])
  where
    round : (c + 1) * t % (l * t) ≡ (c % l * t + t) % (l * t)
    round =
        ap (λ n. n % (l * t)) {x = (c + 1) * t} {y = l * t * (c / l) + (c % l * t + t)}
          (omega (arith, ap (λ (n : ℕ). n * t) (div-add-mod c l)))
        ∙ mul-add-mod_self_left (l * t) (c / l) (c % l * t + t)

    end_of : ¬ (c % l + 1 < l) → c % l + 1 ≡ l
    end_of h = omega (arith, mod-lt c hl)

module _ (a : Assembler) (p : PacketV2) (s : Shape a) (v : IsPlaced a.total p) where
  pub at_packet-eq : at_packet a p ≡ line_start a p.csn + p.psn
  unfolding at_packet
  at_packet-eq =
      rw (s.sized, product, sum) (mod-line p.csn a.lines a.total p.psn s.some_lines v.psn_in)
    where
      product : mul64 p.csn a.total ≡ p.csn * a.total
      product = omega (arith, v.no_wrap)

      sum : add64 (p.csn * a.total) p.psn ≡ p.csn * a.total + p.psn
      sum = omega (arith, v.no_wrap, v.psn_in)

  pub chunk_start-eq : chunk_start a p ≡ line_start a p.csn
  unfolding chunk_start
  chunk_start-eq =
      rw (s.sized, product)
        (omega (arith, mod-line p.csn a.lines a.total 0 s.some_lines s.some_packets, padded))
    where
      product : mul64 p.csn a.total ≡ p.csn * a.total
      product = omega (arith, v.no_wrap)

      padded : (p.csn * a.total) % (a.lines * a.total) ≡ (p.csn * a.total + 0) % (a.lines * a.total)
      padded = ap (λ n. n % (a.lines * a.total)) (omega arith)

  next_start : mul64 (add64 p.csn 1) a.total ≡ (p.csn + 1) * a.total
  next_start =
      let fits : p.csn + 1 < 2 ^ 64 =
        omega (arith, v.no_wrap, le-mul (p.csn + 1) a.total s.some_packets) in
      let sum : add64 p.csn 1 ≡ p.csn + 1 = omega arith in rw sum (omega (arith, v.no_wrap))

  pub chunk_end-eq : chunk_end a p ≡ line_start a p.csn + a.total
  unfolding chunk_end
  chunk_end-eq =
      rw (s.sized, next_start) (mod-next p.csn a.lines a.total s.some_lines s.some_packets)

  -- The line lies inside the table.
  pub line_inside : line_start a p.csn + a.total ≤ length a.packets
  line_inside = omega (
    arith,
    s.sized,
    s.packets_len,
    line_fits (p.csn % a.lines) a.lines a.total (mod-lt p.csn s.some_lines),
  )

  pub at_chunk-lt : at_chunk a p < a.lines
  unfolding at_chunk
  at_chunk-lt = mod-lt p.csn s.some_lines

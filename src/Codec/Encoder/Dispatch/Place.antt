-- ===== src/Codec/Encoder/Dispatch/Place.antt =====
-- The places that `dispatch` of src/codec/encoder.go gives to the packets of a batch.
use native.Mathlib.Nat.{
  div-add-mod, mul-add-mod_self_left, mul-add-div, mul-add-div_right, mul-add-mod_self_right,
  mod-eq_of_lt, mod-lt, div-lt_iff_lt-mul, div-eq_of_lt,
}
use fec.Prelude.{ℕ, ◌+◌, ◌*◌, ◌/◌, ◌%◌, ◌^◌, ◌<◌, ◌≡◌, ap, ◌∙◌, arith, add64, mul64}
use fec.Codec.Encoder.Dispatch.{slot}
use fec.Codec.Decoder.Assembly.Geometry.{line_fits, le-mul}

-- The packet that goes into place `s`.
unfoldable pub packet_at : ℕ → ℕ → ℕ → ℕ
packet_at chunks per_chunk s = s % chunks * per_chunk + s / chunks

module _ (chunks per_chunk : ℕ) (some_chunks : 0 < chunks) (some_packets : 0 < per_chunk) where
  abbrev pub size : ℕ
  size = chunks * per_chunk

  div-lt : (i : ℕ) → i < size → i / per_chunk < chunks
  div-lt i lt = (div-lt_iff_lt-mul {k = per_chunk} {x = i} {y = chunks} some_packets).1 lt

  group-lt : (s : ℕ) → s < size → s / chunks < per_chunk
  group-lt s lt =
      (div-lt_iff_lt-mul {k = chunks} {x = s} {y = per_chunk} some_chunks).1 (omega arith)

  pub slot-lt : (i : ℕ) → i < size → chunks * (i % per_chunk) + i / per_chunk < size
  slot-lt i lt =
      omega (arith, line_fits (i % per_chunk) per_chunk chunks (mod-lt i some_packets), div-lt i lt)

  -- The place, if nothing wraps: packet `r` of chunk `q` goes to place `q` of group `r`.
  pub slot_lem :
      (i : ℕ)
      → i < size
      → chunks * size + chunks < 2 ^ 64
      → slot chunks per_chunk i ≡ chunks * (i % per_chunk) + i / per_chunk
  unfolding slot
  slot_lem i lt fits =
      rw (product, sum, whole)
        (ap (λ n. n % size) split
          ∙ mul-add-mod_self_left size (i / per_chunk) (chunks * (i % per_chunk) + i / per_chunk)
          ∙ mod-eq_of_lt (slot-lt i lt))
    where
      product : mul64 chunks i ≡ chunks * i
      product = omega (arith, line_fits i size chunks lt)

      sum : add64 (chunks * i) (i / per_chunk) ≡ chunks * i + i / per_chunk
      sum = omega (arith, line_fits i size chunks lt, div-lt i lt)

      whole : mul64 chunks per_chunk ≡ size
      whole = omega (arith, le-mul size chunks some_chunks)

      split :
          chunks * i + i / per_chunk
          ≡ size * (i / per_chunk) + (chunks * (i % per_chunk) + i / per_chunk)
      split = omega (arith, ap (λ (n : ℕ). chunks * n) (div-add-mod i per_chunk))

  -- `packet_at` and the place are inverses of each other.
  pub packet_at-slot :
      (i : ℕ) → i < size → packet_at chunks per_chunk (chunks * (i % per_chunk) + i / per_chunk) ≡ i
  unfolding packet_at
  packet_at-slot i lt =
      rw
        (
          mul-add-mod_self_left chunks (i % per_chunk) (i / per_chunk),
          mod-eq_of_lt (div-lt i lt),
          mul-add-div {m = chunks} some_chunks (i % per_chunk) (i / per_chunk),
          div-eq_of_lt (div-lt i lt),
        )
        (omega (arith, div-add-mod i per_chunk))

  pub packet_at-lt : (s : ℕ) → s < size → packet_at chunks per_chunk s < size
  unfolding packet_at
  packet_at-lt s lt =
      omega (arith, line_fits (s % chunks) chunks per_chunk (mod-lt s some_chunks), group-lt s lt)

  pub slot-packet_at :
      (s : ℕ)
      → s < size
      → chunks * (packet_at chunks per_chunk s % per_chunk)
          + packet_at chunks per_chunk s / per_chunk
        ≡ s
  unfolding packet_at
  slot-packet_at s lt =
      rw
        (
          mul-add-mod_self_right (s % chunks) per_chunk (s / chunks),
          mod-eq_of_lt (group-lt s lt),
          mul-add-div_right {m = per_chunk} some_packets (s % chunks) (s / chunks),
          div-eq_of_lt (group-lt s lt),
        )
        (omega (arith, div-add-mod s chunks))

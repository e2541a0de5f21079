-- ===== src/Codec/Chunk/Header.antt =====
-- The header of 22 bytes in the first shard of src/codec/chunk.go.
use fec.Prelude.{
  ℕ, ◌≤◌, ◌≡◌, refl, List, [], ◌∷◌, ◌++◌, arith, append_assoc, length, length-append, length-drop,
  drop, drop-add, copy, copy_at, copy_at_front, copy_at_end, slice, slice_of, le_bytes,
  length-le_bytes,
}
use fec.Codec.Chunk.{Chunk, first_shard}

-- Four bytes of the header are not used; they stay as they were allocated.
abbrev pub fields : Chunk → List ℕ → List ℕ
fields c unused = c.version ∷ c.kind ∷ unused

abbrev pub header : Chunk → List ℕ → List ℕ
header c unused = (fields c unused ++ le_bytes 8 c.csn) ++ le_bytes 8 (length c.payload)

module _ (c : Chunk) (unused : List ℕ) (h : length unused ≡ 4) where
  length-top : length (fields c unused ++ le_bytes 8 c.csn) ≡ 14
  length-top =
      omega (arith, length-append (fields c unused) (le_bytes 8 c.csn), length-le_bytes 8 c.csn)

  pub length-header : length (header c unused) ≡ 22
  length-header = omega (
    arith,
    length-top,
    length-append (fields c unused ++ le_bytes 8 c.csn) (le_bytes 8 (length c.payload)),
    length-le_bytes 8 (length c.payload),
  )

  pub slice-csn : (body : List ℕ) → slice (header c unused ++ body) 6 14 ≡ le_bytes 8 c.csn
  slice-csn body =
      slice_of (header c unused ++ body) (fields c unused) (le_bytes 8 c.csn)
        (le_bytes 8 (length c.payload) ++ body) 6 14 (simp append_assoc) (omega arith)
        (omega (arith, length-le_bytes 8 c.csn))

  pub slice-size :
      (body : List ℕ) → slice (header c unused ++ body) 14 22 ≡ le_bytes 8 (length c.payload)
  slice-size body =
      slice_of (header c unused ++ body) (fields c unused ++ le_bytes 8 c.csn)
        (le_bytes 8 (length c.payload)) body 14 22
        (append_assoc (fields c unused ++ le_bytes 8 c.csn) (le_bytes 8 (length c.payload)) body)
        length-top (omega (arith, length-le_bytes 8 (length c.payload)))

  -- What `Marshal` leaves in the first shard.
  header_written :
      (tail : List ℕ)
      → 16 ≤ length tail
      → let b = copy_at (fields c unused ++ tail) 6 14 (le_bytes 8 c.csn) in
        let b = copy_at b 14 22 (le_bytes 8 (length c.payload)) in
        copy_at b 22 (length b) c.payload ≡ header c unused ++ copy (drop 16 tail) c.payload
  header_written tail room =
      rw
        (
          copy_at_front (fields c unused) tail (le_bytes 8 c.csn) 6 14 (omega arith)
              (omega (arith, length-le_bytes 8 c.csn)) (omega (arith, length-le_bytes 8 c.csn)),
          copy_at_front (fields c unused ++ le_bytes 8 c.csn)
              (drop (length (le_bytes 8 c.csn)) tail) (le_bytes 8 (length c.payload)) 14 22
              length-top (omega (arith, length-le_bytes 8 (length c.payload)))
              (omega (
                arith,
                length-le_bytes 8 (length c.payload),
                length-le_bytes 8 c.csn,
                length-drop (length (le_bytes 8 c.csn)) tail,
              )),
          copy_at_end (header c unused)
              (drop (length (le_bytes 8 (length c.payload)))
                (drop (length (le_bytes 8 c.csn)) tail))
              c.payload 22 length-header,
          length-le_bytes 8 c.csn,
          length-le_bytes 8 (length c.payload),
          drop-add 8 8 tail,
        )
        refl

-- The first shard is the header and then as much of the data as fits.
pub first_shard-eq :
    (c : Chunk) (shard : List ℕ)
    → 22 ≤ length shard
    → (unused : List ℕ) × (length unused ≡ 4)
      × (first_shard c shard ≡ header c unused ++ copy (drop 22 shard) c.payload)
unfolding first_shard drop
first_shard-eq c (x₀ ∷ x₁ ∷ x₂ ∷ x₃ ∷ x₄ ∷ x₅ ∷ tail) h = (
  x₂ ∷ x₃ ∷ x₄ ∷ x₅ ∷ [],
  refl,
  header_written c (x₂ ∷ x₃ ∷ x₄ ∷ x₅ ∷ []) refl tail (omega arith),
)
first_shard-eq c shard h = absurd (omega arith)

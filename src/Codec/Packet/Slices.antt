-- ===== src/Codec/Packet/Slices.antt =====
-- The slices of a marshalled packet that `Unmarshal` reads.
use fec.Prelude.{
  ℕ, ◌≡◌, refl, List, [], ◌∷◌, ◌++◌, arith, append-nil, append_assoc, length, length-append, slice,
  slice_of, le_bytes, length-le_bytes,
}
use fec.Codec.Packet.Layout.{header, length-header}

module _ (version kind psn csn addr : ℕ) (payload rest : List ℕ) where
  -- The bytes of a packet, from the left.
  abbrev pub whole : List ℕ
  whole = (header version kind psn csn addr ++ payload) ++ rest

  top : List ℕ
  top = version ∷ kind ∷ 0 ∷ 0 ∷ []

  pub slice-psn : slice whole 4 8 ≡ le_bytes 4 psn
  unfolding top
  slice-psn =
      slice_of whole top (le_bytes 4 psn) (le_bytes 8 csn ++ (le_bytes 8 addr ++ (payload ++ rest)))
        4 8 (simp append_assoc) refl (omega (arith, length-le_bytes 4 psn))

  pub slice-csn : slice whole 8 16 ≡ le_bytes 8 csn
  unfolding top
  slice-csn =
      slice_of whole (top ++ le_bytes 4 psn) (le_bytes 8 csn) (le_bytes 8 addr ++ (payload ++ rest))
        8 16 (simp append_assoc) (omega (arith, length-le_bytes 4 psn))
        (omega (arith, length-le_bytes 8 csn))

  pub slice-addr : slice whole 16 24 ≡ le_bytes 8 addr
  unfolding top
  slice-addr =
      slice_of whole ((top ++ le_bytes 4 psn) ++ le_bytes 8 csn) (le_bytes 8 addr) (payload ++ rest)
        16 24 (simp append_assoc)
        (omega (
          arith,
          length-append (top ++ le_bytes 4 psn) (le_bytes 8 csn),
          length-le_bytes 4 psn,
          length-le_bytes 8 csn,
        ))
        (omega (arith, length-le_bytes 8 addr))

  module _ (h : length payload ≡ 1024) where
    pub slice-payload : slice whole 24 1048 ≡ payload
    slice-payload =
        slice_of whole (header version kind psn csn addr) payload rest 24 1048
          (append_assoc (header version kind psn csn addr) payload rest)
          (length-header version kind psn csn addr) (omega arith)

    length-body : length (header version kind psn csn addr ++ payload) ≡ 1048
    length-body = omega (
      arith,
      length-append (header version kind psn csn addr) payload,
      length-header version kind psn csn addr,
    )

    pub slice-body : slice whole 0 1048 ≡ header version kind psn csn addr ++ payload
    slice-body =
        slice_of whole [] (header version kind psn csn addr ++ payload) rest 0 1048 refl refl
          (omega (arith, length-body))

    module _ (k : length rest ≡ 8) where
      pub slice-hash : slice whole 1048 1056 ≡ rest
      slice-hash =
          slice_of whole (header version kind psn csn addr ++ payload) rest [] 1048 1056
            (simp append-nil) length-body (omega arith)

      pub length-whole : length whole ≡ 1056
      length-whole =
          omega
            (arith, length-body, length-append (header version kind psn csn addr ++ payload) rest)

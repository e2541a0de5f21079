-- ===== src/Codec/Packet/Layout.antt =====
-- The bytes that `Marshal` writes: a header of 24 bytes, 1024 bytes of data, the hash of both.
use fec.Prelude.{
  ℕ, suc, ◌+◌, ◌≡◌, refl, sym, ◌∙◌, List, [], ◌∷◌, ◌++◌, arith, append-nil, append_assoc, length,
  length-append, length-take, length-replicate, replicate, replicate-add, set, copy_at,
  copy_at-append, copy_full, slice-append, le_bytes, length-le_bytes,
}
use fec.Codec.Packet.{packet_data_size, hash, marshal_fields}

abbrev pub header : ℕ → ℕ → ℕ → ℕ → ℕ → List ℕ
header version kind psn csn addr =
    (((version ∷ kind ∷ 0 ∷ 0 ∷ []) ++ le_bytes 4 psn) ++ le_bytes 8 csn) ++ le_bytes 8 addr

-- Writing just behind what is filled already.
pub copy_at_zeros :
    (pre src : List ℕ) (k m lo hi : ℕ)
    → length pre ≡ lo
    → length src ≡ k
    → k + lo ≡ hi
    → copy_at (pre ++ replicate (k + m) 0) lo hi src ≡ (pre ++ src) ++ replicate m 0
copy_at_zeros pre src k m lo hi hp hs e = rw (
  replicate-add {A = ℕ} k m 0,
  copy_at-append pre (replicate k 0) (replicate m 0) src lo hi hp
      (omega (arith, length-replicate {A = ℕ} k 0)),
  copy_full (replicate {A = ℕ} k 0) src (hs ∙ sym (length-replicate {A = ℕ} k 0)),
  append_assoc pre src (replicate m 0),
)

first_bytes :
    (m version kind : ℕ)
    → set (set (replicate (suc (suc (suc (suc m)))) 0) 0 version) 1 kind
      ≡ (version ∷ kind ∷ 0 ∷ 0 ∷ []) ++ replicate m 0
unfolding replicate
first_bytes m version kind = refl

module _ (version kind psn csn addr : ℕ) where
  to_psn : List ℕ
  to_psn = (version ∷ kind ∷ 0 ∷ 0 ∷ []) ++ le_bytes 4 psn

  to_csn : List ℕ
  to_csn = to_psn ++ le_bytes 8 csn

  length-to_psn : length to_psn ≡ 8
  unfolding to_psn
  length-to_psn = omega (arith, length-le_bytes 4 psn)

  length-to_csn : length to_csn ≡ 16
  unfolding to_csn
  length-to_csn =
      omega (arith, length-to_psn, length-append to_psn (le_bytes 8 csn), length-le_bytes 8 csn)

  pub length-header : length (header version kind psn csn addr) ≡ 24
  unfolding to_psn to_csn
  length-header =
      omega (arith, length-to_csn, length-append to_csn (le_bytes 8 addr), length-le_bytes 8 addr)

module _ (sha1 : List ℕ → List ℕ) (sha1_len : (x : List ℕ) → length (sha1 x) ≡ 20) where
  pub length-hash : (x : List ℕ) → length (hash sha1 x) ≡ 8
  unfolding hash
  length-hash x = omega (arith, length-take 8 (sha1 x), sha1_len x)

  -- What `Marshal` writes for a packet whose data has the fixed size.
  pub marshal_fields-eq :
      (version kind psn csn addr : ℕ) (payload : List ℕ)
      → length payload ≡ packet_data_size
      → marshal_fields sha1 version kind psn csn addr payload
        ≡ (header version kind psn csn addr ++ payload)
          ++ hash sha1 (header version kind psn csn addr ++ payload)
  unfolding marshal_fields to_psn to_csn
  marshal_fields-eq version kind psn csn addr payload h =
      rw
        (
          first_bytes 1052 version kind,
          copy_at_zeros (version ∷ kind ∷ 0 ∷ 0 ∷ []) (le_bytes 4 psn) 4 1048 4 8 refl
              (length-le_bytes 4 psn) refl,
          copy_at_zeros (to_psn version kind psn csn addr) (le_bytes 8 csn) 8 1040 8 16
              (length-to_psn version kind psn csn addr) (length-le_bytes 8 csn) refl,
          copy_at_zeros (to_csn version kind psn csn addr) (le_bytes 8 addr) 8 1032 16 24
              (length-to_csn version kind psn csn addr) (length-le_bytes 8 addr) refl,
          copy_at_zeros top payload 1024 8 24 1048 (length-header version kind psn csn addr) h refl,
          slice-append [] (top ++ payload) (replicate 8 0) 0 1048 refl (omega (arith, full)),
          copy_at_zeros (top ++ payload) (hash sha1 (top ++ payload)) 8 0 1048 1056 full
              (length-hash (top ++ payload)) refl,
        )
        (unfold replicate in append-nil _)
    where
      top : List ℕ
      top = header version kind psn csn addr

      full : length (top ++ payload) ≡ 1048
      full = omega (arith, h, length-append top payload, length-header version kind psn csn addr)

-- ===== src/Tests/Secure.antt =====
-- A cipher that leaves the text as it is and adds a tag of zeros.
use fec.Prelude.{
  ℕ, ◌+◌, ◌-◌, ◌≡◌, refl, ap, some, List, [], ◌∷◌, ◌++◌, arith, length, length-append,
  length-replicate, replicate, take, take-append,
}
use fec.Io.{got, wrote}
use fec.Secure.{Aead, Reader, Writer, returns, write, read}
use fec.Secure.RoundTrip.{IsGcm, IsWriter, read-write}

abbrev pub plain : Aead
plain = record {
  nonce_size = 12;
  seal = λ nonce p. p ++ replicate 16 0;
  unseal = λ nonce c. some (take (length c - 16) c);
}

pub plain-IsGcm : IsGcm plain
plain-IsGcm = record {
  nonce_12 = refl;
  overhead =
      λ nonce p. omega (arith, length-append p (replicate 16 0), length-replicate {A = ℕ} 16 0);
  opens = λ nonce p h. ap some (
      take-append (length (p ++ replicate 16 0) - 16) p (replicate 16 0)
        (omega (arith, length-append p (replicate 16 0), length-replicate {A = ℕ} 16 0)));
}

abbrev writer : Writer
writer = record { size = 3; nonce = replicate 12 0; aead = plain }

writer-IsWriter : IsWriter writer
writer-IsWriter = record {
  gcm = plain-IsGcm;
  nonce_len = length-replicate {A = ℕ} 12 0;
  fits = omega arith;
}

abbrev reader : Reader
reader = record { size = 3; aead = plain }

read-write_example :
    (block : List ℕ) × ((write writer (7 ∷ 8 ∷ 9 ∷ []) (some (replicate 12 5)) (λ b. wrote 31)).1.0
      ≡ some block)
    × (length block ≡ 3 + 28)
    × (read reader (0 ∷ 0 ∷ 0 ∷ []) (got block) ≡ (returns 3, 7 ∷ 8 ∷ 9 ∷ []))
read-write_example =
    read-write writer reader (7 ∷ 8 ∷ 9 ∷ []) (0 ∷ 0 ∷ 0 ∷ []) (replicate 12 5) (λ b. wrote 31)
      writer-IsWriter refl refl refl refl (length-replicate {A = ℕ} 12 5)

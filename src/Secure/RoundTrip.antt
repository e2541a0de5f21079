-- ===== src/Secure/RoundTrip.antt =====
-- What the reader of src/secure makes of what the writer wrote.
use fec.Prelude.{
  true, Option, ◌≤◌, ℕ, ◌+◌, ◌<◌, ◌^◌, ◌≡◌, refl, sym, ap, ap₂, ◌∙◌, some, List, ◌++◌, arith,
  ltb-false, le→leb, ◌==◌, ==_refl, length, length-append, length-drop, length-replicate, min, take,
  take_all, take-append, drop, drop-append, replicate, copy, copy_full, copy_at_end,
}
use fec.Io.{got, Wrote}
use fec.Secure.{
  Aead, Reader, Writer, reader_size, writer_size, returns, sealed_into, write, read, new_reader,
  new_writer,
}

-- The documented behaviour of AES-GCM: a nonce of 12 bytes, a tag of 16 bytes, and `Open` undoes
-- `Seal` under the same nonce.
pub record IsGcm (aead : Aead) : Type 0 where
  pub nonce_12 : aead.nonce_size ≡ 12
  pub overhead : (nonce p : List ℕ) → length (aead.seal nonce p) ≡ length p + 16
  pub opens :
      (nonce p : List ℕ) → length nonce ≡ 12 → aead.unseal nonce (aead.seal nonce p) ≡ some p

-- A writer whose blocks do not overflow a uint16.
pub record IsWriter (w : Writer) : Type 0 where
  pub gcm : IsGcm w.aead
  pub nonce_len : length w.nonce ≡ 12
  pub fits : w.size + 28 < 2 ^ 16

block-eq :
    (n : ℕ) (random text : List ℕ)
    → length random ≡ 12
    → length text + 12 ≡ n
    → sealed_into (copy (replicate n 0) random) text ≡ random ++ text
unfolding sealed_into copy
block-eq n random text hr ht =
    let room : length (replicate {A = ℕ} n 0) ≡ n = length-replicate {A = ℕ} n 0 in
    let front : take (length (replicate {A = ℕ} n 0)) random ≡ random =
      take_all (length (replicate {A = ℕ} n 0)) random (omega arith) in
    let tail : List ℕ = drop (length random) (replicate n 0) in
    let tail_len : length tail ≡ length text =
      omega (arith, length-drop (length random) (replicate {A = ℕ} n 0)) in
    let whole : 12 + length text ≡ length (random ++ tail) =
      omega (arith, length-append random tail) in
    rw (front, whole, le→leb (length (random ++ tail)) (length (random ++ tail)) (omega arith))
      (copy_at_end random tail text 12 hr
        ∙ ap (λ x. random ++ x) (copy_full tail text (sym tail_len)))

writer_size_lem : (w : Writer) → IsWriter w → writer_size w ≡ w.size + 28
unfolding writer_size
writer_size_lem w v = omega (arith, v.nonce_len, v.fits)

written :
    (w : Writer) (p random : List ℕ) (accepted : List ℕ → Wrote)
    → IsWriter w
    → length p ≡ w.size
    → length random ≡ 12
    → (write w p (some random) accepted).1.0 ≡ some (random ++ w.aead.seal random p)
unfolding write
written w p random accepted v hp hr =
    rw
      (
        ap (λ n. n == w.size) hp ∙ ==_refl w.size,
        ap₂ (λ m n. m == n) hr v.nonce_len ∙ ==_refl 12,
        copy_full w.nonce random (hr ∙ sym v.nonce_len),
        writer_size_lem w v,
        block-eq (w.size + 28) random (w.aead.seal random p) hr
            (omega (arith, v.gcm.overhead random p)),
        ap (λ n. n == 12) {x = min (w.size + 28) (length random)} {y = 12} (omega arith)
            ∙ ==_refl 12,
      )
      refl

reader_size_lem :
    (r : Reader) (w : Writer)
    → IsWriter w
    → r.aead ≡ w.aead
    → r.size ≡ w.size
    → reader_size r ≡ w.size + 28
unfolding reader_size
reader_size_lem r w v same_aead same_size =
    omega (arith, same_size, ap (λ a. a.nonce_size) same_aead ∙ v.gcm.nonce_12, v.fits)

read-block :
    (r : Reader) (q random sealed p : List ℕ)
    → length (random ++ sealed) ≡ reader_size r
    → length random ≡ 12
    → r.aead.unseal random sealed ≡ some p
    → length p ≤ length q
    → length p ≡ r.size
    → read r q (got (random ++ sealed)) ≡ (returns r.size, copy q p)
unfolding read
read-block r q random sealed p len hr opens hq hp =
    let all : min (length q) (length p) ≡ r.size = omega (arith, hq, hp) in
    rw
      (
        ap (λ n. n == reader_size r) len ∙ ==_refl (reader_size r),
        ltb-false (length (random ++ sealed)) 12 (omega (arith, length-append random sealed)),
        take-append 12 random sealed hr,
        drop-append 12 random sealed hr,
        opens,
        read,
        all,
        ==_refl r.size,
      )
      refl

-- The same into an argument that may be longer than the text.
pub read-write_into :
    (w : Writer) (r : Reader) (p q random : List ℕ) (accepted : List ℕ → Wrote)
    → IsWriter w
    → r.aead ≡ w.aead
    → r.size ≡ w.size
    → length p ≡ w.size
    → w.size ≤ length q
    → length random ≡ 12
    → (block : List ℕ) × ((write w p (some random) accepted).1.0 ≡ some block)
      × (length block ≡ w.size + 28)
      × (read r q (got block) ≡ (returns w.size, copy q p))
read-write_into w r p q random accepted v same_aead same_size hp hq hr = (
  random ++ w.aead.seal random p,
  written w p random accepted v hp hr,
  omega (arith, length-append random (w.aead.seal random p), v.gcm.overhead random p),
  read-block r q random (w.aead.seal random p) p
        (omega (
          arith,
          length-append random (w.aead.seal random p),
          v.gcm.overhead random p,
          reader_size_lem r w v same_aead same_size,
        ))
        hr (ap (λ a. a.unseal random (w.aead.seal random p)) same_aead ∙ v.gcm.opens random p hr)
        (omega arith) (hp ∙ sym same_size)
      ∙ ap (λ n. (returns n, copy q p)) same_size,
)

-- With a cipher that behaves as AES-GCM is documented, and a size that does not overflow: a block
-- that the writer wrote with a nonce of 12 random bytes, whatever the stream answers, is 28 bytes
-- longer than the text; and the reader of the same size and secret, if the block comes whole,
-- returns the text's length and the text.
pub read-write :
    (w : Writer) (r : Reader) (p q random : List ℕ) (accepted : List ℕ → Wrote)
    → IsWriter w
    → r.aead ≡ w.aead
    → r.size ≡ w.size
    → length p ≡ w.size
    → length q ≡ w.size
    → length random ≡ 12
    → (block : List ℕ) × ((write w p (some random) accepted).1.0 ≡ some block)
      × (length block ≡ w.size + 28)
      × (read r q (got block) ≡ (returns w.size, p))
read-write w r p q random accepted v same_aead same_size hp hq hr =
    let (block, sent, len, back) =
      read-write_into w r p q random accepted v same_aead same_size hp (omega arith) hr in
    (block, sent, len, back ∙ ap (λ x. (returns w.size, x)) (copy_full q p (hp ∙ sym hq)))

-- The constructors, over a cipher.
pub new_writer-made :
    (new_gcm : List ℕ → Option Aead) (size : ℕ) (secret : List ℕ) (aead : Aead)
    → new_gcm secret ≡ some aead
    → new_writer new_gcm true size secret
      ≡ some (record { size = size; nonce = replicate aead.nonce_size 0; aead = aead })
unfolding new_writer
new_writer-made new_gcm size secret aead e = rw (new_writer, e) refl

pub new_reader-made :
    (new_gcm : List ℕ → Option Aead) (size : ℕ) (secret : List ℕ) (aead : Aead)
    → new_gcm secret ≡ some aead
    → new_reader new_gcm true size secret ≡ some (record { size = size; aead = aead })
unfolding new_reader
new_reader-made new_gcm size secret aead e = rw (new_reader, e) refl

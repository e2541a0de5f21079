-- ===== src/Secure.antt =====
-- src/secure: a writer that encrypts blocks of a fixed size, and a reader that decrypts them.
-- AES-GCM of crypto/cipher is the parameter `Aead`; `crypto/rand` and the stream below are what a
-- call gets.
pub mod RoundTrip
use fec.Prelude.{
  ℕ, ◌+◌, ◌-◌, ◌%◌, ◌^◌, ◌≡◌, Bool, Option, none, some, List, [], if◌then◌else◌, ltb, leb, ◌==◌,
  not, length, min, take, drop, replicate, copy, copy_at,
}
use fec.Io.{Got, got, read_error, Wrote, wrote, write_error}

-- `cipher.AEAD`: the size of a nonce, `Seal` without its destination, over the nonce and the text,
-- and `Open`, `none` being an error.
pub record Aead : Type 0 where
  pub nonce_size : ℕ
  pub seal : List ℕ → List ℕ → List ℕ
  pub unseal : List ℕ → List ℕ → Option (List ℕ)

-- `BlockSize` of src/secure/secure.go.
abbrev pub block_size : ℕ
block_size = 16

-- Go's uint16 wraps.
abbrev pub u16 : ℕ → ℕ
u16 n = n % 2 ^ 16

pub record Reader : Type 0 where
  pub size : ℕ
  pub aead : Aead

pub record Writer : Type 0 where
  pub size : ℕ
  pub nonce : List ℕ
  pub aead : Aead

unfoldable pub reader_size : Reader → ℕ
reader_size r = u16 (u16 (r.size + block_size) + u16 r.aead.nonce_size)

unfoldable pub writer_size : Writer → ℕ
writer_size w = u16 (u16 (w.size + u16 (length w.nonce)) + block_size)

-- `aes.NewCipher` with `cipher.NewGCM` is the argument, over the secret; `none` is an error. The
-- test tells whether there is a stream below.
unfoldable pub new_reader : (List ℕ → Option Aead) → Bool → ℕ → List ℕ → Option Reader
new_reader new_gcm stream size secret = elim (new_gcm secret) [
  | none ↦ none
  | some aead ↦ if stream then some (record { size = size; aead = aead }) else none
]

unfoldable pub new_writer : (List ℕ → Option Aead) → Bool → ℕ → List ℕ → Option Writer
new_writer new_gcm stream size secret = elim (new_gcm secret) [
  | none ↦ none
  | some aead ↦
      if stream
      then some (record { size = size; nonce = replicate aead.nonce_size 0; aead = aead })
      else none
]

-- How a call ends: the number of bytes that it returns, without an error or with one; or a panic.
pub data Returns : Type 0 where
  returns fails : ℕ → Returns
  panics : Returns

-- `aead.Seal(data[12:12], …)` writes behind the nonce, if the sealed text fits there; otherwise it
-- goes into a buffer of its own, which is dropped.
unfoldable pub sealed_into : List ℕ → List ℕ → List ℕ
sealed_into block text =
    if leb (12 + length text) (length block)
    then copy_at block 12 (12 + length text) text
    else block

-- The answer of `Write`, of that of the stream below, for a block of `len` bytes.
unfoldable pub answered : Wrote → ℕ → Returns
answered (write_error n) len = fails n
answered (wrote n) len = if n == len then returns n else fails n

-- `Write`: `random` is what `crypto/rand` gives, and `accepted` what the stream below answers, if
-- it is called. The answer, what is written to the stream, and the writer.
unfoldable pub write :
    Writer → List ℕ → Option (List ℕ) → (List ℕ → Wrote) → Returns × (Option (List ℕ) × Writer)
write w p none accepted = (fails 0, (none, w))
write w p (some random) accepted =
    let nonce = copy w.nonce random in
    let w' : Writer = record w { nonce = nonce } in
    let block = copy (replicate (writer_size w) 0) nonce in
    let block = sealed_into block (w.aead.seal nonce p) in
    if not (length p == w.size)
    then (fails 0, (none, w))
    else if not (length random == length w.nonce)
    then (fails 0, (none, w'))
    else if not (min (writer_size w) (length nonce) == 12)
    then (fails 0, (none, w'))
    else (answered (accepted block) (length block), (some block, w'))

-- `Read` into `p`, with what the stream below reads. The answer, and `p`
-- as the call leaves it.
unfoldable pub read : Reader → List ℕ → Got → Returns × List ℕ
read r p (read_error n) = (fails n, p)
read r p (got input) =
    if not (length input == reader_size r)
    then (fails (length input), p)
    else if ltb (length input) 12
    then (panics, p)
    else elim (r.aead.unseal (take 12 input) (drop 12 input)) [
      | none ↦ (returns 0, p)
      | some text ↦
          let n = min (length p) (length text) in
          ((if n == r.size then returns n else fails n), copy p text)
    ]

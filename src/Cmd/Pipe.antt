-- ===== src/Cmd/Pipe.antt =====
-- What one client's `Handler` of cmd/client/main.go writes, and another's reads.
use fec.Prelude.{
  ℕ, ◌+◌, ◌≤◌, ◌≡◌, refl, ap, ◌∙◌, Option, none, some, List, arith, length, length-replicate,
  replicate, copy, add64,
}
use fec.Io.{got, Wrote}
use fec.Codec.Packet.{packet_size}
use fec.Observer.{new_meter, call}
use fec.Observer.Reader.{new_reader}
use fec.Observer.Writer.{new_writer}
use fec.Secure.{Aead, Returns, returns}
use fec.Secure
use fec.Secure.RoundTrip.{IsGcm, IsWriter, read-write_into, new_writer-made, new_reader-made}
use fec.Cmd.Handler.{
  Handler, ServerReader, ServerWriter, secure_reader, secure_writer, handler_reader, handler_writer,
  plain_read, read_through, read, write,
}

-- If there is a secret, there is a cipher for it, and it behaves as AES-GCM is documented.
abbrev pub HasCipher : (List ℕ → Option Aead) → Option (List ℕ) → Type 0
HasCipher new_gcm none = Unit
HasCipher new_gcm (some secret) = (aead : Aead) × (new_gcm secret ≡ some aead) × IsGcm aead

abbrev pub handler_of : Option (List ℕ) → Handler
handler_of secret = record { secret = secret }

-- How long a packet is on the wire.
abbrev pub wire_size : Option (List ℕ) → ℕ
wire_size none = packet_size
wire_size (some secret) = packet_size + 28

abbrev secured : Secure.Writer → ServerWriter
secured w = record { meter = new_meter; secure = some w }

write-secured :
    (w : Secure.Writer) (p : List ℕ) (random : Option (List ℕ)) (accepted : List ℕ → Wrote)
    → (write (secured w) p random accepted).1.0 ≡ (Secure.write w p random accepted).1.0
unfolding write
write-secured w p random accepted = refl

-- Two clients with the same secret, or both without one: both get what they read and write through.
-- A packet that the first writes, with a nonce of 12 random bytes if it needs one, whatever the
-- connection answers, is one datagram, longer by 28 bytes if there is a secret. If it comes whole
-- to the second, into an argument with room for it, it is read back as it was, and the second's
-- meter counts the bytes of the datagram.
pub read-write_through :
    (new_gcm : List ℕ → Option Aead) (secret : Option (List ℕ)) (p q random : List ℕ)
    (accepted : List ℕ → Wrote)
    → HasCipher new_gcm secret
    → length p ≡ packet_size
    → packet_size ≤ length q
    → length random ≡ 12
    → (w : ServerWriter) × (r : ServerReader) × (block : List ℕ) × (handler_writer new_gcm
          (handler_of secret)
        ≡ some w)
      × (handler_reader new_gcm (handler_of secret) ≡ some r)
      × ((write w p (some random) accepted).1.0 ≡ some block)
      × (length block ≡ wire_size secret)
      × ((read r q (got block)).0 ≡ (returns packet_size, copy q p))
      × ((read r q (got block)).1.meter.total ≡ length block)
unfolding handler_reader handler_writer secure_reader secure_writer new_reader new_writer read write
    read_through plain_read call
read-write_through new_gcm none p q random accepted c hp hq hr = (
  record { meter = new_meter; secure = none },
  record { meter = new_meter; secure = none },
  p,
  refl,
  refl,
  refl,
  hp,
  ap (λ n. (returns n, copy q p)) hp,
  (let counted : add64 0 (length p) ≡ length p = omega (arith, hp) in counted),
)
read-write_through new_gcm (some secret) p q random accepted (aead, cipher, gcm) hp hq hr =
    let w : Secure.Writer = record {
      size = packet_size;
      nonce = replicate aead.nonce_size 0;
      aead = aead;
    } in
    let r : Secure.Reader = record { size = packet_size; aead = aead } in
    let v : IsWriter w = record {
      gcm = gcm;
      nonce_len = length-replicate {A = ℕ} aead.nonce_size 0 ∙ gcm.nonce_12;
      fits = omega arith;
    } in
    let (block, sent, len, back) = read-write_into w r p q random accepted v refl refl hp hq hr in
    (
      secured w,
      record { meter = new_meter; secure = some r },
      block,
      rw (handler_writer, secure_writer, new_writer-made new_gcm packet_size secret aead cipher)
          refl,
      rw (handler_reader, secure_reader, new_reader-made new_gcm packet_size secret aead cipher)
          refl,
      write-secured w p (some random) accepted ∙ sent,
      len,
      back,
      (let counted : add64 0 (length block) ≡ length block = omega (arith, len) in counted),
    )

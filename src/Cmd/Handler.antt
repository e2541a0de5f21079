-- ===== src/Cmd/Handler.antt =====
-- `Handler` of cmd/client/main.go: what the client reads from and writes to the relay through,
-- which is the connection, counted, and encrypted if there is a secret. The connection is there,
-- and the constructor of a reporter does not fail.
use fec.Prelude.{ℕ, Bool, true, Option, none, some, List, if◌then◌else◌, length, copy}
use fec.Io.{Got, got, read_error, Wrote, wrote, write_error}
use fec.Codec.Packet.{packet_size}
use fec.Observer.{Meter, made, failed}
use fec.Observer.Reader
use fec.Observer.Writer
use fec.Secure.{Aead, Returns, returns, fails}
use fec.Secure

pub record Handler : Type 0 where
  pub secret : Option (List ℕ)

-- Whether there is an output.
unfoldable pub new_handler : Bool → Option (List ℕ) → Option Handler
new_handler output secret = if output then some (record { secret = secret }) else none

pub record ServerReader : Type 0 where
  pub meter : Meter
  pub secure : Option Secure.Reader

pub record ServerWriter : Type 0 where
  pub meter : Meter
  pub secure : Option Secure.Writer

-- `new_gcm` is the cipher over a secret, as in `Secure`.
module _ (new_gcm : List ℕ → Option Aead) where
  unfoldable pub secure_reader : Option (List ℕ) → Meter → Option ServerReader
  secure_reader none meter = some (record { meter = meter; secure = none })
  secure_reader (some secret) meter = elim (Secure.new_reader new_gcm true packet_size secret) [
    | none ↦ none
    | some r ↦ some (record { meter = meter; secure = some r })
  ]

  unfoldable pub secure_writer : Option (List ℕ) → Meter → Option ServerWriter
  secure_writer none meter = some (record { meter = meter; secure = none })
  secure_writer (some secret) meter = elim (Secure.new_writer new_gcm true packet_size secret) [
    | none ↦ none
    | some w ↦ some (record { meter = meter; secure = some w })
  ]

  -- `Handler.Reader` and `Handler.Writer`.
  unfoldable pub handler_reader : Handler → Option ServerReader
  handler_reader h = elim (Reader.new_reader true true) [
    | failed e ↦ none
    | made meter ↦ secure_reader h.secret meter
  ]

  unfoldable pub handler_writer : Handler → Option ServerWriter
  handler_writer h = elim (Writer.new_writer true true) [
    | failed e ↦ none
    | made meter ↦ secure_writer h.secret meter
  ]

-- The connection's answer, as the argument sees it.
unfoldable pub plain_read : List ℕ → Got → Returns × List ℕ
plain_read p (got bytes) = (returns (length bytes), copy p bytes)
plain_read p (read_error n) = (fails n, p)

unfoldable pub plain_write : Wrote → Returns
plain_write (wrote n) = returns n
plain_write (write_error n) = fails n

unfoldable pub read_through : Option Secure.Reader → List ℕ → Got → Returns × List ℕ
read_through none p answer = plain_read p answer
read_through (some r) p answer = Secure.read r p answer

-- A call of `Read` of what `Handler.Reader` returns: the connection is read once, through the
-- meter.
unfoldable pub read : ServerReader → List ℕ → Got → (Returns × List ℕ) × ServerReader
read r p answer =
    let (a, meter) = Reader.read r.meter answer in
    (read_through r.secure p a, record r { meter = meter })

-- What the meter counts of what was written, if something was.
unfoldable pub count_written : Meter → Option (List ℕ) → (List ℕ → Wrote) → Meter
count_written meter none accepted = meter
count_written meter (some block) accepted = (Writer.write meter (accepted block)).1

-- A call of `Write` of what `Handler.Writer` returns: `random` and `accepted` as in `Secure.write`.
-- The answer, what is written to the connection, and the writer.
unfoldable pub write :
    ServerWriter
    → List ℕ
    → Option (List ℕ)
    → (List ℕ → Wrote)
    → Returns × (Option (List ℕ) × ServerWriter)
write w p random accepted = elim (w.secure) [
  | none ↦ (
    plain_write (accepted p),
    (some p, record w { meter = count_written w.meter (some p) accepted }),
  )
  | some s ↦
      let (answer, (block, s')) = Secure.write s p random accepted in
      (answer, (block, record { meter = count_written w.meter block accepted; secure = some s' }))
]

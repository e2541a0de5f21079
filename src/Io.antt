-- ===== src/Io.antt =====
-- What a stream that stands below a reader or a writer (`io.Reader`, `io.Writer`) answers to a
-- call: the bytes that it reads, or how many it writes; or an error, with a number of bytes.
use fec.Prelude.{ℕ, List}

pub data Got : Type 0 where
  got : List ℕ → Got
  read_error : ℕ → Got

pub data Wrote : Type 0 where
  wrote : ℕ → Wrote
  write_error : ℕ → Wrote

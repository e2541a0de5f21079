-- ===== src/Observer/Reader.antt =====
-- src/observer/reader.go.
use fec.Prelude.{ℕ, Bool, if◌then◌else◌, length}
use fec.Io.{Got, got, read_error}
use fec.Observer.{Meter, New, made, failed, no_stream, no_reporter, new_meter, call}

abbrev pub Reader : Type 0
Reader = Meter

-- Whether there are a source and a reporter.
unfoldable pub new_reader : Bool → Bool → New
new_reader src rep =
    if src then if rep then made new_meter else failed no_reporter else failed no_stream

-- `n` of `n, err`.
abbrev pub read_count : Got → ℕ
read_count (got bytes) = length bytes
read_count (read_error n) = n

-- `Read` answers as the source does.
abbrev pub read : Reader → Got → Got × Reader
read = call read_count

-- ===== src/Observer/Writer.antt =====
-- src/observer/writer.go.
use fec.Prelude.{ℕ, Bool, if◌then◌else◌, List, Option}
use fec.Io.{Wrote, wrote, write_error}
use fec.Observer.{
  Meter, New, made, failed, no_stream, no_reporter, new_meter, call, Report, observe, close,
}

abbrev pub Writer : Type 0
Writer = Meter

-- Whether there are a destination and a reporter.
unfoldable pub new_writer : Bool → Bool → New
new_writer dst rep =
    if dst then if rep then made new_meter else failed no_reporter else failed no_stream

-- `n` of `n, err`.
abbrev pub write_count : Wrote → ℕ
write_count (wrote n) = n
write_count (write_error n) = n

-- `Write` answers as the destination does.
abbrev pub write : Writer → Wrote → Wrote × Writer
write = call write_count

-- The goroutine, and `Close`, as those of the reader.
abbrev pub observe_writer : Writer → List Report × Writer
observe_writer = observe

abbrev pub close_writer : Writer → Option Writer
close_writer = close

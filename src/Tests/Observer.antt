-- ===== src/Tests/Observer.antt =====
-- Three bytes through an observer, with a failing read behind them.
use fec.Prelude.{◌≤◌, ◌≡◌, refl, some, List, [], ◌∷◌, arith}
use fec.Io.{Got, got, read_error, wrote, write_error}
use fec.Observer.{Meter, new_meter, Event, calls, round, closes, Seen, observe_all}
use fec.Observer.Reader.{read_count}
use fec.Observer.Writer.{write_count}
use fec.Observer.Totals.{reported, given, sum_count, observe_all_lem}

abbrev reads : List (Event Got)
reads =
    calls (got (1 ∷ 2 ∷ []))
    ∷ round
    ∷ round
    ∷ calls (got (3 ∷ []))
    ∷ round
    ∷ closes
    ∷ round
    ∷ calls (read_error 0)
    ∷ []

observe_all_lem_example :
    (s : Seen Got) × (b : Meter) × (observe_all read_count new_meter reads ≡ some (s, b))
    × (s.answers ≡ got (1 ∷ 2 ∷ []) ∷ got (3 ∷ []) ∷ read_error 0 ∷ [])
    × (b.total ≡ 3)
    × (reported s.reports ≡ b.total_before)
    × (b.total_before ≤ b.total)
unfolding given sum_count
observe_all_lem_example = observe_all_lem read_count reads (refl, tt) (omega arith)

-- A writer that writes five bytes and breaks behind two more.
writes_total : sum_count write_count (wrote 5 ∷ write_error 2 ∷ []) ≡ 7
unfolding sum_count
writes_total = refl

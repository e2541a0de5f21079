-- ===== src/Observer.antt =====
-- src/observer: a reader and a writer that count the bytes which go through them, and report the
-- count and what was added to it from time to time. The two have the same code up to the stream
-- below, which `call` takes by what it answers. The goroutine that reports and the calls share one
-- counter, which is read and added to in one step (`sync/atomic`).
pub mod Reader
pub mod Writer
pub mod Totals
use fec.Prelude.{
  ℕ, ◌-◌, Bool, true, false, Option, none, some, List, [], ◌∷◌, ◌++◌, if◌then◌else◌, ltb, add64,
}

-- How the constructors fail, and what they make.
pub data NewError : Type 0 where
  no_stream no_reporter : NewError

-- The fields without the stream below and the reporter; `done` tells whether the channel is closed.
pub record Meter : Type 0 where
  pub done : Bool
  pub total_before : ℕ
  pub total : ℕ

pub data New : Type 0 where
  made : Meter → New
  failed : NewError → New

abbrev pub new_meter : Meter
new_meter = record { done = false; total_before = 0; total = 0 }

-- `Report(total, delta)`, a call of the reporter.
pub record Report : Type 0 where
  pub total : ℕ
  pub delta : ℕ

-- What is reported: nothing new if the counter has gone back (`bits.Sub64` underflows).
unfoldable pub report : ℕ → ℕ → Report
report total before = record {
  total = total;
  delta = if ltb total before then 0 else total - before;
}

-- A round of the goroutine, which ends once the channel is closed.
unfoldable pub observe : Meter → List Report × Meter
observe m =
    if m.done
    then ([], m)
    else (report m.total m.total_before ∷ [], record m { total_before = m.total })

-- `none` is a panic: the channel is closed twice.
unfoldable pub close : Meter → Option Meter
close m = if m.done then none else some (record m { done = true })

-- `A` is what the stream below answers to a call, and `count` the `n` in it.
module _ {A : Type 0} (count : A → ℕ) where
  unfoldable pub call : Meter → A → A × Meter
  call m answer = (answer, record m { total = add64 m.total (count answer) })

-- A call, with what the stream below answers; a round of the goroutine; a call of `Close`.
pub data Event (A : Type 0) : Type 0 where
  calls : A → Event A
  round : Event A
  closes : Event A

-- What the calls answer, and what is reported.
pub record Seen (A : Type 0) : Type 0 where
  pub answers : List A
  pub reports : List Report

module _ {A : Type 0} (count : A → ℕ) where
  unfoldable pub step : Meter → Event A → Option (Seen A × Meter)
  step m (calls answer) =
      let (a, m') = call count m answer in some (record { answers = a ∷ []; reports = [] }, m')
  step m round =
      let (reports, m') = observe m in some (record { answers = []; reports = reports }, m')
  step m closes = elim (close m) [
    | none ↦ none
    | some m' ↦ some (record { answers = []; reports = [] }, m')
  ]

  -- Any interleaving of calls and rounds.
  unfoldable pub observe_all : Meter → List (Event A) → Option (Seen A × Meter)
  observe_all m [] = some (record { answers = []; reports = [] }, m)
  observe_all m (e ∷ events) = elim (step m e) [
    | none ↦ none
    | some (s, m') ↦ elim (observe_all m' events) [
      | none ↦ none
      | some (t, b) ↦
          some (record { answers = s.answers ++ t.answers; reports = s.reports ++ t.reports }, b)
    ]
  ]

-- ===== src/Observer/Totals.antt =====
-- What src/observer counts and reports, whatever the interleaving of calls and rounds.
use fec.Prelude.{
  ℕ, ◌+◌, ◌^◌, ◌≤◌, ◌<◌, ◌≡◌, refl, ap, Bool, true, false, Bool-cases, inl, inr, some, List, [],
  ◌∷◌, arith, ltb-false, add64,
}
use fec.Observer.{
  Meter, new_meter, Report, report, observe, close, call, Event, calls, round, closes, Seen, step,
  observe_all,
}

-- As long as the counter does not go back, a report is what was added.
report-delta : (total before : ℕ) → before ≤ total → before + (report total before).delta ≡ total
unfolding report
report-delta total before h = rw (ltb-false total before h) (omega arith)

-- The sum of what is reported.
unfoldable pub reported : List Report → ℕ
reported [] = 0
reported (r ∷ rs) = r.delta + reported rs

module _ {A : Type 0} (count : A → ℕ) where
  -- What the stream below answers.
  unfoldable pub given : List (Event A) → List A
  given [] = []
  given (calls a ∷ events) = a ∷ given events
  given (round ∷ events) = given events
  given (closes ∷ events) = given events

  -- The bytes of these answers.
  unfoldable pub sum_count : List A → ℕ
  sum_count [] = 0
  sum_count (a ∷ answers) = count a + sum_count answers

  -- `Close` is called once at most, if the channel is open, and not otherwise.
  abbrev pub ClosesOnce : Bool → List (Event A) → Type 0
  ClosesOnce done [] = Unit
  ClosesOnce done (calls a ∷ events) = ClosesOnce done events
  ClosesOnce done (round ∷ events) = ClosesOnce done events
  ClosesOnce done (closes ∷ events) = (done ≡ false) × ClosesOnce true events

  -- What a sequence of events leaves of `m`.
  record Counts (m : Meter) (answers : List A) (s : Seen A) (b : Meter) : Type 0 where
    same : s.answers ≡ answers
    counted : b.total ≡ m.total + sum_count answers
    added : m.total_before + reported s.reports ≡ b.total_before
    behind : b.total_before ≤ b.total

  Counts-none :
      (m : Meter) → m.total_before ≤ m.total → Counts m [] (record { answers = []; reports = [] }) m
  unfolding sum_count reported
  Counts-none m h = record { same = refl; counted = omega arith; added = omega arith; behind = h }

  call-Counts :
      (m : Meter) (a : A) (answers : List A) (s : Seen A) (b : Meter)
      → m.total + (count a + sum_count answers) < 2 ^ 64
      → Counts (record m { total = add64 m.total (count a) }) answers s b
      → Counts m (a ∷ answers) (record { answers = a ∷ s.answers; reports = s.reports }) b
  unfolding sum_count
  call-Counts m a answers s b small c = record {
    same = ap (λ xs. a ∷ xs) c.same;
    counted = omega (arith, c.counted, small);
    added = c.added;
    behind = c.behind;
  }

  observe-Counts :
      (m : Meter) (answers : List A) (s : Seen A) (b : Meter)
      → m.total_before ≤ m.total
      → Counts (record m { total_before = m.total }) answers s b
      → Counts m answers
          (record { answers = s.answers; reports = report m.total m.total_before ∷ s.reports })
          b
  unfolding reported
  observe-Counts m answers s b h c = record {
    same = c.same;
    counted = c.counted;
    added = omega (arith, c.added, report-delta m.total m.total_before h);
    behind = c.behind;
  }

  step-call :
      (m : Meter) (a : A)
      → step count m (calls a)
        ≡ some (
          record { answers = a ∷ []; reports = [] },
          record m { total = add64 m.total (count a) },
        )
  unfolding step call
  step-call m a = refl

  step-close :
      (m : Meter)
      → m.done ≡ false
      → step count m closes ≡ some (record { answers = []; reports = [] }, record m { done = true })
  unfolding step close
  step-close m e = rw (close, e) refl

  step-done :
      (m : Meter)
      → m.done ≡ true
      → step count m round ≡ some (record { answers = []; reports = [] }, m)
  unfolding step observe
  step-done m e = rw (observe, e) refl

  step-report :
      (m : Meter)
      → m.done ≡ false
      → step count m round
        ≡ some (
          record { answers = []; reports = report m.total m.total_before ∷ [] },
          record m { total_before = m.total },
        )
  unfolding step observe
  step-report m e = rw (observe, e) refl

  observe_all-Counts :
      (m : Meter) (events : List (Event A))
      → ClosesOnce m.done events
      → m.total_before ≤ m.total
      → m.total + sum_count (given events) < 2 ^ 64
      → (s : Seen A) × (b : Meter) × (observe_all count m events ≡ some (s, b))
        × Counts m (given events) s b
  unfolding observe_all given sum_count
  observe_all-Counts m [] once h small = (_, m, refl, Counts-none m h)
  observe_all-Counts m (calls a ∷ events) once h small =
      let m' : Meter = record m { total = add64 m.total (count a) } in
      let (s, b, later, c) =
        observe_all-Counts m' events once (omega (arith, h, small)) (omega (arith, small)) in
      (
        record { answers = a ∷ s.answers; reports = s.reports },
        b,
        rw (step-call m a, observe_all, later) refl,
        call-Counts m a (given events) s b small c,
      )
  observe_all-Counts m (round ∷ events) once h small = elim (Bool-cases m.done) [
    | inl e ↦
        let (s, b, later, c) = observe_all-Counts m events once h small in
        (s, b, rw (step-done m e, observe_all, later) refl, c)
    | inr e ↦
        let m' : Meter = record m { total_before = m.total } in
        let (s, b, later, c) = observe_all-Counts m' events once (omega arith) small in
        (
          record { answers = s.answers; reports = report m.total m.total_before ∷ s.reports },
          b,
          rw (step-report m e, observe_all, later) refl,
          observe-Counts m (given events) s b h c,
        )
  ]
  observe_all-Counts m (closes ∷ events) (not_done, once) h small =
      let m' : Meter = record m { done = true } in
      let (s, b, later, c) = observe_all-Counts m' events once h small in
      (
        s,
        b,
        rw (step-close m not_done, observe_all, later) refl,
        record { same = c.same; counted = c.counted; added = c.added; behind = c.behind },
      )

  -- A new observer, over any interleaving of calls, rounds of its goroutine and at most one
  -- `Close`, as long as fewer than 2 ^ 64 bytes go through it: nothing panics, every call answers
  -- as the stream below does, the counter is the sum of the bytes of all calls, and what was
  -- reported adds up to the counter at the last report, so that no byte is reported twice and none
  -- is left out.
  pub observe_all_lem :
      (events : List (Event A))
      → ClosesOnce false events
      → sum_count (given events) < 2 ^ 64
      → (s : Seen A) × (b : Meter) × (observe_all count new_meter events ≡ some (s, b))
        × (s.answers ≡ given events)
        × (b.total ≡ sum_count (given events))
        × (reported s.reports ≡ b.total_before)
        × (b.total_before ≤ b.total)
  observe_all_lem events once small =
      let (s, b, goes, c) =
        observe_all-Counts new_meter events once (omega arith) (omega (arith, small)) in
      (s, b, goes, c.same, omega (arith, c.counted), omega (arith, c.added), c.behind)

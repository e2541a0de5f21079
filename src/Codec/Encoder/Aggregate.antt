-- ===== src/Codec/Encoder/Aggregate.antt =====
-- `aggregate` and `aggregatorFlush` of src/codec/encoder.go.
pub mod Stream
pub mod Count
use mathlib.Core.Option
use fec.Prelude.{
  ℕ, zero, suc, ◌-◌, Option, none, some, List, [], ◌∷◌, ◌++◌, if◌then◌else◌, ◌==◌, length, take,
  drop, min,
}
use fec.Codec.Encoder.{Aggregator}

-- What is sent to `encodeQueue`, and the aggregator behind it.
unfoldable pub aggregator_flush : Aggregator → List ℕ × Aggregator
aggregator_flush a = (a.buf, record a { buf = [] })

-- `for len(data) > 0`, on fuel; `none` means that the fuel ran out.
unfoldable pub aggregate_loop : ℕ → Aggregator → List ℕ → Option (List (List ℕ) × Aggregator)
aggregate_loop fuel a [] = some ([], a)
aggregate_loop zero a (x ∷ src) = none
aggregate_loop (suc fuel) a (x ∷ src) =
    let sep = min (a.cap - length a.buf) (length (x ∷ src)) in
    let filled : Aggregator = record a { buf = a.buf ++ take sep (x ∷ src) } in
    let (chunk, emptied) = aggregator_flush filled in
    let full = length filled.buf == a.cap in
    let rest = aggregate_loop fuel (if full then emptied else filled) (drop sep (x ∷ src)) in
    Option.map (λ (sent, a'). ((if full then chunk ∷ sent else sent), a')) rest

-- A message of the goroutine: data from `aggregateQueue`, or the timer.
pub data Event : Type 0 where
  incoming : List ℕ → Event
  timer : Event

-- Each round of the loop takes a byte, so as many rounds as there are bytes are enough.
unfoldable pub aggregate : Aggregator → Event → Option (List (List ℕ) × Aggregator)
aggregate a (incoming src) = aggregate_loop (length src) a src
aggregate a timer = let (chunk, a') = aggregator_flush a in some (chunk ∷ [], a')

-- The goroutine over a sequence of messages.
unfoldable pub aggregate_all : Aggregator → List Event → Option (List (List ℕ) × Aggregator)
aggregate_all a [] = some ([], a)
aggregate_all a (e ∷ events) = elim (aggregate a e) [
  | none ↦ none
  | some (sent, a') ↦ Option.map (λ (later, b). (sent ++ later, b)) (aggregate_all a' events)
]

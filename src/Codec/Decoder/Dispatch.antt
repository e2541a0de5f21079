-- ===== src/Codec/Decoder/Dispatch.antt =====
-- `dispatch` of src/codec/decoder.go: the chunks in the order of their numbers. `none` is a panic
-- (a remainder by a size of zero).
pub mod Window
pub mod Drain
pub mod Arrive
pub mod Order
pub mod Genuine
use mathlib.Core.Option
use fec.Prelude.{
  ℕ, zero, suc, ◌+◌, ◌-◌, ◌%◌, Option, none, some, List, [], ◌∷◌, ◌++◌, if◌then◌else◌, ltb, leb,
  ◌==◌, get_or, set, replicate, length, max, add64, sub64,
}
use fec.Codec.Chunk.{Chunk, chunk_bytes}
use fec.Codec.Decoder.{Dispatcher}

-- A message of the goroutine: a chunk from `dispatchQueue` (or nil), or a reset.
pub data Event : Type 0 where
  chunk_in : Option Chunk → Event
  reset : Event

-- What goes to `resultQueue`, and the dispatcher behind it.
abbrev pub Dispatched : Type 0
Dispatched = List (List ℕ) × Dispatcher

-- `for i := last; i < first; i++`, over the rounds that are left: the chunks that wait are sent up
-- to the first that is missing.
unfoldable pub drain_loop : ℕ → ℕ → Dispatcher → Dispatched
drain_loop zero i d = ([], d)
drain_loop (suc n) i d =
    let at = (i + 1) % d.size in
    elim (get_or d.chunks at none) [
      | none ↦ ([], d)
      | some chunk ↦
          let rest = drain_loop n (i + 1) (record d {
            last = chunk.csn;
            awaiting = add64 d.awaiting 1;
            chunks = set d.chunks at none;
          }) in
          if chunk.csn == d.awaiting then (chunk_bytes chunk ∷ rest.0, rest.1) else ([], d)
    ]

abbrev pub count_ok : Dispatched → Dispatched
count_ok (sent, d) = (sent, record d { ok = add64 d.ok 1 })

unfoldable pub drain : Dispatcher → Option Dispatched
drain d =
    if sub64 d.first d.last == 0
    then some (count_ok ([], d))
    else if d.size == 0
    then none
    else some (count_ok (drain_loop (d.first - d.last) d.last d))

-- A chunk goes out, and then what `drain` sends.
abbrev pub send_then : Chunk → Option Dispatched → Option Dispatched
send_then chunk = Option.map (λ (sent, d). (chunk_bytes chunk ∷ sent, d))

-- A chunk that is not awaited takes its place; the chunk that was there is sent at once.
unfoldable pub place_chunk : Dispatcher → Chunk → Option Dispatched
place_chunk d chunk =
    let at = chunk.csn % d.size in
    if d.size == 0 then none else elim (get_or d.chunks at none) [
      | none ↦ some ([], record d { chunks = set d.chunks at (some chunk); ok = add64 d.ok 1 })
      | some old ↦ send_then old (
          drain (record d {
            last = old.csn;
            awaiting = add64 old.csn 1;
            chunks = set d.chunks at (some chunk);
            err = add64 d.err 1;
          }))
    ]

unfoldable pub accept : Dispatcher → Chunk → Option Dispatched
accept d chunk =
    if chunk.csn == d.awaiting
    then send_then chunk (drain (record d { last = chunk.csn; awaiting = add64 d.awaiting 1 }))
    else place_chunk d chunk

unfoldable pub dispatch : Dispatcher → Event → Option Dispatched
dispatch d reset =
    some ([], record d { awaiting = 1; first = 0; last = 0; chunks = replicate d.size none })
dispatch d (chunk_in none) = some ([], record d { err = add64 d.err 1 })
dispatch d (chunk_in (some chunk)) =
    if chunk.csn == 0
    then some ([], record d { err = add64 d.err 1 })
    else if leb chunk.csn d.last
    then some ([], record d { err = add64 d.err 1 })
    else accept (record d { first = max d.first chunk.csn }) chunk

-- The goroutine over a sequence of messages.
unfoldable pub dispatch_all : Dispatcher → List Event → Option Dispatched
dispatch_all d [] = some ([], d)
dispatch_all d (e ∷ events) = elim (dispatch d e) [
  | none ↦ none
  | some (sent, d') ↦ elim (dispatch_all d' events) [
    | none ↦ none
    | some (later, b) ↦ some (sent ++ later, b)
  ]
]

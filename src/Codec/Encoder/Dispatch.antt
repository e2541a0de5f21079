-- ===== src/Codec/Encoder/Dispatch.antt =====
-- `dispatch` of src/codec/encoder.go: the interleaver.
pub mod Place
pub mod Interleave
use fec.Prelude.{
  ℕ, ◌+◌, ◌*◌, ◌/◌, ◌%◌, Option, none, some, List, [], ◌∷◌, ◌++◌, if◌then◌else◌, ltb, ◌==◌, length,
  set, map, add64, mul64,
}
use fec.Codec.Packet.{PacketV2, marshal}
use fec.Codec.Encoder.{Dispatcher}

-- The place of the packet that comes when `count` packets are there.
unfoldable pub slot : ℕ → ℕ → ℕ → ℕ
slot chunks per_chunk count =
    add64 (mul64 chunks count) (count / per_chunk) % mul64 chunks per_chunk

module _ (sha1 : List ℕ → List ℕ) where
  -- `for i := range encoder.dispatcher.buf`: what goes to `resultQueue`.
  unfoldable pub send_all : List (Option PacketV2) → List (List ℕ)
  send_all [] = []
  send_all (none ∷ slots) = send_all slots
  send_all (some p ∷ slots) = marshal sha1 p ∷ send_all slots

  -- One packet. `none` is a panic: the place is out of range.
  unfoldable pub dispatch : Dispatcher → PacketV2 → Option (List (List ℕ) × Dispatcher)
  dispatch d packet =
      let at = slot d.chunks d.per_chunk d.count in
      let slots = set d.slots at (some packet) in
      let count = add64 d.count 1 in
      if ltb at (length d.slots)
      then if count == mul64 d.chunks d.per_chunk
        then some (send_all slots, record d { count = 0; slots = map (λ _. none) slots })
        else some ([], record d { count = count; slots = slots })
      else none

  -- The goroutine over a sequence of packets.
  unfoldable pub dispatch_all : Dispatcher → List PacketV2 → Option (List (List ℕ) × Dispatcher)
  dispatch_all d [] = some ([], d)
  dispatch_all d (p ∷ ps) = elim (dispatch d p) [
    | none ↦ none
    | some (sent, d') ↦ elim (dispatch_all d' ps) [
      | none ↦ none
      | some (later, b) ↦ some (sent ++ later, b)
    ]
  ]

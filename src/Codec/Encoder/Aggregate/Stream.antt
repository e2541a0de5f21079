-- ===== src/Codec/Encoder/Aggregate/Stream.antt =====
-- `aggregate` of src/codec/encoder.go cuts a stream of bytes into chunks.
use fec.Prelude.{
  ℕ, zero, suc, ◌+◌, ◌-◌, ◌≤◌, ◌<◌, ◌≡◌, refl, sym, ap, ◌∙◌, Bool, true, false, some, List, [], ◌∷◌,
  ◌++◌, append-nil, append_assoc, arith, if◌then◌else◌, ◌==◌, ==_refl, ==_false, length,
  length-append, length-take, length-drop, take, drop, take-append-drop, min, All, ℕ_discrete,
}
use mathlib.Core.Path.{subst}
use fec.Codec.Encoder.{Aggregator}
use fec.Codec.Encoder.Aggregate.{
  aggregator_flush, aggregate_loop, Event, incoming, timer, aggregate, aggregate_all,
}

abbrev pub flat : List (List ℕ) → List ℕ
flat [] = []
flat (x ∷ xs) = x ++ flat xs

-- Nothing of `a.buf ++ src` is lost or put out of order, and each chunk of `sent` has `P`.
pub record Cuts (P : List ℕ → Type 0) (a : Aggregator) (src : List ℕ) (sent : List (List ℕ))
    (b : Aggregator) : Type 0 where
  pub whole : flat sent ++ b.buf ≡ a.buf ++ src
  pub chunks : All P sent
  pub room : length b.buf < b.cap
  pub same_cap : b.cap ≡ a.cap

-- The full chunks.
abbrev pub IsFull : ℕ → List ℕ → Type 0
IsFull cap chunk = length chunk ≡ cap

module _ (a : Aggregator) (x : ℕ) (src : List ℕ) (room : length a.buf < a.cap) where
  -- How much of the data goes into the buffer, and the buffer behind it.
  abbrev taken : ℕ
  taken = min (a.cap - length a.buf) (length (x ∷ src))

  abbrev filled : Aggregator
  filled = record a { buf = a.buf ++ take taken (x ∷ src) }

  abbrev left : List ℕ
  left = drop taken (x ∷ src)

  filled-size : length filled.buf ≡ length a.buf + taken
  filled-size =
      omega (arith, length-append a.buf (take taken (x ∷ src)), length-take taken (x ∷ src))

  filled-whole : filled.buf ++ left ≡ a.buf ++ (x ∷ src)
  filled-whole =
      append_assoc a.buf (take taken (x ∷ src)) left
      ∙ ap (λ xs. a.buf ++ xs) (take-append-drop taken (x ∷ src))

  left-shorter : length left < length (x ∷ src)
  left-shorter = omega (arith, length-drop taken (x ∷ src))

  -- A round of the loop, which sends the buffer if it is full.
  one-round :
      (fuel : ℕ) (full : Bool) (sent : List (List ℕ)) (b : Aggregator)
      → (length filled.buf == a.cap) ≡ full
      → aggregate_loop fuel (if full then record a { buf = [] } else filled) left ≡ some (sent, b)
      → aggregate_loop (suc fuel) a (x ∷ src) ≡ some ((if full then filled.buf ∷ sent else sent), b)
  unfolding aggregate_loop aggregator_flush
  one-round fuel full sent b test rest = rw (test, rest) refl

  Cuts-IsFull :
      (sent : List (List ℕ)) (b : Aggregator)
      → length filled.buf ≡ a.cap
      → Cuts (IsFull a.cap) (record a { buf = [] }) left sent b
      → Cuts (IsFull a.cap) a (x ∷ src) (filled.buf ∷ sent) b
  Cuts-IsFull sent b full h = record {
    whole =
        append_assoc filled.buf (flat sent) b.buf
        ∙ ap (λ xs. filled.buf ++ xs) h.whole
        ∙ filled-whole;
    chunks = (full, h.chunks);
    room = h.room;
    same_cap = h.same_cap;
  }

  Cuts-more :
      (sent : List (List ℕ)) (b : Aggregator)
      → Cuts (IsFull a.cap) filled left sent b
      → Cuts (IsFull a.cap) a (x ∷ src) sent b
  Cuts-more sent b h = record {
    whole = h.whole ∙ filled-whole;
    chunks = h.chunks;
    room = h.room;
    same_cap = h.same_cap;
  }

aggregate_loop_lem :
    (fuel : ℕ) (a : Aggregator) (src : List ℕ)
    → length a.buf < a.cap
    → length src ≤ fuel
    → (sent : List (List ℕ)) × (b : Aggregator) × (aggregate_loop fuel a src ≡ some (sent, b))
      × Cuts (IsFull a.cap) a src sent b
unfolding aggregate_loop aggregator_flush
aggregate_loop_lem zero a [] room enough = (
  [],
  a,
  refl,
  record { whole = sym (append-nil a.buf); chunks = tt; room = room; same_cap = refl },
)
aggregate_loop_lem (suc fuel) a [] room enough = (
  [],
  a,
  refl,
  record { whole = sym (append-nil a.buf); chunks = tt; room = room; same_cap = refl },
)
aggregate_loop_lem zero a (x ∷ src) room enough = absurd (omega arith)
aggregate_loop_lem (suc fuel) a (x ∷ src) room enough =
    elim (ℕ_discrete (length (filled a x src room).buf) a.cap) [
      | yes p ↦
          let (sent, b, rest, cuts) =
            aggregate_loop_lem fuel (record a { buf = [] }) (left a x src room) (omega arith)
              (omega (arith, left-shorter a x src room)) in
          (
            (filled a x src room).buf ∷ sent,
            b,
            one-round a x src room fuel true sent b (ap (λ n. n == a.cap) p ∙ ==_refl a.cap) rest,
            Cuts-IsFull a x src room sent b p cuts,
          )
      | no p ↦
          let (sent, b, rest, cuts) =
            aggregate_loop_lem fuel (filled a x src room) (left a x src room)
              (omega (arith, p, filled-size a x src room))
              (omega (arith, left-shorter a x src room)) in
          (
            sent,
            b,
            one-round a x src room fuel false sent b
                (==_false (length (filled a x src room).buf) a.cap p) rest,
            Cuts-more a x src room sent b cuts,
          )
    ]

-- Data that comes to an aggregator with room in its buffer is cut without running out of fuel: the
-- chunks that are sent and the bytes that stay in the buffer are the bytes that were in the buffer
-- and the data, in order, each chunk is as long as the capacity, and there is room in the buffer.
pub aggregate_lem :
    (a : Aggregator) (src : List ℕ)
    → length a.buf < a.cap
    → (sent : List (List ℕ)) × (b : Aggregator) × (aggregate a (incoming src) ≡ some (sent, b))
      × Cuts (IsFull a.cap) a src sent b
unfolding aggregate
aggregate_lem a src room = aggregate_loop_lem (length src) a src room (omega arith)

-- What the messages bring.
abbrev pub brought : List Event → List ℕ
brought [] = []
brought (incoming src ∷ events) = src ++ brought events
brought (timer ∷ events) = brought events

abbrev pub IsAtMost : ℕ → List ℕ → Type 0
IsAtMost cap chunk = length chunk ≤ cap

pub flat-append : (xs ys : List (List ℕ)) → flat (xs ++ ys) ≡ flat xs ++ flat ys
flat-append [] ys = refl
flat-append (x ∷ xs) ys =
    ap (λ zs. x ++ zs) (flat-append xs ys) ∙ sym (append_assoc x (flat xs) (flat ys))

All-append : (P : List ℕ → Type 0) (xs ys : List (List ℕ)) → All P xs → All P ys → All P (xs ++ ys)
All-append P [] ys h k = k
All-append P (x ∷ xs) ys (hx, h) k = (hx, All-append P xs ys h k)

IsFull-IsAtMost : (cap : ℕ) (xs : List (List ℕ)) → All (IsFull cap) xs → All (IsAtMost cap) xs
IsFull-IsAtMost cap [] h = tt
IsFull-IsAtMost cap (x ∷ xs) (hx, h) = (omega arith, IsFull-IsAtMost cap xs h)

Cuts-then :
    (P : List ℕ → Type 0) (a b c : Aggregator) (src src' : List ℕ) (sent later : List (List ℕ))
    → flat sent ++ b.buf ≡ a.buf ++ src
    → All P sent
    → b.cap ≡ a.cap
    → Cuts P b src' later c
    → Cuts P a (src ++ src') (sent ++ later) c
Cuts-then P a b c src src' sent later whole chunks cap h = record {
  whole =
      ap (λ xs. xs ++ c.buf) (flat-append sent later)
      ∙ append_assoc (flat sent) (flat later) c.buf
      ∙ ap (λ xs. flat sent ++ xs) h.whole
      ∙ sym (append_assoc (flat sent) b.buf src')
      ∙ ap (λ xs. xs ++ src') whole
      ∙ append_assoc a.buf src src';
  chunks = All-append P sent later chunks h.chunks;
  room = h.room;
  same_cap = h.same_cap ∙ cap;
}

pub aggregate_all-cons :
    (a b c : Aggregator) (e : Event) (events : List Event) (sent later : List (List ℕ))
    → aggregate a e ≡ some (sent, b)
    → aggregate_all b events ≡ some (later, c)
    → aggregate_all a (e ∷ events) ≡ some (sent ++ later, c)
unfolding aggregate_all
aggregate_all-cons a b c e events sent later now rest = rw (now, aggregate_all, rest) refl

-- From an aggregator with room in its buffer on, over any sequence of data and timer messages: the
-- chunks that are sent and the bytes that stay in the buffer are the bytes that were in the buffer
-- and the data of the messages, in order, no chunk is longer than the capacity, and there is room
-- in the buffer.
pub aggregate_all_lem :
    (events : List Event) (a : Aggregator)
    → length a.buf < a.cap
    → (sent : List (List ℕ)) × (b : Aggregator) × (aggregate_all a events ≡ some (sent, b))
      × Cuts (IsAtMost a.cap) a (brought events) sent b
unfolding aggregate_all aggregate aggregator_flush
aggregate_all_lem [] a room = (
  [],
  a,
  refl,
  record { whole = sym (append-nil a.buf); chunks = tt; room = room; same_cap = refl },
)
aggregate_all_lem (incoming src ∷ events) a room =
    let (sent, b, now, cuts) = aggregate_lem a src room in
    let (later, c, rest, more) = aggregate_all_lem events b cuts.room in
    let more' = subst (λ n. Cuts (IsAtMost n) b (brought events) later c) cuts.same_cap more in
    (
      sent ++ later,
      c,
      aggregate_all-cons a b c (incoming src) events sent later now rest,
      Cuts-then (IsAtMost a.cap) a b c src (brought events) sent later cuts.whole
          (IsFull-IsAtMost a.cap sent cuts.chunks) cuts.same_cap more',
    )
aggregate_all_lem (timer ∷ events) a room =
    let b : Aggregator = record a { buf = [] } in
    let (later, c, rest, more) = aggregate_all_lem events b (omega arith) in
    (
      (a.buf ∷ []) ++ later,
      c,
      aggregate_all-cons a b c timer events (a.buf ∷ []) later refl rest,
      Cuts-then (IsAtMost a.cap) a b c [] (brought events) (a.buf ∷ []) later
          (append-nil (a.buf ++ [])) (omega arith, tt) refl more,
    )

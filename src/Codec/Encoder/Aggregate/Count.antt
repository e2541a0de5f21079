-- ===== src/Codec/Encoder/Aggregate/Count.antt =====
-- How many chunks `aggregate` of src/codec/encoder.go sends.
use fec.Prelude.{
  ℕ, ◌+◌, ◌≤◌, ◌<◌, ◌≡◌, refl, sym, ap, ◌∙◌, some, some-injective, List, [], ◌∷◌, ◌++◌, arith,
  length, length-append, All,
}
use fec.Codec.Encoder.{Aggregator}
use fec.Codec.Encoder.Aggregate.{Event, incoming, timer, aggregate, aggregator_flush, aggregate_all}
use fec.Codec.Encoder.Aggregate.Stream.{flat, IsFull, brought, aggregate_lem, aggregate_all-cons}

-- Every full chunk has a byte.
full-le :
    (cap : ℕ) (xs : List (List ℕ)) → 0 < cap → All (IsFull cap) xs → length xs ≤ length (flat xs)
full-le cap [] pos h = omega arith
full-le cap (x ∷ xs) pos (hx, h) =
    omega (arith, hx, full-le cap xs pos h, length-append x (flat xs))

counted :
    (events : List Event) (a : Aggregator)
    → length a.buf < a.cap
    → (sent : List (List ℕ)) × (b : Aggregator) × (aggregate_all a events ≡ some (sent, b))
      × (length sent + length b.buf ≤ length a.buf + length (brought events) + length events)
unfolding aggregate_all aggregate aggregator_flush
counted [] a room = ([], a, refl, omega arith)
counted (incoming src ∷ events) a room =
    let (sent, b, now, cuts) = aggregate_lem a src room in
    let (later, c, rest, le) = counted events b cuts.room in
    let bytes : length (flat sent) + length b.buf ≡ length a.buf + length src =
      sym (length-append (flat sent) b.buf) ∙ ap length cuts.whole ∙ length-append a.buf src in
    (
      sent ++ later,
      c,
      aggregate_all-cons a b c (incoming src) events sent later now rest,
      omega (
        arith,
        le,
        bytes,
        full-le a.cap sent (omega (arith, room)) cuts.chunks,
        length-append sent later,
        length-append src (brought events),
      ),
    )
counted (timer ∷ events) a room =
    let b : Aggregator = record a { buf = [] } in
    let (later, c, rest, le) = counted events b (omega arith) in
    (
      a.buf ∷ later,
      c,
      aggregate_all-cons a b c timer events (a.buf ∷ []) later refl rest,
      omega (arith, le),
    )

-- No more than one for each byte and for each message.
pub aggregate_all-count :
    (events : List Event) (a b : Aggregator) (sent : List (List ℕ))
    → length a.buf < a.cap
    → aggregate_all a events ≡ some (sent, b)
    → length sent ≤ length a.buf + length (brought events) + length events
aggregate_all-count events a b sent room e =
    let (sent', b', e', le) = counted events a room in
    let same : (sent', b') ≡ (sent, b) = some-injective (sent', b') (sent, b) (sym e' ∙ e) in
    omega (arith, le, ap (λ x. length x.0) same)

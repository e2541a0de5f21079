-- ===== src/Codec/Encoder/Dispatch/Interleave.antt =====
-- A batch of packets in `dispatch` of src/codec/encoder.go, from an empty dispatcher on.
use fec.Prelude.{
  ℕ, zero, suc, ◌+◌, ◌-◌, ◌*◌, ◌/◌, ◌%◌, ◌^◌, ◌<◌, ◌≡◌, ◌≢◌, refl, sym, ap, ap₂, ◌∙◌, true, Option,
  none, some, List, [], ◌∷◌, ◌++◌, map, append-nil, arith, ◌==◌, ==_refl, ==_false, lt→ltb, length,
  length-set, replicate, get_or, get_or-set_self, get_or-set_ne, set, add64, mul64, ℕ_discrete,
}
use fec.Codec.Packet.{PacketV2, marshal}
use fec.Codec.Encoder.{Dispatcher}
use fec.Codec.Encoder.Dispatch.{slot, send_all, dispatch, dispatch_all}
use fec.Codec.Encoder.Dispatch.Place.{
  packet_at, slot_lem, slot-lt, packet_at-slot, packet_at-lt, slot-packet_at,
}
use fec.Codec.Decoder.Assembly.Geometry.{le-mul}

map-none :
    {A : Type 0} (slots : List (Option A))
    → map {B = Option A} (λ _. none) slots ≡ replicate (length slots) none
unfolding replicate
map-none [] = refl
map-none (x ∷ slots) = ap (◌∷◌ none) (map-none slots)

-- The `n` packets from `packet i` on.
abbrev pub batch : (ℕ → PacketV2) → ℕ → ℕ → List PacketV2
batch packet i zero = []
batch packet i (suc n) = packet i ∷ batch packet (i + 1) n

-- The dispatcher without its packets.
abbrev pub emptied : Dispatcher → Dispatcher
emptied d = record d { count = 0; slots = replicate (d.chunks * d.per_chunk) none }

-- The packets are `packet 0`, `packet 1` and so on.
module _ (sha1 : List ℕ → List ℕ) (packet : ℕ → PacketV2) where
  -- What is sent of `n` packets `f k`, `f (k + 1)` and so on.
  abbrev pub marshalled : (ℕ → ℕ) → ℕ → ℕ → List (List ℕ)
  marshalled f k zero = []
  marshalled f k (suc n) = marshal sha1 (packet (f k)) ∷ marshalled f (k + 1) n

  -- Slots that are all taken are all sent, in order.
  send_all-marshalled :
      (slots : List (Option PacketV2)) (f : ℕ → ℕ) (k : ℕ)
      → ((s : ℕ) → s < length slots → get_or slots s none ≡ some (packet (f (k + s))))
      → send_all sha1 slots ≡ marshalled f k (length slots)
  unfolding send_all
  send_all-marshalled [] f k h = refl
  send_all-marshalled (none ∷ slots) f k h = absurd (ground (arith, h 0 (omega arith)))
  send_all-marshalled (some p ∷ slots) f k h =
      ap₂ (λ x xs. x ∷ xs)
        (ap (λ o. elim o [ none ↦ [] | some q ↦ marshal sha1 q ]) (h 0 (omega arith))
          ∙ ap (λ x. marshal sha1 (packet (f x))) {x = k + 0} {y = k} (omega arith))
        (send_all-marshalled slots f (k + 1) (λ s less.
          h (suc s) (omega arith)
          ∙ ap (λ x. some (packet (f x))) {x = k + suc s} {y = k + 1 + s} (omega arith)))

  -- `count` packets of the batch are in their places.
  pub record Filled (d : Dispatcher) (count : ℕ) : Type 0 where
    pub some_chunks : 0 < d.chunks
    pub some_packets : 0 < d.per_chunk
    pub fits : d.chunks * (d.chunks * d.per_chunk) + d.chunks < 2 ^ 64
    pub counted : d.count ≡ count
    pub places : length d.slots ≡ d.chunks * d.per_chunk
    pub taken :
        (i : ℕ)
        → i < count
        → get_or d.slots (d.chunks * (i % d.per_chunk) + i / d.per_chunk) none ≡ some (packet i)

  -- The dispatcher with one more packet.
  abbrev with_packet : Dispatcher → ℕ → Dispatcher
  with_packet d i = record d {
    count = i + 1;
    slots = set d.slots (d.chunks * (i % d.per_chunk) + i / d.per_chunk) (some (packet i));
  }

  module _ (d : Dispatcher) (i : ℕ) (h : Filled d i) (lt : i < d.chunks * d.per_chunk) where
    at-ne :
        (j : ℕ)
        → j < i
        → d.chunks * (i % d.per_chunk) + i / d.per_chunk
          ≢ d.chunks * (j % d.per_chunk) + j / d.per_chunk
    at-ne j below e =
        let back = packet_at-slot d.chunks d.per_chunk h.some_chunks h.some_packets in
        omega
          (arith, sym (back i lt) ∙ ap (packet_at d.chunks d.per_chunk) e ∙ back j (omega arith))

    inside : d.chunks * (i % d.per_chunk) + i / d.per_chunk < length d.slots
    inside = omega (arith, h.places, slot-lt d.chunks d.per_chunk h.some_chunks h.some_packets i lt)

    with_packet-taken :
        (j : ℕ)
        → j < i + 1
        → get_or (with_packet d i).slots (d.chunks * (j % d.per_chunk) + j / d.per_chunk) none
          ≡ some (packet j)
    with_packet-taken j below = elim (ℕ_discrete j i) [
      | yes p ↦ rw p (get_or-set_self d.slots _ (some (packet i)) none inside)
      | no p ↦
          get_or-set_ne d.slots _ (d.chunks * (j % d.per_chunk) + j / d.per_chunk) (some (packet i))
            none (at-ne j (omega arith))
          ∙ h.taken j (omega arith)
    ]

    Filled-with_packet : Filled (with_packet d i) (i + 1)
    Filled-with_packet = record {
      some_chunks = h.some_chunks;
      some_packets = h.some_packets;
      fits = h.fits;
      counted = refl;
      places = length-set d.slots _ (some (packet i)) ∙ h.places;
      taken = with_packet-taken;
    }

    small : d.chunks * d.per_chunk < 2 ^ 64
    small = omega (arith, h.fits, le-mul (d.chunks * d.per_chunk) d.chunks h.some_chunks)

    at : slot d.chunks d.per_chunk d.count ≡ d.chunks * (i % d.per_chunk) + i / d.per_chunk
    at =
        ap (slot d.chunks d.per_chunk) h.counted
        ∙ slot_lem d.chunks d.per_chunk h.some_chunks h.some_packets i lt h.fits

    next : add64 d.count 1 ≡ i + 1
    next = omega (arith, h.counted, small, lt)

    whole : mul64 d.chunks d.per_chunk ≡ d.chunks * d.per_chunk
    whole = omega (arith, small)

    dispatch-more :
        i + 1 < d.chunks * d.per_chunk → dispatch sha1 d (packet i) ≡ some ([], with_packet d i)
    unfolding dispatch
    dispatch-more more =
        rw
          (
            at,
            next,
            whole,
            lt→ltb _ _ inside,
            ==_false (i + 1) (d.chunks * d.per_chunk) (omega arith),
          )
          refl

    dispatch-full :
        i + 1 ≡ d.chunks * d.per_chunk
        → dispatch sha1 d (packet i)
          ≡ some (
            send_all sha1 (with_packet d i).slots,
            record d { count = 0; slots = map (λ _. none) (with_packet d i).slots },
          )
    unfolding dispatch
    dispatch-full full =
        let test : (i + 1 == d.chunks * d.per_chunk) ≡ true =
          ap (λ n. n == d.chunks * d.per_chunk) full ∙ ==_refl (d.chunks * d.per_chunk) in
        rw (at, next, whole, lt→ltb _ _ inside, test) refl

    -- The slots behind the last packet.
    all-taken :
        i + 1 ≡ d.chunks * d.per_chunk
        → (s : ℕ) → s < length (with_packet d i).slots
        → get_or (with_packet d i).slots s none ≡ some (packet (packet_at d.chunks d.per_chunk s))
    all-taken full s less =
        let small : s < d.chunks * d.per_chunk = omega (arith, less, Filled-with_packet.places) in
        let from : packet_at d.chunks d.per_chunk s < i + 1 =
          omega (arith, packet_at-lt d.chunks d.per_chunk h.some_chunks h.some_packets s small) in
        ap (λ x. get_or (with_packet d i).slots x none)
          (sym (slot-packet_at d.chunks d.per_chunk h.some_chunks h.some_packets s small))
        ∙ with_packet-taken (packet_at d.chunks d.per_chunk s) from

    sent-eq :
        i + 1 ≡ d.chunks * d.per_chunk
        → send_all sha1 (with_packet d i).slots
          ≡ marshalled (packet_at d.chunks d.per_chunk) 0 (d.chunks * d.per_chunk)
    sent-eq full =
        send_all-marshalled (with_packet d i).slots (packet_at d.chunks d.per_chunk) 0 (λ s less.
          all-taken full s less
          ∙ ap (λ x. some (packet (packet_at d.chunks d.per_chunk x))) {x = s} {y = 0 + s}
              (omega arith))
        ∙ ap (marshalled (packet_at d.chunks d.per_chunk) 0) Filled-with_packet.places

  dispatch_all-cons :
      (d d' b : Dispatcher) (p : PacketV2) (ps : List PacketV2) (sent later : List (List ℕ))
      → dispatch sha1 d p ≡ some (sent, d')
      → dispatch_all sha1 d' ps ≡ some (later, b)
      → dispatch_all sha1 d (p ∷ ps) ≡ some (sent ++ later, b)
  unfolding dispatch_all
  dispatch_all-cons d d' b p ps sent later now rest = rw (now, dispatch_all, rest) refl

  dispatch_all_lem :
      (n i : ℕ) (d : Dispatcher)
      → Filled d i
      → i + suc n ≡ d.chunks * d.per_chunk
      → dispatch_all sha1 d (batch packet i (suc n))
        ≡ some (marshalled (packet_at d.chunks d.per_chunk) 0 (d.chunks * d.per_chunk), emptied d)
  unfolding dispatch_all
  dispatch_all_lem zero i d h full =
      let slots = (with_packet d i).slots in
      let b : Dispatcher = record d { count = 0; slots = map (λ _. none) slots } in
      dispatch_all-cons d b b (packet i) [] (send_all sha1 slots) []
        (dispatch-full d i h (omega arith) (omega arith)) refl
      ∙ ap₂ (λ x y. some (x, record d { count = 0; slots = y }))
          (append-nil (send_all sha1 slots) ∙ sent-eq d i h (omega arith) (omega arith))
          (map-none slots
            ∙ ap (λ m. replicate m none) (Filled-with_packet d i h (omega arith)).places)
  dispatch_all_lem (suc n) i d h full =
      dispatch_all-cons d (with_packet d i) (emptied d) (packet i) (batch packet (i + 1) (suc n)) []
        _ (dispatch-more d i h (omega arith) (omega arith))
        (dispatch_all_lem n (i + 1) (with_packet d i) (Filled-with_packet d i h (omega arith))
          (omega arith))

  -- Nothing is sent before the batch is full.
  pub dispatch_all-waits :
      (n i : ℕ) (d : Dispatcher)
      → Filled d i
      → i + n < d.chunks * d.per_chunk
      → (b : Dispatcher) × (dispatch_all sha1 d (batch packet i n) ≡ some ([], b))
  unfolding dispatch_all
  dispatch_all-waits zero i d h less = (d, refl)
  dispatch_all-waits (suc n) i d h less =
      let (b, rest) =
        dispatch_all-waits n (i + 1) (with_packet d i) (Filled-with_packet d i h (omega arith))
          (omega arith) in
      (
        b,
        dispatch_all-cons d (with_packet d i) b (packet i) (batch packet (i + 1) n) [] []
            (dispatch-more d i h (omega arith) (omega arith)) rest,
      )

  -- An empty dispatcher whose sizes are not zero and do not overflow sends nothing until a batch
  -- of `chunks * per_chunk` packets has come, and then all of them, marshalled: at place `chunks *
  -- r + q` of what it sends stands packet `q * per_chunk + r`, so that packets that came next to
  -- each other in one chunk are `chunks` places apart. Afterwards it is empty again.
  pub dispatch_all-interleaves :
      (d : Dispatcher)
      → Filled d 0
      → dispatch_all sha1 d (batch packet 0 (d.chunks * d.per_chunk))
        ≡ some (marshalled (packet_at d.chunks d.per_chunk) 0 (d.chunks * d.per_chunk), emptied d)
  dispatch_all-interleaves d h =
      let some_size : d.chunks * d.per_chunk ≡ suc (d.chunks * d.per_chunk - 1) =
        omega (arith, le-mul d.chunks d.per_chunk h.some_packets, h.some_chunks) in
      ap (λ n. dispatch_all sha1 d (batch packet 0 n)) some_size
      ∙ dispatch_all_lem (d.chunks * d.per_chunk - 1) 0 d h (omega arith)

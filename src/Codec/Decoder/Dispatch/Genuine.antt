-- ===== src/Codec/Decoder/Dispatch/Genuine.antt =====
-- `dispatch` of src/codec/decoder.go over any messages: it goes on, and sends only chunks that
-- came.
use mathlib.Core.Path.{subst}
use fec.Prelude.{
  ◌⊎◌, none≢some, some-injective, ℕ, zero, suc, ◌+◌, ◌-◌, ◌%◌, ◌<◌, ◌≡◌, inl, inr, refl, sym, ap,
  ◌∙◌, false, Bool-cases, Option-cases, Option, none, some, List, [], ◌∷◌, ◌++◌, arith, leb, ◌==◌,
  ==_false, get_or, get_or-replicate, set, replicate, max, add64, sub64, All,
}
use fec.Codec.Chunk.{Chunk, chunk_bytes}
use fec.Codec.Decoder.{Dispatcher}
use fec.Codec.Decoder.Dispatch.{
  Event, chunk_in, reset, Dispatched, drain_loop, drain, send_then, place_chunk, accept, dispatch,
  dispatch_all,
}
use fec.Codec.Decoder.Assembly.Bounds.{All-append}

get_or-set-cases :
    (xs : List (Option Chunk)) (k j : ℕ) (cell : Option Chunk) (chunk : Chunk)
    → get_or (set xs k cell) j none ≡ some chunk
    → (cell ≡ some chunk) ⊎ (get_or xs j none ≡ some chunk)
get_or-set-cases [] k j cell chunk e = inr e
get_or-set-cases (x ∷ xs) zero zero cell chunk e = inl e
get_or-set-cases (x ∷ xs) zero (suc j) cell chunk e = inr e
get_or-set-cases (x ∷ xs) (suc k) zero cell chunk e = inr e
get_or-set-cases (x ∷ xs) (suc k) (suc j) cell chunk e = get_or-set-cases xs k j cell chunk e

-- `Good` is what is known of the chunks that come.
module _ (Good : Chunk → Type 0) where
  -- Each chunk that waits is one of these.
  record Waits (d : Dispatcher) : Type 0 where
    some_places : 0 < d.size
    waiting : (k : ℕ) (chunk : Chunk) → get_or d.chunks k none ≡ some chunk → Good chunk

  -- The bytes are those of one of these chunks.
  abbrev pub IsFrom : List ℕ → Type 0
  IsFrom bytes = (chunk : Chunk) × (chunk_bytes chunk ≡ bytes) × Good chunk

  abbrev pub GoodEvent : Event → Type 0
  GoodEvent reset = Unit
  GoodEvent (chunk_in none) = Unit
  GoodEvent (chunk_in (some chunk)) = Good chunk

  abbrev Passes : Dispatched → Type 0
  Passes r = All IsFrom r.0 × Waits r.1

  Waits-set :
      (d d' : Dispatcher) (k : ℕ) (cell : Option Chunk)
      → Waits d
      → d'.size ≡ d.size
      → d'.chunks ≡ set d.chunks k cell
      → ((chunk : Chunk) → cell ≡ some chunk → Good chunk)
      → Waits d'
  Waits-set d d' k cell w size chunks good = record {
    some_places = omega (arith, w.some_places, size);
    waiting = λ j chunk e.
        elim (get_or-set-cases d.chunks k j cell chunk
          (sym (ap (λ xs. get_or xs j none) chunks) ∙ e)) [
            | inl new ↦ good chunk new
            | inr old ↦ w.waiting j chunk old
          ];
  }

  Waits-same : (d d' : Dispatcher) → Waits d → d'.size ≡ d.size → d'.chunks ≡ d.chunks → Waits d'
  Waits-same d d' w size chunks = record {
    some_places = omega (arith, w.some_places, size);
    waiting = λ j chunk e. w.waiting j chunk (sym (ap (λ xs. get_or xs j none) chunks) ∙ e);
  }

  -- What `drain_loop` sends.
  drain_loop-Passes : (n i : ℕ) (d : Dispatcher) → Waits d → Passes (drain_loop n i d)
  unfolding drain_loop
  drain_loop-Passes zero i d w = (tt, w)
  drain_loop-Passes (suc n) i d w = elim (Option-cases (get_or d.chunks ((i + 1) % d.size) none)) [
    | inl e ↦ rw (drain_loop, e) (tt, w)
    | inr (chunk, e) ↦ elim (Bool-cases (chunk.csn == d.awaiting)) [
      | inl awaited ↦
          let next = record d {
            last = chunk.csn;
            awaiting = add64 d.awaiting 1;
            chunks = set d.chunks ((i + 1) % d.size) none;
          } in
          let (sent, waits) = drain_loop-Passes n (i + 1) next (
            Waits-set d next ((i + 1) % d.size) none w refl refl (λ c h. absurd (none≢some c h))) in
          rw (drain_loop, e, awaited)
            (((chunk, refl, w.waiting ((i + 1) % d.size) chunk e), sent), waits)
      | inr other ↦ rw (drain_loop, e, other) (tt, w)
    ]
  ]

  -- The handler goes on.
  abbrev Goes : Option Dispatched → Type 0
  Goes r = (out : Dispatched) × (r ≡ some out) × Passes out

  drain-Goes : (d : Dispatcher) → Waits d → Goes (drain d)
  unfolding drain
  drain-Goes d w = elim (Bool-cases (sub64 d.first d.last == 0)) [
    | inl e ↦ (([], record d { ok = add64 d.ok 1 }), rw e refl, (tt, Waits-same d _ w refl refl))
    | inr e ↦
        let places : (d.size == 0) ≡ false = ==_false d.size 0 (omega (arith, w.some_places)) in
        let r = drain_loop (d.first - d.last) d.last d in
        let (sent, waits) = drain_loop-Passes (d.first - d.last) d.last d w in
        (
          (r.0, record r.1 { ok = add64 r.1.ok 1 }),
          rw (e, places) refl,
          (sent, Waits-same r.1 _ waits refl refl),
        )
  ]

  -- A chunk in front of what `drain` sends.
  sends : (d : Dispatcher) (chunk : Chunk) → Waits d → Good chunk → Goes (send_then chunk (drain d))
  sends d chunk w good =
      let (out, e, (sent, waits)) = drain-Goes d w in
      ((chunk_bytes chunk ∷ out.0, out.1), rw e refl, (((chunk, refl, good), sent), waits))

  accept-Goes : (d : Dispatcher) (chunk : Chunk) → Waits d → Good chunk → Goes (accept d chunk)
  unfolding accept place_chunk
  accept-Goes d chunk w good = elim (Bool-cases (chunk.csn == d.awaiting)) [
    | inl e ↦ rw e (sends _ chunk (Waits-same d _ w refl refl) good)
    | inr e ↦
        let places : (d.size == 0) ≡ false = ==_false d.size 0 (omega (arith, w.some_places)) in
        let at = chunk.csn % d.size in
        let placed : (d' : Dispatcher)
            → d'.size ≡ d.size
            → d'.chunks ≡ set d.chunks at (some chunk)
            → Waits d' =
          λ d' size chunks.
            Waits-set d d' at (some chunk) w size chunks
              (λ c h. subst Good (some-injective chunk c h) good) in
        elim (Option-cases (get_or d.chunks at none)) [
          | inl free ↦ rw (e, places, free) (([], _), refl, (tt, placed _ refl refl))
          | inr (old, taken) ↦
              rw (e, places, taken) (sends _ old (placed _ refl refl) (w.waiting at old taken))
        ]
  ]

  dispatch-Goes : (d : Dispatcher) (e : Event) → Waits d → GoodEvent e → Goes (dispatch d e)
  unfolding dispatch
  dispatch-Goes d reset w good = (
    ([], _),
    refl,
    (
      tt,
      record {
        some_places = w.some_places;
        waiting = λ k chunk e. absurd (none≢some chunk (sym (get_or-replicate d.size k none) ∙ e));
      },
    ),
  )
  dispatch-Goes d (chunk_in none) w good =
      (([], record d { err = add64 d.err 1 }), refl, (tt, Waits-same d _ w refl refl))
  dispatch-Goes d (chunk_in (some chunk)) w good =
      let refused : Passes ([], record d { err = add64 d.err 1 }) =
        (tt, Waits-same d _ w refl refl) in
      elim (Bool-cases (chunk.csn == 0)) [
        | inl z ↦ rw z (([], record d { err = add64 d.err 1 }), refl, refused)
        | inr z ↦ elim (Bool-cases (leb chunk.csn d.last)) [
          | inl old ↦ rw (z, old) (([], record d { err = add64 d.err 1 }), refl, refused)
          | inr new ↦
              rw (z, new)
                (accept-Goes (record d { first = max d.first chunk.csn }) chunk
                  (Waits-same d _ w refl refl) good)
        ]
      ]

  dispatch_all-Goes :
      (d : Dispatcher) (events : List Event)
      → Waits d
      → All GoodEvent events
      → Goes (dispatch_all d events)
  unfolding dispatch_all
  dispatch_all-Goes d [] w h = (([], d), refl, (tt, w))
  dispatch_all-Goes d (e ∷ events) w (h, hs) =
      let (r, now, (sent, waits)) = dispatch-Goes d e w h in
      let (s, later, (sents, waits')) = dispatch_all-Goes r.1 events waits hs in
      (
        (r.0 ++ s.0, s.1),
        rw (now, dispatch_all, later) refl,
        (All-append IsFrom r.0 s.0 sent sents, waits'),
      )

  -- An empty dispatcher with at least one place: whatever messages come, chunks with any numbers in
  -- any order, nil or a reset, it does not panic, and all that it sends are the bytes of chunks
  -- that came (`Good` is any property that these have).
  pub dispatch_all-IsFrom :
      (d : Dispatcher) (events : List Event)
      → 0 < d.size
      → d.chunks ≡ replicate d.size none
      → All GoodEvent events
      → (sent : List (List ℕ)) × (b : Dispatcher) × (dispatch_all d events ≡ some (sent, b))
        × All IsFrom sent
  dispatch_all-IsFrom d events pos empty h =
      let waits : Waits d = record {
        some_places = pos;
        waiting = λ k chunk e. absurd (
            none≢some chunk
              (sym (get_or-replicate d.size k none) ∙ sym (ap (λ xs. get_or xs k none) empty) ∙ e));
      } in
      let ((sent, b), goes, (from, _)) = dispatch_all-Goes d events waits h in (sent, b, goes, from)

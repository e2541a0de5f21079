-- ===== src/Codec/Decoder/Dispatch/Arrive.antt =====
-- `dispatch` of src/codec/decoder.go of one chunk that has not come before.
use mathlib.Core.Path.{subst}
use fec.Prelude.{
  ℕ, ◌+◌, ◌%◌, ◌^◌, ◌≤◌, ◌<◌, ◌≡◌, ◌⊎◌, inl, inr, refl, sym, ap, ◌∙◌, Bool, true, false, none, some,
  [], ◌∷◌, arith, if◌then◌else◌, ◌==◌, ==_refl, ==_false, leb-false, get_or, get_or-set_self,
  get_or-set_ne, set, length-set, max, add64, ℕ_discrete, mod-ne_within, mod-eq_of_round, dec_lt,
}
use native.Mathlib.Nat.{mod-lt}
use fec.Codec.Chunk.{Chunk, chunk_bytes}
use fec.Codec.Decoder.{Dispatcher}
use fec.Codec.Decoder.Dispatch.{chunk_in, Dispatched, drain, place_chunk, accept, dispatch}
use fec.Codec.Decoder.Dispatch.Window.{in_order, cell, Holds, far-empty}
use fec.Codec.Decoder.Dispatch.Drain.{Drained, Drained-more, drain_lem}

-- The chunks that have come, and the one with number `k`.
unfoldable pub mark : ℕ → (ℕ → Bool) → ℕ → Bool
mark k held j = if j == k then true else held j

pub mark_self : (k : ℕ) (held : ℕ → Bool) → mark k held k ≡ true
unfolding mark
mark_self k held = rw (==_refl k) refl

mark_other : (k : ℕ) (held : ℕ → Bool) (j : ℕ) → ¬ (j ≡ k) → mark k held j ≡ held j
unfolding mark
mark_other k held j h = rw (==_false j k h) refl

pub mark_more : (k : ℕ) (held : ℕ → Bool) (j : ℕ) → held j ≡ true → mark k held j ≡ true
mark_more k held j h = elim (ℕ_discrete j k) [
  | yes p ↦ ap (mark k held) p ∙ mark_self k held
  | no p ↦ mark_other k held j p ∙ h
]

mark-cases : (k : ℕ) (held : ℕ → Bool) (j : ℕ) → mark k held j ≡ true → (j ≡ k) ⊎ (held j ≡ true)
mark-cases k held j h = elim (ℕ_discrete j k) [
  | yes p ↦ inl p
  | no p ↦ inr (sym (mark_other k held j p) ∙ h)
]

module _ (chunk : ℕ → Chunk) (numbered : (k : ℕ) → (chunk k).csn ≡ k) where
  -- The chunk `k` is awaited: the dispatcher that `accept` drains.
  abbrev awaited : Dispatcher → ℕ → Dispatcher
  awaited d k = record d { first = max d.first k; last = k; awaiting = add64 d.awaiting 1 }

  awaited-cells :
      (d : Dispatcher) (c : ℕ) (held : ℕ → Bool)
      → Holds chunk numbered d c held
      → held c ≡ false
      → (k : ℕ) → c + 1 ≤ k
      → k < c + 1 + d.size
      → get_or d.chunks (k % d.size) none ≡ cell chunk (mark c held) k
  awaited-cells d c held h e k le lt = elim (dec_lt k (c + d.size)) [
    | yes p ↦ rw (mark_other c held k (λ q. omega (arith, q))) (h.cells k (omega arith) p)
    | no p ↦
        let round : k % d.size ≡ c % d.size =
          mod-eq_of_round d.size c k h.some_places (omega arith) in
        let empty : held k ≡ false =
          ap held {x = k} {y = c + d.size} (omega arith) ∙ far-empty chunk numbered d c held h in
        rw (mark_other c held k (λ q. omega (arith, q)), empty, round)
          (h.cells c (omega arith) (omega (arith, h.some_places))
            ∙ ap (λ b. if b then some (chunk c) else none) e)
  ]

  Holds-awaited :
      (d : Dispatcher) (c : ℕ) (held : ℕ → Bool)
      → Holds chunk numbered d c held
      → held c ≡ false
      → c + 1 + d.size < 2 ^ 64
      → Holds chunk numbered (awaited d c) (c + 1) (mark c held)
  Holds-awaited d c held h e fits = record {
    some_places = h.some_places;
    places = h.places;
    awaits = omega (arith, h.awaits);
    behind = refl;
    cells = awaited-cells d c held h e;
    below_first = λ k le came. elim (mark-cases c held k came) [
      | inl p ↦ omega (arith, p)
      | inr p ↦ omega (arith, h.below_first k (omega arith) p)
    ];
    in_window = omega (arith, h.in_window);
    up_to = omega arith;
    no_wrap = omega (arith, h.no_wrap);
  }

  -- The chunk `k` is not awaited: it waits in its place.
  abbrev waiting : Dispatcher → ℕ → Dispatcher
  waiting d k = record d {
    first = max d.first k;
    chunks = set d.chunks (k % d.size) (some (chunk k));
    ok = add64 d.ok 1;
  }

  waiting-cells :
      (d : Dispatcher) (c k : ℕ) (held : ℕ → Bool)
      → Holds chunk numbered d c held
      → c < k
      → k < c + d.size
      → (j : ℕ) → c ≤ j
      → j < c + d.size
      → get_or (set d.chunks (k % d.size) (some (chunk k))) (j % d.size) none
        ≡ cell chunk (mark k held) j
  waiting-cells d c k held h lt near j le lt' = elim (ℕ_discrete j k) [
    | yes p ↦
        rw (p, mark_self k held)
          (get_or-set_self d.chunks (k % d.size) (some (chunk k)) none
            (omega (arith, h.places, mod-lt k {m = d.size} h.some_places)))
    | no p ↦ rw (mark_other k held j p) (
        get_or-set_ne d.chunks (k % d.size) (j % d.size) (some (chunk k)) none
          (mod-ne_within d.size k j p (omega arith) (omega arith))
        ∙ h.cells j le lt')
  ]

  Holds-waiting :
      (d : Dispatcher) (c k : ℕ) (held : ℕ → Bool)
      → Holds chunk numbered d c held
      → c < k
      → k < c + d.size
      → k + 1 + d.size < 2 ^ 64
      → Holds chunk numbered (waiting d k) c (mark k held)
  Holds-waiting d c k held h lt near fits = record {
    some_places = h.some_places;
    places = length-set d.chunks (k % d.size) (some (chunk k)) ∙ h.places;
    awaits = h.awaits;
    behind = h.behind;
    cells = waiting-cells d c k held h lt near;
    below_first = λ j le came. elim (mark-cases k held j came) [
      | inl p ↦ omega (arith, p)
      | inr p ↦ omega (arith, h.below_first j le p)
    ];
    in_window = omega (arith, h.in_window);
    up_to = omega (arith, h.up_to);
    no_wrap = omega (arith, h.no_wrap);
  }

  Drained-still :
      (d : Dispatcher) (c k : ℕ) (held : ℕ → Bool)
      → Holds chunk numbered d c held
      → held c ≡ false
      → ¬ (k ≡ c)
      → Holds chunk numbered (waiting d k) c (mark k held)
      → Drained chunk numbered d c (mark k held) ([], waiting d k)
  unfolding in_order
  Drained-still d c k held h e apart waits = record {
    count = 0;
    to = c;
    ends = omega arith;
    sent = refl;
    holds = waits;
    came = λ j le lt. absurd (omega arith);
    missing = mark_other k held c (λ q. apart (sym q)) ∙ e;
    same_size = refl;
  }

  dispatch-awaited :
      (d : Dispatcher) (c : ℕ) (held : ℕ → Bool) (r : Dispatched)
      → Holds chunk numbered d c held
      → drain (awaited d c) ≡ some r
      → dispatch d (chunk_in (some (chunk c))) ≡ some (chunk_bytes (chunk c) ∷ r.0, r.1)
  unfolding dispatch accept
  dispatch-awaited d c held r h e =
      rw
        (
          numbered c,
          ==_false c 0 (omega (arith, h.behind)),
          leb-false c d.last (omega (arith, h.behind)),
          ap (λ x. x == d.awaiting) (sym h.awaits) ∙ ==_refl d.awaiting,
          e,
        )
        refl

  dispatch-waiting :
      (d : Dispatcher) (c k : ℕ) (held : ℕ → Bool)
      → Holds chunk numbered d c held
      → held k ≡ false
      → c < k
      → k < c + d.size
      → dispatch d (chunk_in (some (chunk k))) ≡ some ([], waiting d k)
  unfolding dispatch accept place_chunk
  dispatch-waiting d c k held h fresh lt near =
      rw
        (
          numbered k,
          ==_false k 0 (omega arith),
          leb-false k d.last (omega (arith, h.behind)),
          ==_false k d.awaiting (omega (arith, h.awaits)),
          ==_false d.size 0 (omega (arith, h.some_places)),
          h.cells k (omega arith) near,
          fresh,
          numbered k,
        )
        refl

  -- A chunk that has not come, less than `size` ahead of the one awaited.
  pub dispatch_lem :
      (d : Dispatcher) (c k : ℕ) (held : ℕ → Bool)
      → Holds chunk numbered d c held
      → held c ≡ false
      → held k ≡ false
      → c ≤ k
      → k < c + d.size
      → k + 1 + d.size < 2 ^ 64
      → (r : Dispatched) × (dispatch d (chunk_in (some (chunk k))) ≡ some r)
        × Drained chunk numbered d c (mark k held) r
  dispatch_lem d c k held h e fresh le near fits = elim (ℕ_discrete k c) [
    | yes p ↦
        let (r, sends, drained) =
          drain_lem chunk numbered (awaited d c) (c + 1) (mark c held)
            (Holds-awaited d c held h e (omega arith)) in
        subst
          (λ k.
            (r : Dispatched) × (dispatch d (chunk_in (some (chunk k))) ≡ some r)
            × Drained chunk numbered d c (mark k held) r)
          (sym p)
          (
            (chunk_bytes (chunk c) ∷ r.0, r.1),
            dispatch-awaited d c held r h sends,
            Drained-more chunk numbered d (awaited d c) c (mark c held) r refl (mark_self c held)
                drained,
          )
    | no p ↦ (
      ([], waiting d k),
      dispatch-waiting d c k held h fresh (omega (arith, p)) near,
      Drained-still d c k held h e p (Holds-waiting d c k held h (omega (arith, p)) near fits),
    )
  ]

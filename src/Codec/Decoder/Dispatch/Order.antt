-- ===== src/Codec/Decoder/Dispatch/Order.antt =====
-- `dispatch` of src/codec/decoder.go over chunks that come in any order, each once, and each less
-- than `size` ahead of the first that is missing.
use mathlib.Core.Option
use mathlib.Core.Path.{subst}
use fec.Prelude.{
  ℕ, zero, suc, ◌+◌, ◌%◌, ◌^◌, ◌≤◌, ◌<◌, ◌≡◌, refl, sym, ap, ap₂, ◌∙◌, Bool, true, false, none,
  some, List, [], ◌∷◌, ◌++◌, map, arith, replicate, length-replicate, get_or-replicate, dec_lt,
}
use fec.Codec.Chunk.{Chunk, chunk_bytes}
use fec.Codec.Decoder.{Dispatcher}
use fec.Codec.Decoder.Dispatch.{Event, chunk_in, Dispatched, dispatch, dispatch_all}
use fec.Codec.Decoder.Dispatch.Window.{in_order, Holds}
use fec.Codec.Decoder.Dispatch.Drain.{Drained}
use mathlib.Core.Bool.{true≢false}
use fec.Codec.Decoder.Dispatch.Arrive.{mark, mark_more, dispatch_lem}

dispatch_all-cons :
    (d : Dispatcher) (e : Event) (events : List Event) (r s : Dispatched)
    → dispatch d e ≡ some r
    → dispatch_all r.1 events ≡ some s
    → dispatch_all d (e ∷ events) ≡ some (r.0 ++ s.0, s.1)
unfolding dispatch_all
dispatch_all-cons d e events r s now later = rw (now, dispatch_all, later) refl

-- The dispatcher as `NewDecoder` makes it, and as a reset leaves it.
abbrev pub fresh_dispatcher : Dispatcher → Dispatcher
fresh_dispatcher d = record d { awaiting = 1; first = 0; last = 0; chunks = replicate d.size none }

abbrev pub nothing_held : ℕ → Bool
nothing_held j = false

-- The messages of chunks that come in the order `ks`.
abbrev pub arrivals : (ℕ → Chunk) → List ℕ → List Event
arrivals chunk = map (λ k. chunk_in (some (chunk k)))

-- Each chunk of `ks` comes once, and not before every chunk from `first` on that is `size` or more
-- behind it.
abbrev pub InWindow : ℕ → ℕ → (ℕ → Bool) → List ℕ → Type 0
InWindow size first held [] = Unit
InWindow size first held (k ∷ ks) =
    (first ≤ k)
    × (held k ≡ false)
    × ((j : ℕ) → first ≤ j → j + size ≤ k → held j ≡ true)
    × (k + 1 + size < 2 ^ 64)
    × InWindow size first (mark k held) ks

unfoldable pub marks : List ℕ → (ℕ → Bool) → ℕ → Bool
marks [] held = held
marks (k ∷ ks) held = marks ks (mark k held)

module _ (chunk : ℕ → Chunk) (numbered : (k : ℕ) → (chunk k).csn ≡ k) where
  near :
      (size first c k : ℕ) (held : ℕ → Bool)
      → held c ≡ false
      → ((j : ℕ) → first ≤ j → j + size ≤ k → held j ≡ true)
      → first ≤ c
      → k < c + size
  near size first c k held e behind le = elim (dec_lt k (c + size)) [
    | yes p ↦ p
    | no p ↦ absurd (true≢false (sym (behind c le (omega arith)) ∙ e))
  ]

  ahead :
      (first c k : ℕ) (held : ℕ → Bool)
      → ((j : ℕ) → first ≤ j → j < c → held j ≡ true)
      → held k ≡ false
      → first ≤ k
      → c ≤ k
  ahead first c k held came fresh le = elim (dec_lt k c) [
    | yes p ↦ absurd (true≢false (sym (came k le p) ∙ fresh))
    | no p ↦ omega (arith, p)
  ]

  -- What the chunks of `ks` send, if those from `first` up to `c` are out already.
  pub record Sorted (d : Dispatcher) (first c : ℕ) (held : ℕ → Bool) (r : Dispatched) : Type 0 where
    pub count : ℕ
    pub to : ℕ
    pub ends : to ≡ c + count
    pub sent : r.0 ≡ in_order chunk c count
    pub came : (j : ℕ) → first ≤ j → j < to → held j ≡ true
    pub missing : held to ≡ false

  in_order-append :
      (c n m : ℕ) → in_order chunk c n ++ in_order chunk (c + n) m ≡ in_order chunk c (n + m)
  unfolding in_order
  in_order-append c zero m =
      ap (λ x. in_order chunk x m) {x = c + 0} {y = c} (omega arith)
      ∙ ap (in_order chunk c) {x = m} {y = 0 + m} (omega arith)
  in_order-append c (suc n) m =
      ap (λ xs. chunk_bytes (chunk c) ∷ xs)
        (ap (λ x. in_order chunk (c + 1) n ++ in_order chunk x m) {x = c + suc n} {y = c + 1 + n}
            (omega arith)
          ∙ in_order-append (c + 1) n m)
      ∙ ap (in_order chunk c) {x = suc (n + m)} {y = suc n + m} (omega arith)

  Sorted-more :
      (d : Dispatcher) (first c k : ℕ) (held after : ℕ → Bool) (r s : Dispatched)
      → (one : Drained chunk numbered d c held r) → Sorted r.1 first one.to after s
      → Sorted d first c after (r.0 ++ s.0, s.1)
  Sorted-more d first c k held after r s one rest = record {
    count = one.count + rest.count;
    to = rest.to;
    ends = omega (arith, one.ends, rest.ends);
    sent =
        ap₂ (λ xs ys. xs ++ ys) one.sent
          (rest.sent ∙ ap (λ x. in_order chunk x rest.count) one.ends)
        ∙ in_order-append c one.count rest.count;
    came = rest.came;
    missing = rest.missing;
  }

  still :
      (d : Dispatcher) (first c k : ℕ) (held : ℕ → Bool) (r : Dispatched)
      → ((j : ℕ) → first ≤ j → j < c → held j ≡ true)
      → (one : Drained chunk numbered d c (mark k held) r) → (j : ℕ) → first ≤ j
      → j < one.to
      → mark k held j ≡ true
  still d first c k held r came one j le lt = elim (dec_lt j c) [
    | yes p ↦ mark_more k held j (came j le p)
    | no p ↦ one.came j (omega arith) lt
  ]

  pub dispatch_all_lem :
      (ks : List ℕ) (d : Dispatcher) (first c : ℕ) (held : ℕ → Bool)
      → Holds chunk numbered d c held
      → held c ≡ false
      → first ≤ c
      → ((j : ℕ) → first ≤ j → j < c → held j ≡ true)
      → InWindow d.size first held ks
      → (r : Dispatched) × (dispatch_all d (arrivals chunk ks) ≡ some r)
        × Sorted d first c (marks ks held) r
  unfolding dispatch_all in_order marks
  dispatch_all_lem [] d first c held h e le came w = (
    ([], d),
    refl,
    record { count = 0; to = c; ends = omega arith; sent = refl; came = came; missing = e },
  )
  dispatch_all_lem (k ∷ ks) d first c held h e le came (above, fresh, behind, fits, w) =
      let (r, sends, one) =
        dispatch_lem chunk numbered d c k held h e fresh (ahead first c k held came fresh above)
          (near d.size first c k held e behind le) fits in
      let (s, later, rest) =
        dispatch_all_lem ks r.1 first one.to (mark k held) one.holds one.missing
          (omega (arith, one.ends)) (still d first c k held r came one)
          (subst (λ n. InWindow n first (mark k held) ks) (sym one.same_size) w) in
      (
        (r.0 ++ s.0, s.1),
        dispatch_all-cons d (chunk_in (some (chunk k))) (arrivals chunk ks) r s sends later,
        Sorted-more d first c k (mark k held) (marks ks (mark k held)) r s one rest,
      )

  Holds-fresh :
      (d : Dispatcher)
      → 0 < d.size
      → d.size + 1 < 2 ^ 64
      → Holds chunk numbered (fresh_dispatcher d) 1 nothing_held
  Holds-fresh d pos fits = record {
    some_places = pos;
    places = length-replicate d.size none;
    awaits = refl;
    behind = refl;
    cells = λ k le lt. get_or-replicate d.size (k % d.size) none;
    below_first = λ k le e. absurd (true≢false (sym e));
    in_window = omega arith;
    up_to = omega arith;
    no_wrap = omega arith;
  }

  counted :
      (ks : List ℕ) (m n to : ℕ)
      → to ≡ 1 + m
      → ((j : ℕ) → 1 ≤ j → j < to → marks ks nothing_held j ≡ true)
      → marks ks nothing_held to ≡ false
      → ((j : ℕ) → 1 ≤ j → j ≤ n → marks ks nothing_held j ≡ true)
      → marks ks nothing_held (n + 1) ≡ false
      → m ≡ n
  counted ks m n to ends out stop came missing = elim (dec_lt m n) [
    | yes p ↦ absurd (true≢false (sym (came to (omega arith) (omega arith)) ∙ stop))
    | no p ↦ elim (dec_lt n m) [
      | yes q ↦ absurd (true≢false (sym (out (n + 1) (omega arith) (omega arith)) ∙ missing))
      | no q ↦ omega (arith, p, q)
    ]
  ]

  -- From a fresh dispatcher with places on: chunks that come in any order, each once and each less
  -- than `size` ahead of the first that is missing, with numbers far enough below 2 ^ 64, go to
  -- the result queue in the order of their numbers, and what has been sent is exactly the chunks
  -- before the first that is missing.
  pub dispatch_all-in_order :
      (d : Dispatcher) (ks : List ℕ) (n : ℕ)
      → 0 < d.size
      → d.size + 1 < 2 ^ 64
      → InWindow d.size 1 nothing_held ks
      → ((j : ℕ) → 1 ≤ j → j ≤ n → marks ks nothing_held j ≡ true)
      → marks ks nothing_held (n + 1) ≡ false
      → Option.map (λ r. r.0) (dispatch_all (fresh_dispatcher d) (arrivals chunk ks))
        ≡ some (in_order chunk 1 n)
  dispatch_all-in_order d ks n pos fits w came missing =
      let (r, sends, sorted) =
        dispatch_all_lem ks (fresh_dispatcher d) 1 1 nothing_held (Holds-fresh d pos fits) refl
          (omega arith) (λ j le lt. absurd (omega arith)) w in
      let count : sorted.count ≡ n =
        counted ks sorted.count n sorted.to sorted.ends sorted.came sorted.missing came missing in
      ap (Option.map (λ r. r.0)) sends ∙ ap some (sorted.sent ∙ ap (in_order chunk 1) count)

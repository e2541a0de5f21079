-- ===== src/Codec/Decoder/Dispatch/Window.antt =====
-- Chunks that come to `dispatch` of src/codec/decoder.go at most `size` ahead of the one awaited.
use fec.Prelude.{
  ℕ, zero, suc, ◌+◌, ◌%◌, ◌^◌, ◌≤◌, ◌<◌, ◌≡◌, inl, inr, sym, ap, ap₂, ◌∙◌, Bool, true, false,
  Bool-cases, Option, none, some, List, [], ◌∷◌, arith, if◌then◌else◌, length, length-set, get_or,
  get_or-set_self, get_or-set_ne, set, add64, mod-ne_of_window, mod-eq_of_round, dec_lt,
}
use native.Mathlib.Nat.{mod-lt}
use fec.Codec.Chunk.{Chunk, chunk_bytes}
use fec.Codec.Decoder.{Dispatcher}

-- What is sent of the `n` chunks `chunk k`, `chunk (k + 1)` and so on.
unfoldable pub in_order : (ℕ → Chunk) → ℕ → ℕ → List (List ℕ)
in_order chunk k zero = []
in_order chunk k (suc n) = chunk_bytes (chunk k) ∷ in_order chunk (k + 1) n

-- What a place holds, if the chunks that have come are those for which `held` answers `true`.
abbrev pub cell : (ℕ → Chunk) → (ℕ → Bool) → ℕ → Option Chunk
cell chunk held k = if held k then some (chunk k) else none

-- `chunk k` is the chunk with the number `k`.
module _ (chunk : ℕ → Chunk) (numbered : (k : ℕ) → (chunk k).csn ≡ k) where
  -- The places hold the chunks with numbers from `next` on that have come, each at its number
  -- modulo the size; none of these is as far as `size` from `next`, nor above `first`.
  pub record Holds (d : Dispatcher) (next : ℕ) (held : ℕ → Bool) : Type 0 where
    pub some_places : 0 < d.size
    pub places : length d.chunks ≡ d.size
    pub awaits : d.awaiting ≡ next
    pub behind : d.last + 1 ≡ next
    pub cells :
        (k : ℕ)
        → next ≤ k
        → k < next + d.size
        → get_or d.chunks (k % d.size) none ≡ cell chunk held k
    pub below_first : (k : ℕ) → next ≤ k → held k ≡ true → k ≤ d.first
    pub in_window : d.first < next + d.size
    pub up_to : next ≤ d.first + 1
    pub no_wrap : d.first + 1 + d.size < 2 ^ 64

  -- A place that no chunk of the window takes is empty.
  pub far-empty :
      (d : Dispatcher) (c : ℕ) (held : ℕ → Bool) → Holds d c held → held (c + d.size) ≡ false
  far-empty d c held h = elim (Bool-cases (held (c + d.size))) [
    | inl e ↦ absurd (omega (arith, h.below_first (c + d.size) (omega arith) e, h.in_window))
    | inr e ↦ e
  ]

  next-cells :
      (d : Dispatcher) (c : ℕ) (held : ℕ → Bool)
      → Holds d c held
      → (k : ℕ) → c + 1 ≤ k
      → k < c + 1 + d.size
      → get_or (set d.chunks (c % d.size) none) (k % d.size) none ≡ cell chunk held k
  next-cells d c held h k le lt = elim (dec_lt k (c + d.size)) [
    | yes p ↦
        get_or-set_ne d.chunks (c % d.size) (k % d.size) none none
          (mod-ne_of_window d.size c k (omega arith) p)
        ∙ h.cells k (omega arith) p
    | no p ↦
        let round : k % d.size ≡ c % d.size =
          mod-eq_of_round d.size c k h.some_places (omega arith) in
        let empty : held k ≡ false =
          ap held {x = k} {y = c + d.size} (omega arith) ∙ far-empty d c held h in
        rw (round, empty)
          (get_or-set_self d.chunks (c % d.size) none none
            (omega (arith, mod-lt c {m = d.size} h.some_places)))
  ]

  -- Sending one chunk that waits.
  pub Holds-next :
      (d : Dispatcher) (c : ℕ) (held : ℕ → Bool)
      → Holds d c held
      → c ≤ d.first
      → Holds
          (record d {
            last = (chunk c).csn;
            awaiting = add64 d.awaiting 1;
            chunks = set d.chunks (c % d.size) none;
          })
          (c + 1)
          held
  Holds-next d c held h le = record {
    some_places = h.some_places;
    places = length-set d.chunks (c % d.size) none ∙ h.places;
    awaits = omega (arith, h.awaits, h.no_wrap);
    behind = ap (λ x. x + 1) (numbered c);
    cells = next-cells d c held h;
    below_first = λ k le e. h.below_first k (omega arith) e;
    in_window = omega (arith, h.in_window);
    up_to = omega arith;
    no_wrap = h.no_wrap;
  }

  -- No chunk above `first` has come.
  pub above-first :
      (d : Dispatcher) (c k : ℕ) (held : ℕ → Bool)
      → Holds d c held
      → d.first < k
      → c ≤ k
      → held k ≡ false
  above-first d c k held h lt le = elim (Bool-cases (held k)) [
    | inl e ↦ absurd (omega (arith, h.below_first k le e))
    | inr e ↦ e
  ]

  -- The counters do not matter.
  pub Holds-same :
      (d d' : Dispatcher) (c : ℕ) (held : ℕ → Bool)
      → d'.size ≡ d.size
      → d'.first ≡ d.first
      → d'.last ≡ d.last
      → d'.awaiting ≡ d.awaiting
      → d'.chunks ≡ d.chunks
      → Holds d c held
      → Holds d' c held
  Holds-same d d' c held size first last awaiting chunks h = record {
    some_places = omega (arith, h.some_places);
    places = ap length chunks ∙ h.places ∙ sym size;
    awaits = awaiting ∙ h.awaits;
    behind = ap (λ x. x + 1) last ∙ h.behind;
    cells =
        λ k le lt. ap₂ (λ xs m. get_or xs (k % m) none) chunks size ∙ h.cells k le (omega arith);
    below_first = λ k le e. omega (arith, h.below_first k le e);
    in_window = omega (arith, h.in_window);
    up_to = omega (arith, h.up_to);
    no_wrap = omega (arith, h.no_wrap);
  }

-- ===== src/Codec/Decoder/Dispatch/Drain.antt =====
-- `drain` of src/codec/decoder.go: it sends the chunks that wait, up to the first that is missing.
use fec.Prelude.{
  ℕ, zero, suc, ◌+◌, ◌-◌, ◌%◌, ◌≤◌, ◌<◌, ◌≡◌, inl, inr, refl, sym, ap, ◌∙◌, Bool, true, false,
  Bool-cases, none, some, [], ◌∷◌, arith, if◌then◌else◌, ◌==◌, ==_refl, ==_false, set, get_or,
  add64, sub64, ℕ_discrete,
}
use mathlib.Core.Path.{subst}
use fec.Codec.Chunk.{Chunk, chunk_bytes}
use fec.Codec.Decoder.{Dispatcher}
use fec.Codec.Decoder.Dispatch.{Dispatched, count_ok, drain_loop, drain}
use fec.Codec.Decoder.Dispatch.Window.{in_order, Holds, Holds-next, above-first, Holds-same}

module _ (chunk : ℕ → Chunk) (numbered : (k : ℕ) → (chunk k).csn ≡ k) where
  -- `r` sends the chunks with numbers from `c` up to `to`, which have come; `to` has not.
  pub record Drained (d : Dispatcher) (c : ℕ) (held : ℕ → Bool) (r : Dispatched) : Type 0 where
    pub count : ℕ
    pub to : ℕ
    pub ends : to ≡ c + count
    pub sent : r.0 ≡ in_order chunk c count
    pub holds : Holds chunk numbered r.1 to held
    pub came : (j : ℕ) → c ≤ j → j < to → held j ≡ true
    pub missing : held to ≡ false
    pub same_size : r.1.size ≡ d.size

  pub Drained-none :
      (d : Dispatcher) (c : ℕ) (held : ℕ → Bool)
      → Holds chunk numbered d c held
      → held c ≡ false
      → Drained d c held ([], d)
  unfolding in_order
  Drained-none d c held h e = record {
    count = 0;
    to = c;
    ends = omega arith;
    sent = refl;
    holds = h;
    came = λ j le lt. absurd (omega arith);
    missing = e;
    same_size = refl;
  }

  -- One more chunk in front.
  pub Drained-more :
      (d d' : Dispatcher) (c : ℕ) (held : ℕ → Bool) (r : Dispatched)
      → d'.size ≡ d.size
      → held c ≡ true
      → Drained d' (c + 1) held r
      → Drained d c held (chunk_bytes (chunk c) ∷ r.0, r.1)
  unfolding in_order
  Drained-more d d' c held r same_size e h = record {
    count = suc h.count;
    to = h.to;
    ends = omega (arith, h.ends);
    sent = ap (λ xs. chunk_bytes (chunk c) ∷ xs) h.sent;
    holds = h.holds;
    came = λ j le lt. elim (ℕ_discrete j c) [
      | yes p ↦ ap held p ∙ e
      | no p ↦ h.came j (omega arith) lt
    ];
    missing = h.missing;
    same_size = h.same_size ∙ same_size;
  }

  here :
      (i : ℕ) (d : Dispatcher) (c : ℕ) (held : ℕ → Bool) (b : Bool)
      → Holds chunk numbered d c held
      → i + 1 ≡ c
      → held c ≡ b
      → get_or d.chunks ((i + 1) % d.size) none ≡ (if b then some (chunk c) else none)
  here i d c held b h at e =
      ap (λ x. get_or d.chunks (x % d.size) none) at
      ∙ h.cells c (omega arith) (omega (arith, h.some_places))
      ∙ ap (λ x. if x then some (chunk c) else none) e

  -- The dispatcher once the chunk with number `c` is sent.
  abbrev sent_one : Dispatcher → ℕ → Dispatcher
  sent_one d c = record d {
    last = (chunk c).csn;
    awaiting = add64 d.awaiting 1;
    chunks = set d.chunks (c % d.size) none;
  }

  drain_loop-sends :
      (n i : ℕ) (d : Dispatcher) (c : ℕ) (held : ℕ → Bool)
      → Holds chunk numbered d c held
      → i + 1 ≡ c
      → held c ≡ true
      → drain_loop (suc n) i d ≡ (
        chunk_bytes (chunk c) ∷ (drain_loop n (i + 1) (sent_one d c)).0,
        (drain_loop n (i + 1) (sent_one d c)).1,
      )
  unfolding drain_loop
  drain_loop-sends n i d c held h at e =
      rw (here i d c held true h at e, drain_loop, numbered c, h.awaits, ==_refl c, at) refl

  drain_loop-stops :
      (n i : ℕ) (d : Dispatcher) (c : ℕ) (held : ℕ → Bool)
      → Holds chunk numbered d c held
      → i + 1 ≡ c
      → held c ≡ false
      → drain_loop (suc n) i d ≡ ([], d)
  unfolding drain_loop
  drain_loop-stops n i d c held h at e = rw (here i d c held false h at e, drain_loop) refl

  -- The rounds of the loop that are left reach `first`.
  drain_loop_lem :
      (n i : ℕ) (d : Dispatcher) (c : ℕ) (held : ℕ → Bool)
      → Holds chunk numbered d c held
      → i + 1 ≡ c
      → n + c ≡ d.first + 1
      → Drained d c held (drain_loop n i d)
  unfolding drain_loop
  drain_loop_lem zero i d c held h at left =
      Drained-none d c held h (above-first chunk numbered d c c held h (omega arith) (omega arith))
  drain_loop_lem (suc n) i d c held h at left = elim (Bool-cases (held c)) [
    | inl e ↦
        let le : c ≤ d.first = h.below_first c (omega arith) e in
        let later =
          drain_loop_lem n (i + 1) (sent_one d c) (c + 1) held
            (Holds-next chunk numbered d c held h le) (omega arith) (omega arith) in
        subst (λ r. Drained d c held r) (sym (drain_loop-sends n i d c held h at e))
          (Drained-more d (sent_one d c) c held (drain_loop n (i + 1) (sent_one d c)) refl e later)
    | inr e ↦
        subst (λ r. Drained d c held r) (sym (drain_loop-stops n i d c held h at e))
          (Drained-none d c held h e)
  ]

  -- Counting a message that was handled.
  Drained-count :
      (d : Dispatcher) (c : ℕ) (held : ℕ → Bool) (r : Dispatched)
      → Drained d c held r
      → Drained d c held (count_ok r)
  Drained-count d c held r h = record {
    count = h.count;
    to = h.to;
    ends = h.ends;
    sent = h.sent;
    holds = Holds-same chunk numbered r.1 (count_ok r).1 h.to held refl refl refl refl refl h.holds;
    came = h.came;
    missing = h.missing;
    same_size = h.same_size;
  }

  pub drain_lem :
      (d : Dispatcher) (c : ℕ) (held : ℕ → Bool)
      → Holds chunk numbered d c held
      → (r : Dispatched) × (drain d ≡ some r) × Drained d c held r
  unfolding drain
  drain_lem d c held h = elim (ℕ_discrete d.first d.last) [
    | yes p ↦ (
      count_ok ([], d),
      (let z : sub64 d.first d.last ≡ 0 = omega (arith, p) in rw z refl),
      Drained-count d c held ([], d)
          (Drained-none d c held h
            (above-first chunk numbered d c c held h (omega arith) (omega arith))),
    )
    | no p ↦ (
      count_ok (drain_loop (d.first - d.last) d.last d),
      (let apart : (sub64 d.first d.last == 0) ≡ false =
            ==_false (sub64 d.first d.last) 0 (omega (arith, p, h.up_to, h.behind, h.no_wrap)) in
          let places : (d.size == 0) ≡ false = ==_false d.size 0 (omega (arith, h.some_places)) in
          rw (apart, places) refl),
      Drained-count d c held (drain_loop (d.first - d.last) d.last d) (
          drain_loop_lem (d.first - d.last) d.last d c held h h.behind
            (omega (arith, h.up_to, h.behind))),
    )
  ]

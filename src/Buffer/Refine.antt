-- ===== src/Buffer/Refine.antt =====
-- The ring of src/buffer/ring.go against the bounded queue.
use native.Mathlib.Nat.{mod-lt}
use fec.Prelude.{
  ℕ, suc, ◌+◌, ◌%◌, ◌^◌, ◌≤◌, ◌<◌, ◌≡◌, refl, sym, ap, ◌∙◌, ◌≢◌, Bool, some, List, [], ◌∷◌, ◌++◌,
  arith, length, get_elem?, set, length-set, length-append, get_elem?-set_self, get_elem?-set_ne,
  inl, inr, Bool-cases, mod-add-ne, ◌==◌, add64, sub64, lt→ltb, ==_false, true, false,
}
use fec.Buffer.Ring.{Ring, Op, reads, writes, new_ring, read, write, run}
use fec.Buffer.Queue

module _ {ℓ} {A : Type ℓ} where
  -- The places behind `last` hold the items of the list, in order.
  abbrev pub Holds : List A → ℕ → ℕ → List A → Type ℓ
  Holds buf size last [] = Unit
  Holds buf size last (x ∷ q) =
      (get_elem? buf ((last + 1) % size) ≡ some x) × Holds buf size (last + 1) q

  -- The ring stands for the queue `q`, and its counters have not wrapped.
  pub record Represents (r : Ring A) (q : List A) : Type ℓ where
    pub some_room : 0 < r.size
    pub sized : r.size ≡ length r.buf
    pub counted : r.last + length q ≡ r.first
    pub fits : length q ≤ r.size
    pub no_wrap : r.first < 2 ^ 64
    pub size_u64 : r.size < 2 ^ 64
    pub holds : Holds r.buf r.size r.last q

  Holds-set :
      (buf : List A) (size last i : ℕ) (q : List A) (t : A)
      → size ≡ length buf
      → length q < size
      → i ≡ (last + 1 + length q) % size
      → Holds buf size last q
      → Holds (set buf i t) size last (q ++ (t ∷ []))
  Holds-set buf size last i [] t hs hq e h =
      let at : i ≡ (last + 1) % size = e ∙ ap (λ n. n % size) (omega arith) in
      let here = get_elem?-set_self buf i t (omega (arith, mod-lt (last + 1) {m = size} hq)) in
      (rw (← at) here, tt)
  Holds-set buf size last i (x ∷ q) t hs hq e (hx, h) = (
    get_elem?-set_ne buf i ((last + 1) % size) t apart ∙ hx,
    Holds-set buf size (last + 1) i q t hs (omega arith) (e ∙ ap (λ n. n % size) (omega arith)) h,
  )
    where
      apart : i ≢ (last + 1) % size
      apart p = mod-add-ne size (last + 1) (suc (length q)) (omega arith) hq (sym p ∙ e)

  -- A new ring over a slice is the empty queue.
  pub new_ring-Represents :
      (buf : List A) → 0 < length buf → length buf < 2 ^ 64 → Represents (new_ring 0 buf) []
  unfolding new_ring
  new_ring-Represents buf h k = ground arith

  used : (r : Ring A) (q : List A) → Represents r q → sub64 r.first r.last ≡ length q
  used r q v = omega arith

  later : (r : Ring A) (x : A) (q : List A) → Represents r (x ∷ q) → add64 r.last 1 ≡ r.last + 1
  later r x q v = omega arith

  rest-Represents :
      (r : Ring A) (x : A) (q : List A)
      → Represents r (x ∷ q)
      → Represents (record r { last = r.last + 1 }) q
  rest-Represents r x q v = record {
    some_room = v.some_room;
    sized = v.sized;
    counted = omega arith;
    fits = omega arith;
    no_wrap = v.no_wrap;
    size_u64 = v.size_u64;
    holds = v.holds.1;
  }

  Represents-read :
      (r : Ring A) (q : List A) (wait : Bool)
      → Represents r q
      → ((read r wait).0 ≡ (Queue.read q wait).0) × Represents (read r wait).1 (Queue.read q wait).1
  unfolding read Queue.read
  Represents-read r [] wait v = rw (used r [] v) (refl, v)
  Represents-read r (x ∷ q) wait v =
      rw (used r (x ∷ q) v, busy, later r x q v, v.holds.0) (refl, rest-Represents r x q v)
    where
      busy : (suc (length q) == 0) ≡ false
      busy = ==_false _ _ (omega arith)

  stored-Represents :
      (r : Ring A) (q : List A) (t : A)
      → Represents r q
      → length q < r.size
      → r.first + 1 < 2 ^ 64
      → Represents
          (record r { buf = set r.buf ((r.first + 1) % r.size) t; first = r.first + 1 })
          (q ++ (t ∷ []))
  stored-Represents r q t v room h = record {
    some_room = v.some_room;
    sized = omega (arith, length-set r.buf ((r.first + 1) % r.size) t, v.sized);
    counted = omega (arith, length-append q (t ∷ []));
    fits = omega (arith, length-append q (t ∷ []));
    no_wrap = h;
    size_u64 = v.size_u64;
    holds =
        Holds-set r.buf r.size r.last _ q t v.sized room (ap (λ n. n % r.size) (omega arith))
          v.holds;
  }

  next : (r : Ring A) → r.first + 1 < 2 ^ 64 → add64 r.first 1 ≡ r.first + 1
  next r h = omega arith

  inside : (r : Ring A) (q : List A) → Represents r q → (r.first + 1) % r.size < length r.buf
  inside r q v = omega (arith, mod-lt (r.first + 1) {m = r.size} v.some_room)

  write_when_full :
      (r : Ring A) (q : List A) (overwrite : Bool) (t : A)
      → Represents r q
      → r.first + 1 < 2 ^ 64
      → (length q == r.size) ≡ true
      → ((write r overwrite t).0 ≡ (Queue.write r.size q overwrite t).0)
        × Represents (write r overwrite t).1 (Queue.write r.size q overwrite t).1
  unfolding write Queue.write
  write_when_full r q false t v h full = rw (used r q v, full) (refl, v)
  write_when_full r [] true t v h full = absurd (ground arith)
  write_when_full r (x ∷ q) true t v h full =
      rw (used r (x ∷ q) v, full, next r h, later r x q v, lt→ltb _ _ (inside r (x ∷ q) v))
        (
          refl,
          stored-Represents (record r { last = r.last + 1 }) q t (rest-Represents r x q v)
              (omega arith) h,
        )

  pub Represents-write :
      (r : Ring A) (q : List A) (overwrite : Bool) (t : A)
      → Represents r q
      → r.first + 1 < 2 ^ 64
      → ((write r overwrite t).0 ≡ (Queue.write r.size q overwrite t).0)
        × Represents (write r overwrite t).1 (Queue.write r.size q overwrite t).1
  unfolding write Queue.write
  Represents-write r q overwrite t v h = elim (Bool-cases (length q == r.size)) [
    | inl full ↦ write_when_full r q overwrite t v h full
    | inr room ↦
        rw (used r q v, room, next r h, lt→ltb _ _ (inside r q v))
          (refl, stored-Represents r q t v (ground arith) h)
  ]

  size-read : (r : Ring A) (wait : Bool) → (read r wait).1.size ≡ r.size
  unfolding read
  size-read r wait = ground arith

  pub size-write : (r : Ring A) (overwrite : Bool) (t : A) → (write r overwrite t).1.size ≡ r.size
  unfolding write
  size-write r overwrite t = ground arith

  first-read : (r : Ring A) (wait : Bool) → (read r wait).1.first ≡ r.first
  unfolding read
  first-read r wait = ground arith

  pub first-write :
      (r : Ring A) (overwrite : Bool) (t : A) → (write r overwrite t).1.first ≤ r.first + 1
  unfolding write
  first-write r overwrite t = ground arith

  -- A ring that stands for a queue answers every sequence of reads and writes, waiting or not and
  -- overwriting or not, as the bounded queue of its size does, as long as the counter `first` does
  -- not reach 2 ^ 64: no call panics, items come out in the order they went in, and a full ring
  -- that may be overwritten loses its oldest item.
  pub run_refines :
      (ops : List (Op A)) (r : Ring A) (q : List A)
      → Represents r q
      → r.first + length ops < 2 ^ 64
      → run r ops ≡ Queue.run r.size q ops
  unfolding run Queue.run
  run_refines [] r q v h = refl
  run_refines (reads wait ∷ ops) r q v h =
      let (e, v') = Represents-read r q wait v in
      let ih =
        run_refines ops (read r wait).1 (Queue.read q wait).1 v'
          (omega (arith, first-read r wait)) in
      rw (e, ih, size-read r wait) refl
  run_refines (writes overwrite t ∷ ops) r q v h =
      let (e, v') = Represents-write r q overwrite t v (omega arith) in
      let ih =
        run_refines ops (write r overwrite t).1 (Queue.write r.size q overwrite t).1 v'
          (omega (arith, first-write r overwrite t)) in
      rw (e, ih, size-write r overwrite t) refl

-- ===== src/Buffer/Ring.antt =====
-- src/buffer/ring.go. Each call holds the mutex from end to end, so a call is one step. A call that
-- would block on a condition variable gives `waits` and leaves the ring alone: it starts again at
-- its label when it is woken.
use fec.Prelude.{
  ℕ, ◌%◌, Bool, Option, none, some, List, [], ◌∷◌, if◌then◌else◌, ltb, ◌==◌, add64, sub64, length,
  get_elem?, set,
}

-- `Ring[T]`, without the mutex and the condition variables.
pub record Ring {ℓ} (A : Type ℓ) : Type ℓ where
  pub buf : List A
  pub first : ℕ
  pub last : ℕ
  pub size : ℕ

-- How a call of `Read` ends: with an item (and a signal to the writers), with the zero value and
-- `false`, in a wait on `newWrite`, or in a panic (an index out of range).
pub data ReadResult {ℓ} (A : Type ℓ) : Type ℓ where
  item : A → ReadResult A
  nothing : ReadResult A
  waits : ReadResult A
  fault : ReadResult A

-- How a call of `Write` ends: stored (with a signal to the readers), stored over the oldest item
-- (with none), in a wait on `newRead`, or in a panic.
pub data WriteResult : Type 0 where
  stored replaced waits fault : WriteResult

module _ {ℓ} {A : Type ℓ} where
  unfoldable pub new_ring : ℕ → List A → Ring A
  new_ring first buf = record { buf = buf; first = first; last = 0; size = length buf }

  abbrev item_at : Option A → ReadResult A
  item_at none = fault
  item_at (some a) = item a

  unfoldable pub read : Ring A → Bool → ReadResult A × Ring A
  read r wait =
      if sub64 r.first r.last == 0
      then (if wait then ReadResult.waits else nothing, r)
      else let last' = add64 r.last 1 in
        (item_at (get_elem? r.buf (last' % r.size)), record r { last = last' })

  -- The assignment `r.buf[at] = t`, which panics out of range.
  abbrev pub put_at : Ring A → ℕ → A → WriteResult → WriteResult × Ring A
  put_at r at t done =
      if ltb at (length r.buf)
      then (done, record r { buf = set r.buf at t })
      else (WriteResult.fault, r)

  unfoldable pub write : Ring A → Bool → A → WriteResult × Ring A
  write r overwrite t =
      let first' = add64 r.first 1 in
      if sub64 r.first r.last == r.size
      then (if overwrite
          then put_at (record r { first = first'; last = add64 r.last 1 }) (first' % r.size) t
              replaced
          else (WriteResult.waits, r))
      else put_at (record r { first = first' }) (first' % r.size) t stored

-- The calls of a client.
pub data Op {ℓ} (A : Type ℓ) : Type ℓ where
  reads : Bool → Op A
  writes : Bool → A → Op A

pub data Reply {ℓ} (A : Type ℓ) : Type ℓ where
  read_reply : ReadResult A → Reply A
  write_reply : WriteResult → Reply A

-- What a sequence of calls returns, one after the other.
unfoldable pub run {ℓ} : {A : Type ℓ} → Ring A → List (Op A) → List (Reply A)
run r [] = []
run r (reads wait ∷ ops) = let (s, r') = read r wait in read_reply s ∷ run r' ops
run r (writes overwrite t ∷ ops) = let (s, r') = write r overwrite t in write_reply s ∷ run r' ops

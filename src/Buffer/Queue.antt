-- ===== src/Buffer/Queue.antt =====
-- The abstract view of a ring: a queue of at most `cap` items, oldest first.
use fec.Prelude.{ℕ, Bool, List, [], ◌∷◌, ◌++◌, if◌then◌else◌, ◌==◌, length}
use fec.Buffer.Ring.{
  ReadResult, item, nothing, WriteResult, stored, replaced, Op, reads, writes, Reply, read_reply,
  write_reply,
}

module _ {ℓ} {A : Type ℓ} where
  unfoldable pub read : List A → Bool → ReadResult A × List A
  read [] wait = (if wait then ReadResult.waits else nothing, [])
  read (x ∷ q) wait = (item x, q)

  abbrev pub tail : List A → List A
  tail [] = []
  tail (x ∷ q) = q

  unfoldable pub write : ℕ → List A → Bool → A → WriteResult × List A
  write cap q overwrite t =
      if length q == cap
      then (if overwrite then (replaced, tail q ++ (t ∷ [])) else (WriteResult.waits, q))
      else (stored, q ++ (t ∷ []))

  unfoldable pub run : ℕ → List A → List (Op A) → List (Reply A)
  run cap q [] = []
  run cap q (reads wait ∷ ops) = let (s, q') = read q wait in read_reply s ∷ run cap q' ops
  run cap q (writes overwrite t ∷ ops) =
      let (s, q') = write cap q overwrite t in write_reply s ∷ run cap q' ops

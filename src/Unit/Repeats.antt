-- ===== src/Unit/Repeats.antt =====
-- What the writer of src/unit/writer.go hands to the stream below after a short write.
use fec.Prelude.{
  ℕ, zero, suc, ◌+◌, ◌<◌, ◌≤◌, ◌≡◌, refl, ap, ◌∙◌, map, replicate, true, Bool-cases, inl, inr, List,
  [], ◌∷◌, ◌++◌, arith, ltb-false, lt→ltb, ◌==◌, ==_refl, ==_false, length, length-drop, take,
  take_all, take-append-drop, drop,
}
use fec.Io.{Wrote, wrote, write_error}
use fec.Unit.{Writer, Returns, returns, fails, write_loop, begin_write, write}

-- A writer that writes on until its block is complete.
pub record IsComplete (w : Writer) (b : List ℕ) : Type 0 where
  pub complete : w.complete ≡ true
  pub sized : length b ≡ w.size

write-begin :
    (w : Writer) (b : List ℕ) (answers : List Wrote)
    → IsComplete w b
    → write w b answers ≡ begin_write w b answers
unfolding write
write-begin w b answers v = elim (Bool-cases w.fixed) [
  | inl e ↦ rw (ap (λ n. n == w.size) v.sized ∙ ==_refl w.size, e, write) refl
  | inr e ↦ rw (e, write) refl
]

loop-done :
    (answers : List Wrote) (size n : ℕ) (part : List ℕ)
    → size ≤ n
    → write_loop size n part answers ≡ (returns size, [])
unfolding write_loop
loop-done [] size n part h = rw (ltb-false n size h) refl
loop-done (write_error k ∷ answers) size n part h = rw (ltb-false n size h) refl
loop-done (wrote k ∷ answers) size n part h = rw (ltb-false n size h) refl

-- What the stream takes in some rounds, all together.
abbrev pub total : List ℕ → ℕ
total [] = 0
total (m ∷ ms) = m + total ms

-- Rounds in front of the last one: the block is not complete yet.
loop-rounds :
    (ms : List ℕ) (size n : ℕ) (part : List ℕ) (answers : List Wrote)
    → n + total ms < size
    → write_loop size n part (map wrote ms ++ answers) ≡ (
      (write_loop size (n + total ms) part answers).0,
      replicate (length ms) part ++ (write_loop size (n + total ms) part answers).1,
    )
unfolding write_loop replicate
loop-rounds [] size n part answers short =
    ap (λ k. write_loop size k part answers) {x = n} {y = n + 0} (omega arith)
loop-rounds (m ∷ ms) size n part answers short =
    rw
      (
        lt→ltb n size (omega arith),
        write_loop,
        loop-rounds ms size (n + m) part answers (omega arith),
      )
      (ap
        (λ k. (
          (write_loop size k part answers).0,
          part ∷ (replicate (length ms) part ++ (write_loop size k part answers).1),
        ))
        {x = n + m + total ms} {y = n + (m + total ms)} (omega arith))

loop-last :
    (size n m : ℕ) (part : List ℕ) (more : List Wrote)
    → n < size
    → size ≤ n + m
    → write_loop size n part (wrote m ∷ more) ≡ (returns size, part ∷ [])
unfolding write_loop
loop-last size n m part more short enough =
    rw (lt→ltb n size short, write_loop, loop-done more size (n + m) part enough) refl

loop-error :
    (size n k : ℕ) (part : List ℕ) (more : List Wrote)
    → n < size
    → write_loop size n part (write_error k ∷ more) ≡ (fails n, part ∷ [])
unfolding write_loop
loop-error size n k part more short = rw (lt→ltb n size short) refl

replicate_more : (n : ℕ) (x : List ℕ) → replicate n x ++ (x ∷ []) ≡ replicate (suc n) x
unfolding replicate
replicate_more zero x = refl
replicate_more (suc n) x = ap (λ xs. x ∷ xs) (replicate_more n x)

-- A block of the writer's size is handed to the stream as a whole, which takes `n` bytes of it, and
-- then, round by round, as many as `ms` says, all together less than the block. In every round, and
-- in one more, the writer hands over the same rest of the block behind the first `n` bytes. If that
-- last round makes the count of bytes the size or more, the call returns the size, and hands over
-- nothing more; if the stream fails in it, the call fails with the count so far.
pub write-repeats :
    (w : Writer) (b : List ℕ) (n m k : ℕ) (ms : List ℕ) (more : List Wrote)
    → IsComplete w b
    → n + total ms < w.size
    → w.size ≤ n + total ms + m
    → (write w b (wrote n ∷ (map wrote ms ++ (wrote m ∷ more)))
        ≡ (returns w.size, b ∷ replicate (suc (length ms)) (drop n b)))
      × (write w b (wrote n ∷ (map wrote ms ++ (write_error k ∷ more)))
          ≡ (fails (n + total ms), b ∷ replicate (suc (length ms)) (drop n b)))
unfolding begin_write
write-repeats w b n m k ms more v short enough =
    let at = n + total ms in
    let part = drop n b in
    let go : (a : Wrote) (r : Returns)
        → write_loop w.size at part (a ∷ more) ≡ (r, part ∷ [])
        → write w b (wrote n ∷ (map wrote ms ++ (a ∷ more)))
          ≡ (r, b ∷ replicate (suc (length ms)) part) =
      λ a r e.
        write-begin w b (wrote n ∷ (map wrote ms ++ (a ∷ more))) v
        ∙ rw
            (
              ==_false n w.size (omega arith),
              v.complete,
              begin_write,
              loop-rounds ms w.size n part (a ∷ more) short,
              e,
            )
            (ap (λ xs. (r, b ∷ xs)) (replicate_more (length ms) part)) in
    (
      go (wrote m) (returns w.size) (loop-last w.size at m part more short enough),
      go (write_error k) (fails at) (loop-error w.size at k part more short),
    )

-- A block that the stream takes in two pieces is written: the call returns its size without an
-- error, and the pieces together are the block.
pub write_in_two :
    (w : Writer) (b : List ℕ) (n m : ℕ) (answers : List Wrote)
    → IsComplete w b
    → n < w.size
    → n + m ≡ w.size
    → (write w b (wrote n ∷ wrote m ∷ answers) ≡ (returns w.size, b ∷ drop n b ∷ []))
      × (take n b ++ take m (drop n b) ≡ b)
unfolding begin_write write_loop
write_in_two w b n m answers v short whole = (
  write-begin w b (wrote n ∷ wrote m ∷ answers) v
      ∙ rw (==_false n w.size (omega arith), v.complete, lt→ltb n w.size short, whole, begin_write)
          (ap (λ r. (r.0, b ∷ drop n b ∷ r.1))
            (loop-done answers w.size w.size (drop n b) (omega arith))),
  ap (λ xs. take n b ++ xs) (take_all m (drop n b) (omega (arith, length-drop n b, v.sized)))
      ∙ take-append-drop n b,
)

-- ===== src/Tests/Order.antt =====
-- Chunks that come to the dispatcher of the decoder out of order.
use mathlib.Core.Option
use fec.Prelude.{
  ℕ, zero, suc, ◌≤◌, ◌≡◌, refl, ap, ◌∙◌, Bool, true, none, some, List, [], ◌∷◌, arith, ℕ_discrete,
}
use fec.Codec.Chunk.{Chunk}
use fec.Codec.Decoder.{Dispatcher}
use fec.Codec.Decoder.Dispatch.{dispatch_all}
use fec.Codec.Decoder.Dispatch.Window.{in_order}
use fec.Codec.Decoder.Dispatch.Arrive.{mark}
use fec.Codec.Decoder.Dispatch.Order.{
  arrivals, marks, InWindow, nothing_held, fresh_dispatcher, dispatch_all-in_order,
}

abbrev numbered_chunk : ℕ → Chunk
numbered_chunk k = record { parts = 1; version = 1; kind = 1; csn = k; size = 1; payload = k ∷ [] }

abbrev dispatcher : Dispatcher
dispatcher = record {
  size = 3;
  first = 9;
  last = 7;
  awaiting = 8;
  chunks = none ∷ none ∷ none ∷ [];
  ok = 0;
  err = 0;
}

abbrev order : List ℕ
order = 2 ∷ 3 ∷ 1 ∷ 6 ∷ 5 ∷ 4 ∷ 8 ∷ []

-- The numbers from 1 to `n` have come, each looked up.
abbrev Checked : ℕ → (ℕ → Bool) → Type 0
Checked zero held = Unit
Checked (suc n) held = (held (suc n) ≡ true) × Checked n held

checked : (n : ℕ) (held : ℕ → Bool) → Checked n held → (j : ℕ) → 1 ≤ j → j ≤ n → held j ≡ true
checked zero held h j le lt = absurd (omega arith)
checked (suc n) held (e, h) j le lt = elim (ℕ_discrete j (suc n)) [
  | yes p ↦ ap held p ∙ e
  | no p ↦ checked n held h j le (omega arith)
]

order-InWindow : InWindow 3 1 nothing_held order
unfolding mark
order-InWindow = (
  omega arith,
  refl,
  (λ j le lt. checked 0 nothing_held tt j le (omega arith)),
  omega arith,
  (
    omega arith,
    refl,
    (λ j le lt. checked 0 (mark 2 nothing_held) tt j le (omega arith)),
    omega arith,
    (
      omega arith,
      refl,
      (λ j le lt. checked 0 (mark 3 (mark 2 nothing_held)) tt j le (omega arith)),
      omega arith,
      (
        omega arith,
        refl,
        (λ j le lt.
            checked 3 (mark 1 (mark 3 (mark 2 nothing_held))) (refl, (refl, (refl, tt))) j le
              (omega arith)),
        omega arith,
        (
          omega arith,
          refl,
          (λ j le lt.
              checked 2 (mark 6 (mark 1 (mark 3 (mark 2 nothing_held)))) (refl, (refl, tt)) j le
                (omega arith)),
          omega arith,
          (
            omega arith,
            refl,
            (λ j le lt.
                checked 1 (mark 5 (mark 6 (mark 1 (mark 3 (mark 2 nothing_held))))) (refl, tt) j le
                  (omega arith)),
            omega arith,
            (
              omega arith,
              refl,
              (λ j le lt.
                  checked 5 (mark 4 (mark 5 (mark 6 (mark 1 (mark 3 (mark 2 nothing_held))))))
                    (refl, (refl, (refl, (refl, (refl, tt))))) j le (omega arith)),
              omega arith,
              tt,
            ),
          ),
        ),
      ),
    ),
  ),
)

order-marks : (j : ℕ) → 1 ≤ j → j ≤ 6 → marks order nothing_held j ≡ true
unfolding marks mark
order-marks j le lt =
    checked 6 (marks order nothing_held) (refl, (refl, (refl, (refl, (refl, (refl, tt)))))) j le lt

dispatch_all-in_order_example :
    Option.map
      (λ r. r.0)
      (dispatch_all (fresh_dispatcher dispatcher) (arrivals numbered_chunk order))
    ≡ some (in_order numbered_chunk 1 6)
unfolding marks mark
dispatch_all-in_order_example =
    dispatch_all-in_order numbered_chunk (λ k. refl) dispatcher order 6 (omega arith) (omega arith)
      order-InWindow order-marks refl

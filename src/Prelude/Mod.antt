-- ===== src/Prelude/Mod.antt =====
-- Places round a ring.
use Prim.Native.Nat.{ℕ, ◌+◌, ◌-◌, ◌%◌, ◌<◌}
use mathlib.Core.Path.{◌≡◌, refl, sym, ap, ◌∙◌}
use mathlib.Core.Logic.{◌≢◌}
use native.Mathlib.Nat.{mod-add-mod, mod-eq_of_lt, mod-eq-sub-mod, mod-lt}
use native.Mathlib.Decide.{dec_lt}
use native.Mathlib.Omega.{arith}

-- Fewer than `m` steps round a ring of `m` places do not come back.
pub mod-add-ne : (m a k : ℕ) → 0 < k → k < m → a % m ≢ (a + k) % m
mod-add-ne m a k hk hm = elim (dec_lt (a % m + k) m) [
  | yes p ↦ omega (arith, sum, mod-eq_of_lt p)
  | no p ↦ omega (
    arith,
    sum,
    mod-lt a {m = m} (omega arith),
    mod-eq-sub-mod {n = a % m + k} {m = m} (omega arith),
    mod-eq_of_lt {n = a % m + k - m} {m = m} (omega (arith, mod-lt a {m = m} (omega arith))),
  )
]
  where
    sum : (a + k) % m ≡ (a % m + k) % m
    sum = rw mod-add-mod refl

-- The same, for two numbers less than `m` apart.
pub mod-ne_of_window : (m a k : ℕ) → a < k → k < a + m → a % m ≢ k % m
mod-ne_of_window m a k lt h e =
    mod-add-ne m a (k - a) (omega arith) (omega arith)
      (omega (arith, e, ap (λ x. x % m) {x = k} {y = a + (k - a)} (omega arith)))

pub mod-eq_of_round : (m a k : ℕ) → 0 < m → k ≡ a + m → k % m ≡ a % m
mod-eq_of_round m a k pos e =
    ap (λ x. x % m) e
    ∙ mod-eq-sub-mod {n = a + m} {m = m} (omega arith)
    ∙ ap (λ x. x % m) {x = a + m - m} {y = a} (omega arith)

-- The same, whichever of the two is the larger.
pub mod-ne_within : (m a b : ℕ) → ¬ (b ≡ a) → a < b + m → b < a + m → a % m ≢ b % m
mod-ne_within m a b apart left right = elim (dec_lt a b) [
  | yes p ↦ mod-ne_of_window m a b p right
  | no p ↦ λ e. mod-ne_of_window m b a (omega arith) left (sym e)
]

-- ===== src/Codec/Decoder/Assembly/Cells.antt =====
-- The places of the packet table of src/codec/decoder.go, one by one.
use fec.Prelude.{
  length, ℕ, zero, suc, ◌+◌, ◌-◌, ◌*◌, ◌≤◌, ◌<◌, ◌≡◌, ◌⊎◌, inl, inr, refl, ap, ◌∙◌, Option, none,
  List, [], ◌∷◌, arith, get_or, get_or-set_ne, set, take, drop, slice, dec_lt, ℕ_discrete,
}
use fec.Codec.Packet.{PacketV2}
use fec.Codec.Decoder.Assembly.{clear_from}

-- Places of different lines differ, and so do different places of a line.
pub place_unique : (t j i k m : ℕ) → i < t → m < t → j * t + i ≡ k * t + m → (j ≡ k) × (i ≡ m)
place_unique t j i k m hi hm e = elim (ℕ_discrete j k) [
  | yes p ↦ (p, omega (arith, e, ap (λ x. x * t) p))
  | no p ↦ elim (dec_lt j k) [
    | yes lt ↦ absurd (omega (arith, e, row_before t j k lt))
    | no ge ↦ absurd (omega (arith, e, row_before t k j (omega (arith, p, ge))))
  ]
]
  where
    row_before : (t j k : ℕ) → j < k → j * t + t ≤ k * t
    row_before t j k lt = grind arith

get_or-set-none : (xs : List (Option PacketV2)) (i : ℕ) → get_or (set xs i none) i none ≡ none
get_or-set-none [] i = refl
get_or-set-none (x ∷ xs) zero = refl
get_or-set-none (x ∷ xs) (suc i) = get_or-set-none xs i

-- A place that is not cleared keeps its packet.
pub get_or-clear_from_ne :
    (n at k : ℕ) (xs : List (Option PacketV2))
    → (k < at) ⊎ (at + n ≤ k)
    → get_or (clear_from n at xs) k none ≡ get_or xs k none
unfolding clear_from
get_or-clear_from_ne zero at k xs h = refl
get_or-clear_from_ne (suc n) at k xs (inl h) =
    get_or-clear_from_ne n (at + 1) k (set xs at none) (inl (omega arith))
    ∙ get_or-set_ne xs at k none none (λ e. omega (arith, e))
get_or-clear_from_ne (suc n) at k xs (inr h) =
    get_or-clear_from_ne n (at + 1) k (set xs at none) (inr (omega arith))
    ∙ get_or-set_ne xs at k none none (λ e. omega (arith, e))

-- A place that is cleared is empty.
pub get_or-clear_from :
    (n at k : ℕ) (xs : List (Option PacketV2))
    → at ≤ k
    → k < at + n
    → get_or (clear_from n at xs) k none ≡ none
unfolding clear_from
get_or-clear_from zero at k xs le lt = absurd (omega arith)
get_or-clear_from (suc n) at k xs le lt = elim (ℕ_discrete at k) [
  | yes p ↦
      get_or-clear_from_ne n (at + 1) k (set xs at none) (inl (omega (arith, p)))
      ∙ ap (λ i. get_or (set xs i none) k none) p
      ∙ get_or-set-none xs k
  | no p ↦ get_or-clear_from n (at + 1) k (set xs at none) (omega (arith, p)) (omega arith)
]

module _ {ℓ} {A : Type ℓ} where
  get_or-take : (n i : ℕ) (xs : List A) (d : A) → i < n → get_or (take n xs) i d ≡ get_or xs i d
  unfolding take
  get_or-take zero i xs d h = absurd (omega arith)
  get_or-take (suc n) i [] d h = refl
  get_or-take (suc n) zero (x ∷ xs) d h = refl
  get_or-take (suc n) (suc i) (x ∷ xs) d h = get_or-take n i xs d (omega arith)

  get_or-drop : (n i : ℕ) (xs : List A) (d : A) → get_or (drop n xs) i d ≡ get_or xs (n + i) d
  unfolding drop
  get_or-drop zero i xs d = ap (λ k. get_or xs k d) {x = i} {y = 0 + i} (omega arith)
  get_or-drop (suc n) i [] d = refl
  get_or-drop (suc n) i (x ∷ xs) d =
      get_or-drop n i xs d ∙ ap (λ k. get_or (x ∷ xs) k d) {x = suc (n + i)} (omega arith)

  -- The places of a slice.
  pub get_or-slice :
      (xs : List A) (lo n i : ℕ) (d : A)
      → i < n
      → get_or (slice xs lo (lo + n)) i d ≡ get_or xs (lo + i) d
  unfolding slice
  get_or-slice xs lo n i d h =
      get_or-take (lo + n - lo) i (drop lo xs) d (omega arith) ∙ get_or-drop lo i xs d

  -- There is no place outside.
  pub get_or_outside : (xs : List A) (i : ℕ) (d : A) → length xs ≤ i → get_or xs i d ≡ d
  get_or_outside [] i d h = refl
  get_or_outside (x ∷ xs) zero d h = absurd (omega arith)
  get_or_outside (x ∷ xs) (suc i) d h = get_or_outside xs i d (omega arith)

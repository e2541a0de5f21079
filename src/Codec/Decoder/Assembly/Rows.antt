-- ===== src/Codec/Decoder/Assembly/Rows.antt =====
-- A line of the packet table of src/codec/decoder.go as a list of its own.
use fec.Prelude.{
  ℕ, zero, suc, ◌+◌, ◌-◌, ◌≤◌, ◌<◌, ◌≡◌, ◌⊎◌, inl, inr, refl, ap, ◌∙◌, Option, none, List, [], ◌∷◌,
  arith, length, length-set, length-slice, length-take, set, take, drop, replicate, slice,
}
use fec.Codec.Packet.{PacketV2}
use fec.Codec.Decoder.Assembly.{clear_from}

module _ {ℓ} {A : Type ℓ} where
  take-set : (n i : ℕ) (xs : List A) (v : A) → take n (set xs i v) ≡ set (take n xs) i v
  unfolding take
  take-set zero i xs v = refl
  take-set (suc n) i [] v = refl
  take-set (suc n) zero (x ∷ xs) v = refl
  take-set (suc n) (suc i) (x ∷ xs) v = ap (◌∷◌ x) (take-set n i xs v)

  drop-set_behind : (n i : ℕ) (xs : List A) (v : A) → i < n → drop n (set xs i v) ≡ drop n xs
  unfolding drop
  drop-set_behind zero i xs v h = absurd (omega arith)
  drop-set_behind (suc n) i [] v h = refl
  drop-set_behind (suc n) zero (x ∷ xs) v h = refl
  drop-set_behind (suc n) (suc i) (x ∷ xs) v h = drop-set_behind n i xs v (omega arith)

  drop-set : (n i : ℕ) (xs : List A) (v : A) → drop n (set xs (n + i) v) ≡ set (drop n xs) i v
  unfolding drop
  drop-set zero i xs v = ap (λ k. set xs k v) (omega arith)
  drop-set (suc n) i [] v = refl
  drop-set (suc n) i (x ∷ xs) v =
      ap (λ k. drop (suc n) (set (x ∷ xs) k v)) {y = suc (n + i)} (omega arith) ∙ drop-set n i xs v

  set_outside : (xs : List A) (i : ℕ) (v : A) → length xs ≤ i → set xs i v ≡ xs
  set_outside [] i v h = refl
  set_outside (x ∷ xs) zero v h = absurd (omega arith)
  set_outside (x ∷ xs) (suc i) v h = ap (◌∷◌ x) (set_outside xs i v (omega arith))

  -- A write into the slice is a write into the list at the same place.
  pub slice-set :
      (xs : List A) (lo n i : ℕ) (v : A)
      → slice (set xs (lo + i) v) lo (lo + n) ≡ set (slice xs lo (lo + n)) i v
  unfolding slice
  slice-set xs lo n i v = rw (drop-set lo i xs v) (take-set (lo + n - lo) i (drop lo xs) v)

  -- A write outside leaves the slice alone.
  pub slice-set_ne :
      (xs : List A) (lo n i : ℕ) (v : A)
      → (i < lo) ⊎ (lo + n ≤ i)
      → slice (set xs i v) lo (lo + n) ≡ slice xs lo (lo + n)
  unfolding slice
  slice-set_ne xs lo n i v (inl h) = rw (drop-set_behind lo i xs v h)
  slice-set_ne xs lo n i v (inr h) =
      let at : i ≡ lo + (i - lo) = omega arith in
      ap (λ k. take (lo + n - lo) (drop lo (set xs k v))) at
      ∙ rw (drop-set lo (i - lo) xs v, take-set (lo + n - lo) (i - lo) (drop lo xs) v)
          (set_outside (take (lo + n - lo) (drop lo xs)) (i - lo) v
            (omega (arith, length-take (lo + n - lo) (drop lo xs))))

pub length-clear_from :
    (n at : ℕ) (xs : List (Option PacketV2)) → length (clear_from n at xs) ≡ length xs
unfolding clear_from
length-clear_from zero at xs = refl
length-clear_from (suc n) at xs =
    length-clear_from n (at + 1) (set xs at none) ∙ length-set xs at none

-- Clearing inside a slice.
slice-clear_from :
    (m lo n i : ℕ) (xs : List (Option PacketV2))
    → slice (clear_from m (lo + i) xs) lo (lo + n) ≡ clear_from m i (slice xs lo (lo + n))
unfolding clear_from
slice-clear_from zero lo n i xs = refl
slice-clear_from (suc m) lo n i xs =
    ap (λ k. slice (clear_from m k (set xs (lo + i) none)) lo (lo + n)) {y = lo + (i + 1)}
      (omega arith)
    ∙ slice-clear_from m lo n (i + 1) (set xs (lo + i) none)
    ∙ ap (clear_from m (i + 1)) (slice-set xs lo n i none)

-- Clearing outside a slice leaves it alone.
pub slice-clear_from_ne :
    (m at lo n : ℕ) (xs : List (Option PacketV2))
    → (at + m ≤ lo) ⊎ (lo + n ≤ at)
    → slice (clear_from m at xs) lo (lo + n) ≡ slice xs lo (lo + n)
unfolding clear_from
slice-clear_from_ne zero at lo n xs h = refl
slice-clear_from_ne (suc m) at lo n xs (inl h) =
    slice-clear_from_ne m (at + 1) lo n (set xs at none) (inl (omega arith))
    ∙ slice-set_ne xs lo n at none (inl (omega arith))
slice-clear_from_ne (suc m) at lo n xs (inr h) =
    slice-clear_from_ne m (at + 1) lo n (set xs at none) (inr (omega arith))
    ∙ slice-set_ne xs lo n at none (inr h)

clear_from-cons :
    (m i : ℕ) (x : Option PacketV2) (xs : List (Option PacketV2))
    → clear_from m (i + 1) (x ∷ xs) ≡ x ∷ clear_from m i xs
unfolding clear_from
clear_from-cons zero i x xs = refl
clear_from-cons (suc m) i x xs =
    ap (λ k. clear_from m (i + 1 + 1) (set (x ∷ xs) k none)) {y = suc i} (omega arith)
    ∙ clear_from-cons m (i + 1) x (set xs i none)

clear_from_all :
    (n : ℕ) (xs : List (Option PacketV2)) → length xs ≡ n → clear_from n 0 xs ≡ replicate n none
unfolding clear_from replicate
clear_from_all zero [] h = refl
clear_from_all zero (x ∷ xs) h = absurd (omega arith)
clear_from_all (suc n) [] h = absurd (omega arith)
clear_from_all (suc n) (x ∷ xs) h =
    clear_from-cons n 0 none xs ∙ ap (◌∷◌ none) (clear_from_all n xs (omega arith))

-- Clearing the places of a slice leaves it empty.
pub slice-clear_self :
    (lo n : ℕ) (xs : List (Option PacketV2))
    → lo + n ≤ length xs
    → slice (clear_from n lo xs) lo (lo + n) ≡ replicate n none
slice-clear_self lo n xs h =
    ap (λ k. slice (clear_from n k xs) lo (lo + n)) {y = lo + 0} (omega arith)
    ∙ slice-clear_from n lo n 0 xs
    ∙ clear_from_all n (slice xs lo (lo + n))
        (length-slice xs lo (lo + n) (omega arith) h ∙ omega arith)

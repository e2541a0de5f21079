-- ===== src/Prelude/Bytes.antt =====
-- What the program takes from Go's `copy`, slicing, `encoding/binary` and array comparison. A byte
-- is a number below 256.
use Prim.Native.Nat.{ℕ, zero, suc, ◌+◌, ◌-◌, ◌*◌, ◌/◌, ◌%◌, ◌^◌, ◌≤◌, ◌<◌}
use mathlib.Core.Path.{◌≡◌, refl, sym, ap, ◌∙◌}
use mathlib.Core.Bool.{Bool, true, false, ◌&&◌}
use mathlib.Core.List.{List, [], ◌∷◌, ◌++◌, append-nil, append_assoc}
use native.Mathlib.Omega.{arith}
use mathlib.Core.Logic.{◌≢◌, ◌⊎◌, inl, inr}
use fec.Prelude.Tests.{◌==◌, Bool-cases}
use fec.Prelude.Lists.{
  length, take, drop, take-append-drop, length-append, length-take, length-drop, take-append,
  drop-append, take_all, drop_all, replicate, length-replicate, drop-replicate, take-replicate,
  take-append_split,
}

abbrev pub All {ℓ κ} : {A : Type ℓ} → (A → Type κ) → List A → Type κ
All P [] = Unit
All P (x ∷ xs) = P x × All P xs

-- `copy(dst, src)` leaves `dst` so.
unfoldable pub copy {ℓ} : {A : Type ℓ} → List A → List A → List A
copy dst src = take (length dst) src ++ drop (length src) dst

-- `b[lo:hi]`, for `lo ≤ hi ≤ len(b)`.
unfoldable pub slice {ℓ} : {A : Type ℓ} → List A → ℕ → ℕ → List A
slice b lo hi = take (hi - lo) (drop lo b)

-- `copy(b[lo:hi], src)` leaves `b` so.
unfoldable pub copy_at {ℓ} : {A : Type ℓ} → List A → ℕ → ℕ → List A → List A
copy_at b lo hi src = take lo b ++ (copy (slice b lo hi) src ++ drop hi b)

-- `binary.LittleEndian.PutUint32`, `PutUint64`: the `k` low bytes, lowest first.
unfoldable pub le_bytes : ℕ → ℕ → List ℕ
le_bytes zero v = []
le_bytes (suc k) v = (v % 256) ∷ le_bytes k (v / 256)

-- `binary.LittleEndian.Uint32`, `Uint64`.
unfoldable pub le_value : List ℕ → ℕ
le_value [] = 0
le_value (b ∷ bs) = b + 256 * le_value bs

-- `==` on byte arrays.
unfoldable pub bytes_eq : List ℕ → List ℕ → Bool
bytes_eq [] [] = true
bytes_eq [] (y ∷ ys) = false
bytes_eq (x ∷ xs) [] = false
bytes_eq (x ∷ xs) (y ∷ ys) = (x == y) && bytes_eq xs ys

pub length-le_bytes : (k v : ℕ) → length (le_bytes k v) ≡ k
unfolding le_bytes
length-le_bytes zero v = refl
length-le_bytes (suc k) v = ap suc (length-le_bytes k (v / 256))

pub le_value-le_bytes : (k v : ℕ) → v < 256 ^ k → le_value (le_bytes k v) ≡ v
unfolding le_bytes le_value
le_value-le_bytes zero v h = omega arith
le_value-le_bytes (suc k) v h = omega (arith, le_value-le_bytes k (v / 256) (omega arith))

pub bytes_eq_refl : (xs : List ℕ) → bytes_eq xs xs ≡ true
unfolding bytes_eq
bytes_eq_refl [] = refl
bytes_eq_refl (x ∷ xs) = ground (arith, bytes_eq_refl xs)

pub bytes_eq→eq : (xs ys : List ℕ) → bytes_eq xs ys ≡ true → xs ≡ ys
unfolding bytes_eq
bytes_eq→eq [] [] h = refl
bytes_eq→eq [] (y ∷ ys) h = cc
bytes_eq→eq (x ∷ xs) [] h = cc
bytes_eq→eq (x ∷ xs) (y ∷ ys) h = ground (arith, bytes_eq→eq xs ys)

module _ {ℓ} {A : Type ℓ} where
  -- A full copy replaces the destination.
  pub copy_full : (dst src : List A) → length src ≡ length dst → copy dst src ≡ src
  unfolding copy
  copy_full dst src h =
      rw (take_all (length dst) src (omega arith), drop_all (length src) dst (omega arith))
        (append-nil src)

  -- Copying into a filled buffer.
  pub copy-replicate :
      (n : ℕ) (a : A) (src : List A) → copy (replicate n a) src ≡ take n (src ++ replicate n a)
  unfolding copy
  copy-replicate n a src =
      ap (λ k. take k src ++ drop (length src) (replicate n a)) (length-replicate n a)
      ∙ ap (◌++◌ (take n src)) (
          drop-replicate (length src) n a ∙ sym (take-replicate (n - length src) n a (omega arith)))
      ∙ sym (take-append_split n src (replicate n a))

  pub length-copy : (dst src : List A) → length (copy dst src) ≡ length dst
  unfolding copy
  length-copy dst src = omega (
    arith,
    length-append (take (length dst) src) (drop (length src) dst),
    length-take (length dst) src,
    length-drop (length src) dst,
  )

  -- A slice of a concatenation that falls on its middle part.
  pub slice-append :
      (pre mid post : List A) (lo hi : ℕ)
      → length pre ≡ lo
      → length mid + lo ≡ hi
      → slice (pre ++ (mid ++ post)) lo hi ≡ mid
  unfolding slice
  slice-append pre mid post lo hi h k =
      rw (drop-append lo pre (mid ++ post) h) (take-append (hi - lo) mid post (omega arith))

  -- Writing over the middle part of a concatenation.
  pub copy_at-append :
      (pre mid post src : List A) (lo hi : ℕ)
      → length pre ≡ lo
      → length mid + lo ≡ hi
      → copy_at (pre ++ (mid ++ post)) lo hi src ≡ pre ++ (copy mid src ++ post)
  unfolding copy_at
  copy_at-append pre mid post src lo hi h k =
      rw (slice-append pre mid post lo hi h k, take-append lo pre (mid ++ post) h, rest) refl
    where
      rest : drop hi (pre ++ (mid ++ post)) ≡ post
      rest =
          ap (λ l. drop hi l) (sym (append_assoc pre mid post))
          ∙ drop-append hi (pre ++ mid) post (omega (arith, length-append pre mid))

  pub length-slice :
      (b : List A) (lo hi : ℕ) → lo ≤ hi → hi ≤ length b → length (slice b lo hi) ≡ hi - lo
  unfolding slice
  length-slice b lo hi h k = omega (arith, length-take (hi - lo) (drop lo b), length-drop lo b)

  -- A slice of a list that is known as three parts.
  pub slice_of :
      (l pre mid post : List A) (lo hi : ℕ)
      → l ≡ pre ++ (mid ++ post)
      → length pre ≡ lo
      → length mid + lo ≡ hi
      → slice l lo hi ≡ mid
  slice_of l pre mid post lo hi e h k = rw e (slice-append pre mid post lo hi h k)

  -- Writing a whole source behind a known front.
  pub copy_at_front :
      (pre tail src : List A) (lo hi : ℕ)
      → length pre ≡ lo
      → length src + lo ≡ hi
      → length src ≤ length tail
      → copy_at (pre ++ tail) lo hi src ≡ (pre ++ src) ++ drop (length src) tail
  copy_at_front pre tail src lo hi hp hs room =
      ap (λ l. copy_at (pre ++ l) lo hi src) (sym (take-append-drop (length src) tail))
      ∙ copy_at-append pre (take (length src) tail) (drop (length src) tail) src lo hi hp
          (omega (arith, length-take (length src) tail))
      ∙ ap (λ l. pre ++ (l ++ drop (length src) tail))
          (copy_full (take (length src) tail) src (omega (arith, length-take (length src) tail)))
      ∙ sym (append_assoc pre src (drop (length src) tail))

  -- Writing over everything behind a known front.
  pub copy_at_end :
      (pre tail src : List A) (lo : ℕ)
      → length pre ≡ lo
      → copy_at (pre ++ tail) lo (length (pre ++ tail)) src ≡ pre ++ copy tail src
  copy_at_end pre tail src lo hp =
      ap (λ l. copy_at (pre ++ l) lo (length (pre ++ tail)) src) (sym (append-nil tail))
      ∙ copy_at-append pre tail [] src lo (length (pre ++ tail)) hp
          (omega (arith, length-append pre tail))
      ∙ ap (◌++◌ pre) (append-nil (copy tail src))

-- To split on a comparison.
pub bytes_eq-cases :
    (x y : List ℕ) → ((bytes_eq x y ≡ true) × (x ≡ y)) ⊎ ((bytes_eq x y ≡ false) × (x ≢ y))
bytes_eq-cases x y = elim (Bool-cases (bytes_eq x y)) [
  | inl e ↦ inl (e, bytes_eq→eq x y e)
  | inr e ↦ inr (e, λ p. ground (arith, e, ap (bytes_eq x) (sym p) ∙ bytes_eq_refl x))
]

pub bytes_eq-false : (x y : List ℕ) → x ≢ y → bytes_eq x y ≡ false
bytes_eq-false x y h = elim (bytes_eq-cases x y) [ inl (e, p) ↦ absurd (h p) | inr (e, n) ↦ e ]

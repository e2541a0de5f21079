-- ===== src/Codec/ReedSolomon.antt =====
-- github.com/klauspost/reedsolomon, as far as src/codec uses it: what the program calls, and what
-- the package documents of it. A shard that is missing is the empty slice.
use fec.Prelude.{ℕ, suc, ◌≤◌, ◌<◌, ◌≡◌, ◌⊎◌, Option, some, List, [], ◌∷◌, length, take, All}

-- `AllocAligned(shards, each)`, `Encode` of an encoder and `ReconstructData`; `none` is an error.
pub record ReedSolomon : Type 0 where
  pub alloc_aligned : ℕ → ℕ → List (List ℕ)
  pub encode : List (List ℕ) → Option (List (List ℕ))
  pub reconstruct_data : List (List ℕ) → Option (List (List ℕ))

abbrev pub HasSize : ℕ → List ℕ → Type 0
HasSize n shard = length shard ≡ n

-- What is left of the shards when some are lost.
abbrev pub Survives : List (List ℕ) → List (List ℕ) → Type 0
Survives [] [] = Unit
Survives [] (y ∷ ys) = ⊥
Survives (x ∷ xs) [] = ⊥
Survives (x ∷ xs) (y ∷ ys) = ((y ≡ x) ⊎ (y ≡ [])) × Survives xs ys

-- How many shards are there.
abbrev pub present : List (List ℕ) → ℕ
present [] = 0
present ([] ∷ ys) = present ys
present ((b ∷ bs) ∷ ys) = suc (present ys)

-- The documented behaviour for `parts` data shards of `total`, all of `each` bytes, `0 < each`:
-- allocation gives shards of the size asked for; `Encode` keeps the data shards and the sizes; and
-- `ReconstructData` restores the data shards, if at least `parts` of the encoded shards survive.
pub record IsCode (rs : ReedSolomon) (parts total : ℕ) : Type 0 where
  pub alloc_count : (n each : ℕ) → length (rs.alloc_aligned n each) ≡ n
  pub alloc_sizes : (n each : ℕ) → All (HasSize each) (rs.alloc_aligned n each)
  pub encodes :
      (each : ℕ) (shards : List (List ℕ))
      → 0 < each
      → length shards ≡ total
      → All (HasSize each) shards
      → (full : List (List ℕ)) × (rs.encode shards ≡ some full)
        × (length full ≡ total)
        × All (HasSize each) full
        × (take parts full ≡ take parts shards)
  pub reconstructs :
      (each : ℕ) (shards full got : List (List ℕ))
      → 0 < each
      → length shards ≡ total
      → All (HasSize each) shards
      → rs.encode shards ≡ some full
      → Survives full got
      → parts ≤ present got
      → (out : List (List ℕ)) × (rs.reconstruct_data got ≡ some out)
        × (take parts out ≡ take parts full)

-- ===== src/Codec/Recovery/Spread/Batches.antt =====
-- Sequences of packets by their places, as the dispatcher of src/codec/encoder.go sees them.
use native.Mathlib.Nat.{mul-add-mod_self_left, mul-add-div, mod-eq_of_lt, div-eq_of_lt}
use fec.Prelude.{
  ℕ, zero, suc, ◌+◌, ◌*◌, ◌≤◌, ◌<◌, ◌≡◌, refl, ap, ap₂, ◌∙◌, List, [], ◌∷◌, ◌++◌, map, arith,
  length, get_or,
}
use fec.Codec.Packet.{PacketV2, marshal}
use fec.Codec.Encoder.Dispatch.Place.{packet_at}
use fec.Codec.Encoder.Dispatch.Interleave.{batch, marshalled}
use fec.Codec.Decoder.Assembly.Round.{Round, rounds_of}

pub batch-append :
    (P : ℕ → PacketV2) (k m m' : ℕ) → batch P k (m + m') ≡ batch P k m ++ batch P (k + m) m'
batch-append P k zero m' = ap₂ (batch P) {x = k} {y = k + 0} (omega arith) (omega arith)
batch-append P k (suc m) m' =
    ap (batch P k) {x = suc m + m'} {y = suc (m + m')} (omega arith)
    ∙ ap (λ xs. P k ∷ xs) (batch-append P (k + 1) m m')
    ∙ ap (λ i. P k ∷ (batch P (k + 1) m ++ batch P i m')) {x = k + 1 + m} {y = k + suc m}
        (omega arith)

pub batch-eq :
    (P Q : ℕ → PacketV2) (k l m : ℕ)
    → ((j : ℕ) → j < m → P (k + j) ≡ Q (l + j))
    → batch P k m ≡ batch Q l m
batch-eq P Q k l zero h = refl
batch-eq P Q k l (suc m) h =
    ap₂ (λ x xs. x ∷ xs)
      (ap P {x = k} {y = k + 0} (omega arith)
        ∙ h 0 (omega arith)
        ∙ ap Q {x = l + 0} {y = l} (omega arith))
      (batch-eq P Q (k + 1) (l + 1) m (λ j lt.
        ap P {x = k + 1 + j} {y = k + suc j} (omega arith)
        ∙ h (suc j) (omega arith)
        ∙ ap Q {x = l + suc j} {y = l + 1 + j} (omega arith)))

-- A list is the batch of its elements.
pub batch-get_or :
    (xs : List PacketV2) (d : PacketV2) → batch (λ k. get_or xs k d) 0 (length xs) ≡ xs
batch-get_or [] d = refl
batch-get_or (x ∷ xs) d =
    ap (λ ys. x ∷ ys)
      (batch-eq (λ k. get_or (x ∷ xs) k d) (λ k. get_or xs k d) (0 + 1) 0 (length xs)
          (λ j lt. ap (λ i. get_or (x ∷ xs) i d) {x = 0 + 1 + j} {y = suc (0 + j)} (omega arith))
        ∙ batch-get_or xs d)

unfoldable pub range : ℕ → ℕ → List ℕ
range r zero = []
range r (suc m) = r ∷ range (r + 1) m

module _ (sha1 : List ℕ → List ℕ) (P : ℕ → PacketV2) where
  pub marshalled-batch :
      (f : ℕ → ℕ) (k m : ℕ)
      → marshalled sha1 P f k m ≡ map (marshal sha1) (batch (λ s. P (f s)) k m)
  marshalled-batch f k zero = refl
  marshalled-batch f k (suc m) =
      ap (λ xs. marshal sha1 (P (f k)) ∷ xs) (marshalled-batch f (k + 1) m)

-- The packet at place `j` of round `r`.
packet_at-round : (n total r j : ℕ) → j < n → packet_at n total (n * r + j) ≡ j * total + r
unfolding packet_at
packet_at-round n total r j lt =
    rw
      (
        mul-add-mod_self_left n r j,
        mod-eq_of_lt lt,
        mul-add-div {m = n} (omega (arith, lt)) r j,
        div-eq_of_lt lt,
      )
      (omega arith)

-- Packets that stand in the order of the chunks are sent round by round, if packet `r` of chunk `j`
-- is that of round `r`.
pub batch-rounds_of :
    (n total : ℕ) (P : ℕ → PacketV2) (round : ℕ → Round)
    → ((r j : ℕ) → r < total → j < n → P (j * total + r) ≡ round r j)
    → (r m : ℕ) → r + m ≤ total
    → batch (λ s. P (packet_at n total s)) (n * r) (n * m) ≡ rounds_of n (map round (range r m))
unfolding range
batch-rounds_of n total P round h r zero fits =
    ap (batch (λ s. P (packet_at n total s)) (n * r)) {x = n * 0} {y = 0} (omega arith)
batch-rounds_of n total P round h r (suc m) fits =
    ap (batch (λ s. P (packet_at n total s)) (n * r)) {x = n * suc m} {y = n + n * m} (grind arith)
    ∙ batch-append (λ s. P (packet_at n total s)) (n * r) n (n * m)
    ∙ ap₂ (λ xs ys. xs ++ ys)
        (batch-eq (λ s. P (packet_at n total s)) (round r) (n * r) 0 n
          (λ j lt.
            ap P (packet_at-round n total r j lt)
            ∙ h r j (omega arith) lt
            ∙ ap (round r) {x = j} {y = 0 + j} (omega arith)))
        (ap (λ k. batch (λ s. P (packet_at n total s)) k (n * m)) {x = n * r + n} {y = n * (r + 1)}
            (grind arith)
          ∙ batch-rounds_of n total P round h (r + 1) m (omega arith))

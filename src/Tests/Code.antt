-- ===== src/Tests/Code.antt =====
-- A code of two data shards and a third that is their sum, place by place: any two of the three
-- give the data back.
use fec.Prelude.{
  ℕ, zero, suc, ◌+◌, ◌-◌, ◌≤◌, ◌<◌, ◌≡◌, ◌⊎◌, inl, inr, refl, sym, ap, ap₂, ◌∙◌, Option, none, some,
  List, [], ◌∷◌, length, length-replicate, take, replicate, All, arith, if◌then◌else◌, ltb,
  ltb-false, lt→ltb,
}
use mathlib.Core.Path.{subst}
use fec.Codec.ReedSolomon.{ReedSolomon, HasSize, Survives, present, IsCode}

unfoldable pub plus : List ℕ → List ℕ → List ℕ
plus [] ys = []
plus (x ∷ xs) [] = []
plus (x ∷ xs) (y ∷ ys) = (x + y) ∷ plus xs ys

unfoldable pub minus : List ℕ → List ℕ → List ℕ
minus [] ys = []
minus (x ∷ xs) [] = []
minus (x ∷ xs) (y ∷ ys) = (x - y) ∷ minus xs ys

unfoldable pub sum_encode : List (List ℕ) → Option (List (List ℕ))
unfolding plus
sum_encode (a ∷ b ∷ c ∷ []) = some (a ∷ b ∷ plus a b ∷ [])
sum_encode shards = none

unfoldable pub sum_restore : List (List ℕ) → Option (List (List ℕ))
unfolding minus
sum_restore ([] ∷ b ∷ c ∷ []) = some (minus c b ∷ b ∷ c ∷ [])
sum_restore ((x ∷ a) ∷ [] ∷ c ∷ []) = some ((x ∷ a) ∷ minus c (x ∷ a) ∷ c ∷ [])
sum_restore shards = some shards

-- Two of the three shards are needed.
unfoldable pub sum_reconstruct : List (List ℕ) → Option (List (List ℕ))
sum_reconstruct shards = if ltb (present shards) 2 then none else sum_restore shards

abbrev pub sum_code : ReedSolomon
sum_code = record {
  alloc_aligned = λ n each. replicate n (replicate each 0);
  encode = sum_encode;
  reconstruct_data = sum_reconstruct;
}

All-replicate : (n each : ℕ) → All (HasSize each) (replicate n (replicate each 0))
unfolding replicate
All-replicate zero each = tt
All-replicate (suc n) each = (length-replicate each 0, All-replicate n each)

length-plus : (a b : List ℕ) → length a ≡ length b → length (plus a b) ≡ length a
unfolding plus
length-plus [] b h = refl
length-plus (x ∷ a) [] h = absurd (omega arith)
length-plus (x ∷ a) (y ∷ b) h = ap suc (length-plus a b (omega arith))

minus-plus_right : (a b : List ℕ) → length a ≡ length b → minus (plus a b) b ≡ a
unfolding plus minus
minus-plus_right [] b h = refl
minus-plus_right (x ∷ a) [] h = absurd (omega arith)
minus-plus_right (x ∷ a) (y ∷ b) h =
    ap₂ (λ n xs. n ∷ xs) (omega arith) (minus-plus_right a b (omega arith))

minus-plus_left : (a b : List ℕ) → length a ≡ length b → minus (plus a b) a ≡ b
unfolding plus minus
minus-plus_left [] [] h = refl
minus-plus_left [] (y ∷ b) h = absurd (omega arith)
minus-plus_left (x ∷ a) [] h = absurd (omega arith)
minus-plus_left (x ∷ a) (y ∷ b) h =
    ap₂ (λ n xs. n ∷ xs) (omega arith) (minus-plus_left a b (omega arith))

sum_encodes :
    (each : ℕ) (shards : List (List ℕ))
    → 0 < each
    → length shards ≡ 3
    → All (HasSize each) shards
    → (full : List (List ℕ)) × (sum_encode shards ≡ some full)
      × (length full ≡ 3)
      × All (HasSize each) full
      × (take 2 full ≡ take 2 shards)
unfolding sum_encode take
sum_encodes each [] pos h k = absurd (omega arith)
sum_encodes each (a ∷ []) pos h k = absurd (omega arith)
sum_encodes each (a ∷ b ∷ []) pos h k = absurd (omega arith)
sum_encodes each (a ∷ b ∷ c ∷ d ∷ ss) pos h k = absurd (omega arith)
sum_encodes each (a ∷ b ∷ c ∷ []) pos h (ka, (kb, (kc, k))) =
    (a ∷ b ∷ plus a b ∷ [], refl, refl, (ka, (kb, (length-plus a b (ka ∙ sym kb) ∙ ka, tt))), refl)

-- A shard that is there is the one that was sent.
kept : (x ys : List ℕ) (y : ℕ) → (y ∷ ys ≡ x) ⊎ (y ∷ ys ≡ []) → y ∷ ys ≡ x
kept x ys y (inl e) = e
kept x ys y (inr e) = cc

restores :
    (each : ℕ) (a b : List ℕ) (got : List (List ℕ))
    → length a ≡ each
    → length b ≡ each
    → Survives (a ∷ b ∷ plus a b ∷ []) got
    → 2 ≤ present got
    → (out : List (List ℕ)) × (sum_restore got ≡ some out) × (take 2 out ≡ a ∷ b ∷ [])
unfolding sum_restore take
restores each a b [] ka kb s p = absurd s
restores each a b (x ∷ []) ka kb (hx, s) p = absurd s
restores each a b (x ∷ y ∷ []) ka kb (hx, (hy, s)) p = absurd s
restores each a b (x ∷ y ∷ z ∷ w ∷ got) ka kb (hx, (hy, (hz, s))) p = absurd s
restores each a b ([] ∷ [] ∷ [] ∷ []) ka kb s p = absurd (omega arith)
restores each a b ([] ∷ [] ∷ (z ∷ zs) ∷ []) ka kb s p = absurd (omega arith)
restores each a b ([] ∷ (y ∷ ys) ∷ [] ∷ []) ka kb s p = absurd (omega arith)
restores each a b ([] ∷ (y ∷ ys) ∷ (z ∷ zs) ∷ []) ka kb (hx, (hy, (hz, s))) p =
    let ey = kept b ys y hy in
    let ez = kept (plus a b) zs z hz in
    (
      minus (z ∷ zs) (y ∷ ys) ∷ (y ∷ ys) ∷ (z ∷ zs) ∷ [],
      refl,
      ap₂ (λ u v. u ∷ v ∷ []) (ap₂ minus ez ey ∙ minus-plus_right a b (ka ∙ sym kb)) ey,
    )
restores each a b ((x ∷ xs) ∷ [] ∷ [] ∷ []) ka kb s p = absurd (omega arith)
restores each a b ((x ∷ xs) ∷ [] ∷ (z ∷ zs) ∷ []) ka kb (hx, (hy, (hz, s))) p =
    let ex = kept a xs x hx in
    let ez = kept (plus a b) zs z hz in
    (
      (x ∷ xs) ∷ minus (z ∷ zs) (x ∷ xs) ∷ (z ∷ zs) ∷ [],
      refl,
      ap₂ (λ u v. u ∷ v ∷ []) ex (ap₂ minus ez ex ∙ minus-plus_left a b (ka ∙ sym kb)),
    )
restores each a b ((x ∷ xs) ∷ (y ∷ ys) ∷ z ∷ []) ka kb (hx, (hy, (hz, s))) p =
    ((x ∷ xs) ∷ (y ∷ ys) ∷ z ∷ [], refl, ap₂ (λ u v. u ∷ v ∷ []) (kept a xs x hx) (kept b ys y hy))

sum_reconstruct-eq : (got : List (List ℕ)) → 2 ≤ present got → sum_reconstruct got ≡ sum_restore got
unfolding sum_reconstruct
sum_reconstruct-eq got h = rw (ltb-false (present got) 2 h) refl

pub sum_reconstruct-too_few :
    (got : List (List ℕ)) → length got ≡ 3 → present got < 2 → sum_reconstruct got ≡ none
unfolding sum_reconstruct
sum_reconstruct-too_few got len h = rw (lt→ltb (present got) 2 h) refl

sum_reconstructs :
    (each : ℕ) (shards full got : List (List ℕ))
    → 0 < each
    → length shards ≡ 3
    → All (HasSize each) shards
    → sum_encode shards ≡ some full
    → Survives full got
    → 2 ≤ present got
    → (out : List (List ℕ)) × (sum_reconstruct got ≡ some out) × (take 2 out ≡ take 2 full)
unfolding sum_encode take
sum_reconstructs each [] full got pos h k e s p = absurd (omega arith)
sum_reconstructs each (a ∷ []) full got pos h k e s p = absurd (omega arith)
sum_reconstructs each (a ∷ b ∷ []) full got pos h k e s p = absurd (omega arith)
sum_reconstructs each (a ∷ b ∷ c ∷ d ∷ ss) full got pos h k e s p = absurd (omega arith)
sum_reconstructs each (a ∷ b ∷ c ∷ []) full got pos h (ka, (kb, (kc, k))) e s p =
    let is_full : full ≡ a ∷ b ∷ plus a b ∷ [] = ground (arith, e) in
    let (out, done, same) = restores each a b got ka kb (subst (λ f. Survives f got) is_full s) p in
    (out, sum_reconstruct-eq got p ∙ done, same ∙ ap (take 2) (sym is_full))

pub sum_code-IsCode : IsCode sum_code 2 3
sum_code-IsCode = record {
  alloc_count = λ n each. length-replicate n (replicate each 0);
  alloc_sizes = All-replicate;
  encodes = sum_encodes;
  reconstructs = sum_reconstructs;
}

-- A hash function: the hash of anything is zeros.
abbrev pub no_sha1 : List ℕ → List ℕ
no_sha1 x = replicate 20 0

pub no_sha1_len : (x : List ℕ) → length (no_sha1 x) ≡ 20
no_sha1_len x = length-replicate {A = ℕ} 20 0

-- ===== src/Codec/Chunk/Shards.antt =====
-- The two copying loops of src/codec/chunk.go in plain terms: `fill_shards` spreads the data over
-- the shards, and `gather` reads it back.
use fec.Prelude.{
  ℕ, zero, suc, ◌+◌, ◌-◌, ◌≤◌, ◌≡◌, refl, sym, ap, ap₂, ◌∙◌, inl, inr, true, Bool-cases, some, List,
  [], ◌∷◌, ◌++◌, arith, append_assoc, ltb, ltb→lt, lt→ltb, ltb-false, ==_refl, length,
  length-append, length-take, length-drop, take, drop, min, drop-min, drop-add, drop_all, take_all,
  take-append-drop, take-append, take-append_split, copy, copy_at, copy_at_end,
}
use native.Mathlib.Decide.{dec_le}
use fec.Codec.Chunk.{fill_shards, gather}

abbrev pub concat : List (List ℕ) → List ℕ
concat [] = []
concat (xs ∷ xss) = xs ++ concat xss

-- The data over the shards, in order.
unfoldable pub spread : List (List ℕ) → List ℕ → List (List ℕ)
spread [] rest = []
spread (shard ∷ shards) rest = copy shard rest ∷ spread shards (drop (length shard) rest)

copy-nil : (dst : List ℕ) → copy dst [] ≡ dst
unfolding copy take drop
copy-nil [] = refl
copy-nil (x ∷ dst) = refl

spread-nil : (shards : List (List ℕ)) → spread shards [] ≡ shards
unfolding spread
spread-nil [] = refl
spread-nil (shard ∷ shards) =
    ap₂ ◌∷◌ (copy-nil shard)
      (ap (spread shards) (drop_all (length shard) [] (omega arith)) ∙ spread-nil shards)

pub length-spread :
    (shards : List (List ℕ)) (rest : List ℕ) → length (spread shards rest) ≡ length shards
unfolding spread
length-spread [] rest = refl
length-spread (shard ∷ shards) rest = ap suc (length-spread shards (drop (length shard) rest))

pub take-spread :
    (k : ℕ) (shards : List (List ℕ)) (rest : List ℕ)
    → take k (spread shards rest) ≡ spread (take k shards) rest
unfolding take spread
take-spread zero shards rest = refl
take-spread (suc k) [] rest = refl
take-spread (suc k) (shard ∷ shards) rest =
    ap (◌∷◌ (copy shard rest)) (take-spread k shards (drop (length shard) rest))

-- The loop of `Marshal` spreads what is left of the data, if that fits.
pub fill_shards-eq :
    (size : ℕ) (src : List ℕ) (copied : ℕ) (shards : List (List ℕ))
    → size ≡ length src
    → size ≤ copied + length (concat shards)
    → fill_shards size src copied shards ≡ some (spread shards (drop copied src))
unfolding fill_shards spread
fill_shards-eq size src copied [] e h = rw (ltb-false copied size (omega arith))
fill_shards-eq size src copied (shard ∷ shards) e h =
    let part = drop copied src in
    let next = copied + min (length shard) (length part) in
    elim (Bool-cases (ltb copied size)) [
      | inl more ↦ rw (
        more,
        fill_shards-eq size src next shards e (
            omega (
              arith,
              ltb→lt _ _ more,
              length-append shard (concat shards),
              length-drop copied src,
            )),
        drop-add copied (min (length shard) (length part)) src,
        drop-min (length shard) part,
      )
      | inr done ↦
          rw (done, drop_all copied src (ground arith))
            (sym (ap some (spread-nil (shard ∷ shards))))
    ]

-- What was spread stands at the front of the shards.
pub take-spread_self :
    (shards : List (List ℕ)) (rest : List ℕ)
    → length rest ≤ length (concat shards)
    → take (length rest) (concat (spread shards rest)) ≡ rest
unfolding spread
take-spread_self [] [] h = unfold take in refl
take-spread_self [] (x ∷ rest) h = absurd (omega arith)
take-spread_self (shard ∷ shards) rest h = elim (dec_le (length rest) (length shard)) [
  | yes fits ↦ rw (
    copied,
    take_all (length shard) rest fits,
    take-append (length rest) rest (drop (length rest) shard ++ concat behind) refl,
  )
  | no long ↦
      rw
        (
          copied,
          drop_all (length rest) shard (omega arith),
          take-append_split (length rest) front (concat behind),
          take_all (length rest) front short,
        )
        (ap (◌++◌ front) (
            ap (λ k. take k (concat behind)) tail_len
            ∙ take-spread_self shards tail (
                omega
                  (arith, length-append shard (concat shards), length-drop (length shard) rest)))
          ∙ take-append-drop (length shard) rest)
]
  where
    front : List ℕ
    front = take (length shard) rest

    tail : List ℕ
    tail = drop (length shard) rest

    behind : List (List ℕ)
    behind = spread shards tail

    short : length front ≤ length rest
    short = omega (arith, length-take (length shard) rest)

    tail_len : length rest - length front ≡ length tail
    tail_len = omega (arith, length-take (length shard) rest, length-drop (length shard) rest)

    copied : copy shard rest ++ concat behind ≡ front ++ (drop (length rest) shard ++ concat behind)
    copied = unfold copy in append_assoc front (drop (length rest) shard) (concat behind)

-- With nothing left to read the loop ends.
gather_done :
    (shards : List (List ℕ)) (pre : List ℕ) (size : ℕ)
    → size ≡ length pre
    → gather size (pre ++ []) (length pre) shards ≡ (true, pre ++ take 0 (concat shards))
unfolding gather take
gather_done [] pre size e =
    rw (e, ltb-false (length pre) (length pre) (omega arith), ==_refl (length pre)) refl
gather_done (shard ∷ shards) pre size e =
    rw (e, ltb-false (length pre) (length pre) (omega arith), ==_refl (length pre)) refl

-- One round: a shard is copied behind what is there, and the position moves to the end of the copy.
write_behind :
    (pre left shard : List ℕ)
    → copy_at (pre ++ left) (length pre) (length (pre ++ left)) shard
      ≡ (pre ++ take (length left) shard) ++ drop (length shard) left
write_behind pre left shard =
    copy_at_end pre left shard (length pre) refl
    ∙ unfold copy in sym (append_assoc pre (take (length left) shard) (drop (length shard) left))

advance :
    (pre left shard : List ℕ)
    → length pre + min (length (pre ++ left) - length pre) (length shard)
      ≡ length (pre ++ take (length left) shard)
advance pre left shard = omega (
  arith,
  length-append pre left,
  length-append pre (take (length left) shard),
  length-take (length left) shard,
)

-- The loop of `Unmarshal` reads the front of the shards into what is left of the buffer.
pub gather-eq :
    (shards : List (List ℕ)) (pre left : List ℕ) (size : ℕ)
    → size ≡ length pre + length left
    → length left ≤ length (concat shards)
    → gather size (pre ++ left) (length pre) shards
      ≡ (true, pre ++ take (length left) (concat shards))
unfolding gather
gather-eq shards pre [] size e h = gather_done shards pre size (omega arith)
gather-eq [] pre (x ∷ left) size e h = absurd (omega arith)
gather-eq (shard ∷ shards) pre (x ∷ left) size e h =
    let n = length (x ∷ left) in
    rw
      (
        lt→ltb (length pre) size (omega arith),
        write_behind pre (x ∷ left) shard,
        advance pre (x ∷ left) shard,
        gather-eq shards (pre ++ take n shard) (drop (length shard) (x ∷ left)) size
            (omega (
              arith,
              length-append pre (take n shard),
              length-take n shard,
              length-drop (length shard) (x ∷ left),
            ))
            (omega
              (arith, length-append shard (concat shards), length-drop (length shard) (x ∷ left))),
        length-drop (length shard) (x ∷ left),
        append_assoc pre (take n shard) (take (n - length shard) (concat shards)),
        take-append_split n shard (concat shards),
      )
      refl

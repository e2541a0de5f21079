-- ===== src/Tests/Unit.antt =====
-- Blocks of two bytes from a stream in pieces, and a block of three that is written in pieces.
use fec.Prelude.{ℕ, ◌≡◌, refl, true, false, List, [], ◌∷◌, ◌++◌, arith, drop, map, replicate}
use fec.Io.{Got, got, wrote, write_error}
use fec.Unit.{Reader, read_all, returns, fails, Writer, write}
use fec.Unit.Repeats.{IsComplete, write-repeats}
use fec.Unit.Blocks.{blocks, read_all-blocks}

abbrev reader : Reader
reader = record { buf = 1 ∷ []; size = 2; complete = true; adaptive = false }

abbrev pieces : List Got
pieces = got (2 ∷ 3 ∷ []) ∷ got [] ∷ got (4 ∷ 5 ∷ 6 ∷ []) ∷ got (7 ∷ []) ∷ []

read_all-blocks_example : read_all 3 reader pieces ≡ blocks 2 3 (1 ∷ 2 ∷ 3 ∷ 4 ∷ 5 ∷ 6 ∷ 7 ∷ [])
read_all-blocks_example = read_all-blocks 3 reader pieces refl tt (omega arith)

abbrev three : List ℕ
three = 4 ∷ 5 ∷ 6 ∷ []

abbrev writer : Writer
writer = record { size = 3; fixed = true; complete = true }

writer-IsComplete : IsComplete writer three
writer-IsComplete = record { complete = refl; sized = refl }

write-repeats_example :
    (write writer three (wrote 1 ∷ (map wrote (0 ∷ 1 ∷ []) ++ (wrote 1 ∷ [])))
      ≡ (returns 3, three ∷ replicate 3 (drop 1 three)))
    × (write writer three (wrote 1 ∷ (map wrote (0 ∷ 1 ∷ []) ++ (write_error 7 ∷ [])))
        ≡ (fails 2, three ∷ replicate 3 (drop 1 three)))
write-repeats_example =
    write-repeats writer three 1 1 7 (0 ∷ 1 ∷ []) [] writer-IsComplete (omega arith) (omega arith)

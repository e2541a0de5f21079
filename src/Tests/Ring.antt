-- ===== src/Tests/Ring.antt =====
-- A ring of three places.
use fec.Prelude.{ℕ, ◌≡◌, true, false, List, [], ◌∷◌, arith}
use fec.Buffer.Ring.{Ring, Op, reads, writes, new_ring, run}
use fec.Buffer.Queue
use fec.Buffer.Refine.{Represents, new_ring-Represents, run_refines}

abbrev ring : Ring ℕ
ring = record { size = 3; first = 0; last = 0; buf = 0 ∷ 0 ∷ 0 ∷ [] }

-- Four items, the last of which pushes the first out, and two reads.
abbrev ops : List (Op ℕ)
ops = writes true 5 ∷ writes true 6 ∷ writes false 7 ∷ writes true 8 ∷ reads false ∷ reads true ∷ []

ring-Represents : Represents ring []
unfolding new_ring
ring-Represents = new_ring-Represents (0 ∷ 0 ∷ 0 ∷ []) (omega arith) (omega arith)

run_refines_example : run ring ops ≡ Queue.run 3 [] ops
run_refines_example = run_refines ops ring [] ring-Represents (omega arith)

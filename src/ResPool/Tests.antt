-- ===== src/ResPool/Tests.antt =====
-- The resource pool of src/micbench-io.c at work: two cells, which malloc(3) puts at 1 and 2.
use micbench.Base.{ℕ, ◌+◌, ◌<◌, ◌≡◌, none, some, List, [], ◌∷◌, length, arith, ok}
use micbench.Base.Int.{pos, negsuc}
use micbench.ResPool.{Ptr, Cells, ResPool, make, destroy}
use micbench.ResPool.Ring.{Holds}
use micbench.ResPool.Make.{Distinct, NoneFails, make-Holds}
use micbench.ResPool.Destroy.{destroy-frees}
use micbench.ResPool.Fifo.{
  pushes, pops, status, element, run, run_queue, take_oldest, put_newest, run_refines,
}

abbrev addresses : ℕ → Ptr
addresses i = i + 1

addresses-NoneFails : NoneFails addresses
addresses-NoneFails i e = absurd (omega arith)

addresses-Distinct : Distinct addresses
addresses-Distinct i j lt e = absurd (omega arith)

-- an empty pool for two elements
two : (pool : ResPool) × (make addresses 2 ≡ ok pool) × Holds pool 2 []
two = make-Holds addresses addresses-NoneFails addresses-Distinct 2 (omega arith)

run_refines_example :
    run two.0
      (pushes 7 ∷ (pushes 8 ∷ (pushes 9 ∷ (pops ∷ (pushes 9 ∷ (pops ∷ (pops ∷ (pops ∷ []))))))))
    ≡ ok (
        status (pos 0)
        ∷ (status (pos 0)
            ∷ (status (negsuc 0)
                ∷ (element 7 ∷ (status (pos 0) ∷ (element 8 ∷ (element 9 ∷ (element 0 ∷ []))))))))
unfolding run_queue take_oldest put_newest
run_refines_example =
    run_refines
      (pushes 7 ∷ (pushes 8 ∷ (pushes 9 ∷ (pops ∷ (pushes 9 ∷ (pops ∷ (pops ∷ (pops ∷ []))))))))
      two.2

destroy-frees_example :
    (h : Cells) × (freed : List Ptr) × (destroy 2 two.0 ≡ some (ok (h, freed)))
    × (length freed ≡ 2)
    × ((j : ℕ) → j < 2 → h (two.2.spot (two.2.gate + j)) ≡ none)
destroy-frees_example = destroy-frees 2 two.2 (omega arith)

-- ===== src/Lock/Threads/Tests.antt =====
-- Two threads of src/micbench-lock.c with one round each.
use micbench.Base.{ℕ, ◌+◌, ◌*◌, ◌≡◌, refl, some, [], ◌∷◌}
use micbench.Lock.Threads.{
  System, ready, holding, some_starting, advance, move, Run, here, later, start,
}
use micbench.Lock.Threads.Invariant.{mutual_exclusion}
use micbench.Lock.Threads.Progress.{AllFinished, threads_finish}

-- Both threads pass the barrier, and the second takes the lock.
second_holds : System
second_holds = record { lock = some 1; pcs = ready 0 ∷ holding 0 ∷ [] }

second_first : Run 1 5 (start 2) second_holds
unfolding move advance some_starting second_holds
second_first = later 0 refl (later 1 refl (later 0 refl (later 1 refl (later 1 refl (here _)))))

mutual_exclusion_example : ◌≡◌ {A = ℕ} 1 1
unfolding second_holds
mutual_exclusion_example = mutual_exclusion 1 2 5 second_holds second_first 1 1 0 0 refl refl

threads_finish_example :
    (k : ℕ) × (s' : System) × Run 1 k second_holds s' × AllFinished s' × (5 + k ≡ 2 * (3 * 1 + 3))
threads_finish_example = threads_finish 1 2 5 second_holds second_first

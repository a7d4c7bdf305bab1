-- ===== src/Proto/Threads/Tests.antt =====
-- Two threads of src/micbench-proto.c with one round each.
use micbench.Base.{ℕ, refl, some, [], ◌∷◌}
use micbench.Lock.Threads as Lock
use micbench.Proto.Threads.{System, ready, holding, advance, move, Run, here, later, start}
use micbench.Proto.Threads.Refines.{as_lock, Run-refines}

-- The first thread has released the lock, and the second has taken it.
handed_on : System
handed_on = record { slock = some 1; pcs = ready 1 ∷ holding 0 ∷ [] }

first_then_second : Run 1 3 (start 2) handed_on
unfolding move advance handed_on
first_then_second = later 0 refl (later 0 refl (later 1 refl (here _)))

Run-refines_example : (m : ℕ) × Lock.Run 1 m (Lock.start 2) (as_lock handed_on)
Run-refines_example = Run-refines 1 2 3 handed_on first_then_second

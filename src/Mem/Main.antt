-- ===== src/Mem/Main.antt =====
-- The threads of src/micbench-mem.c and the summary of its `main`. Each thread has an area of its own,
-- as with `-L`, or only reads it, as with the sequential pattern; so a thread's run does not depend on
-- the others. (With the random pattern and one area for all, the threads race for the ring.)
pub mod Summary
pub mod Sums
pub mod Program
mod Tests
use micbench.Base.{
  ℕ, ◌+◌, ◌^◌, ◌%◌, Bool, Option, none, some, List, [], ◌∷◌, if◌then◌else◌, Outcome, ok,
  resume_loop,
}
use micbench.Base.Int.{ℤ, pos, ◌+ℤ◌, ◌*ℤ◌}
use micbench.Rand.{Machine}
use micbench.Mem.Args.{MemOption}
use micbench.Mem.Lines.{Longs}
use micbench.Mem.Stress.{InnerLoop, Clocks, Stress, stress_seq}
use micbench.Mem.Chase.{stress_rand}

-- The inner loops that are generated, and the fuel for the loops of a thread.
pub record Build : Type 0 where
  pub short : InnerLoop
  pub long : InnerLoop
  pub num_ops_rand : ℕ
  pub area_fuel : ℕ
  pub fuel : ℕ

-- What a thread meets: the clocks, the seed, and its working area as it was allocated.
pub record Worker (m : Machine) : Type 0 where
  pub clocks : Clocks
  pub seed : m.Seed
  pub working_area : Longs

-- What `main` sums up over the threads.
pub record Totals : Type 0 where
  pub ops : ℕ
  pub clk : ℕ
  pub wallclocktime : ℤ

-- The loop of `main` over the counters.
pub add_up : List Stress → Totals → Totals
add_up [] t = t
add_up (s ∷ ss) t = add_up ss (record {
  ops = (t.ops + s.ops) % 2 ^ 64;
  clk = (t.clk + s.clk) % 2 ^ 64;
  wallclocktime = t.wallclocktime +ℤ s.wallclocktime;
})

-- `working_size` is `option.size`.
module _ (m : Machine) (build : Build) (opt : MemOption) (working_size : ℕ) where
  open build use {short, long, num_ops_rand, area_fuel, fuel}

  -- `thread_handler`
  pub thread_handler : Worker m → Option (Outcome Stress)
  thread_handler w =
      if opt.rand
      then stress_rand num_ops_rand working_size m opt.timeout w.clocks area_fuel fuel w.seed
          w.working_area
      else stress_seq short long working_size (opt.timeout *ℤ pos 1000000) w.clocks area_fuel fuel

  -- The threads that `main` creates and joins.
  pub run_threads : List (Worker m) → Option (Outcome (List Stress))
  run_threads [] = some (ok [])
  run_threads (w ∷ ws) =
      let rest = run_threads ws in
      resume_loop (thread_handler w) λ s. resume_loop rest λ ss. some (ok (s ∷ ss))

  -- `main` from the threads on to the sums.
  pub summary : List (Worker m) → Option (Outcome Totals)
  summary ws =
      resume_loop (run_threads ws)
        λ ss. some (ok (add_up ss (record { ops = 0; clk = 0; wallclocktime = pos 0 })))

-- ===== src/Mem/Chase.antt =====
-- `do_memory_stress_rand` of src/micbench-mem.c as a whole: it arranges the ring, checks it, goes round
-- it once, and then follows its pointers until the timeout. The inner loop is generated when the
-- program is built: of its code the model takes that a run of it follows `num_ops` pointers.
pub mod Laps
use micbench.Base.{
  ℕ, zero, suc, ◌+◌, ◌*◌, ◌-◌, ◌/◌, ◌%◌, ◌^◌, Option, none, some, List, [], ◌∷◌, ◌++◌, ltb,
  if◌then◌else◌, Outcome, ok, ◌>>=◌, resume, resume_loop,
}
use micbench.Base.Int.{ℤ, ltb_ℤ}
use micbench.Rand.{Machine}
use micbench.Clock.{seconds}
use micbench.Mem.Lines.{Longs, load, lap, arrange, check_ring}
use micbench.Mem.Stress.{Clocks, Stress, fresh}

-- `n` loads, each through the pointer that the one before has read, and the longs that they read.
pub chase : (size n : ℕ) → Longs → (ptr : ℕ) → Outcome (List ℕ)
chase size zero h ptr = ok []
chase size (suc n) h ptr = do ptr' ← load size h ptr; ps ← chase size n h ptr'; ok (ptr ∷ ps)

module _ (num_ops : ℕ) (working_size : ℕ) where
  -- A round between two looks at the clock: from the first line on, 1024 runs of the inner loop.
  pub chase_round : Clocks → (i : ℕ) → Longs → Stress → Outcome Stress
  chase_round clocks i h s = do
    ps ← chase (working_size / 8) (1024 * num_ops) h 0
    ok (record s {
      ops = (s.ops + 1024 * num_ops) % 2 ^ 64;
      clk = (s.clk + (clocks.t1 i + 2 ^ 64 - clocks.t0 i)) % 2 ^ 64;
      touched = s.touched ++ ps;
    })

  -- The loop until the timeout, in seconds, at the look `i`.
  pub chase_rounds :
      (timeout : ℤ) → Clocks → Longs → (fuel i : ℕ) → Stress → Option (Outcome Stress)
  chase_rounds timeout clocks h zero i s = none
  chase_rounds timeout clocks h (suc fuel) i s =
      let more = resume (chase_round clocks i h s) (chase_rounds timeout clocks h fuel (i + 1)) in
      if ltb_ℤ (clocks.elapsed i) (seconds timeout)
      then more
      else some (ok (record s { wallclocktime = clocks.elapsed i }))

  -- `do_memory_stress_rand`
  pub stress_rand :
      (m : Machine) (timeout : ℤ)
      → Clocks
      → (ring_fuel fuel : ℕ) → m.Seed
      → Longs
      → Option (Outcome Stress)
  stress_rand m timeout clocks ring_fuel fuel rand h =
      resume_loop (arrange m working_size ring_fuel rand h) λ h'.
        resume_loop (check_ring (working_size / 8) (working_size / 64) ring_fuel h') λ counter.
          resume_loop (lap (working_size / 8) ring_fuel h')
            λ lines. chase_rounds timeout clocks h' fuel 0 fresh

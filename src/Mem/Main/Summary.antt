-- ===== src/Mem/Main/Summary.antt =====
-- The sums of `main` after runs that the clocks end.
use micbench.Base.{
  ℕ, ◌+◌, ◌*◌, ◌%◌, ◌^◌, ◌≤◌, ◌<◌, ◌≡◌, refl, true, false, some, List, [], ◌∷◌, length, ltb,
  if◌then◌else◌, ok, arith, ap, ◌∙◌,
}
use micbench.Base.Int.{ℤ, pos, ◌+ℤ◌}
use micbench.Rand.{Machine}
use micbench.Rand.Below.{DrawsBelow}
use micbench.Clock.{seconds, Expires}
use micbench.Mem.Args.{MemOption}
use micbench.Mem.Stress.{Stress, iterations}
use micbench.Mem.Stress.Counts.{stress_seq-counts}
use micbench.Mem.Chase.Laps.{stress_rand-counts}
use micbench.Mem.Main.{Build, Worker, Totals, add_up, thread_handler, run_threads, summary}

-- The clocks of the threads reach it at the looks `ks`, within the fuel.
pub data Expiring {m : Machine} (timeout : ℤ) (fuel : ℕ) : List (Worker m) → List ℕ → Type 0 where
  no_worker : Expiring timeout fuel [] []
  next_worker :
      {w : Worker m} {ws : List (Worker m)} {k : ℕ} {ks : List ℕ}
      → Expires timeout w.clocks.elapsed k
      → k < fuel
      → Expiring timeout fuel ws ks
      → Expiring timeout fuel (w ∷ ws) (k ∷ ks)

pub total : List ℕ → ℕ
total [] = 0
total (k ∷ ks) = k + total ks

abbrev ops_of : List Stress → ℕ
ops_of [] = 0
ops_of (s ∷ ss) = s.ops + ops_of ss

add_up-ops :
    (ss : List Stress) (t : Totals)
    → t.ops < 2 ^ 64
    → (add_up ss t).ops ≡ (t.ops + ops_of ss) % 2 ^ 64
unfolding add_up
add_up-ops [] t h = omega arith
add_up-ops (s ∷ ss) t h = omega (
  arith,
  add_up-ops ss
      (record {
        ops = (t.ops + s.ops) % 2 ^ 64;
        clk = (t.clk + s.clk) % 2 ^ 64;
        wallclocktime = t.wallclocktime +ℤ s.wallclocktime;
      })
      (omega arith),
)

-- The runs of threads that each come to `per` operations for every look that finds time left.
module _ (m : Machine) (build : Build) (opt : MemOption) (working_size per : ℕ)
    (each : (w : Worker m) (k : ℕ)
      → Expires opt.timeout w.clocks.elapsed k
      → k < build.fuel
      → (s : Stress) × (thread_handler m build opt working_size w ≡ some (ok s))
        × (s.ops ≡ k * per % 2 ^ 64)) where
  run_threads-ops :
      (ws : List (Worker m)) (ks : List ℕ)
      → Expiring opt.timeout build.fuel ws ks
      → (ss : List Stress) × (run_threads m build opt working_size ws ≡ some (ok ss))
        × (ops_of ss % 2 ^ 64 ≡ total ks * per % 2 ^ 64)
  unfolding run_threads total
  run_threads-ops [] [] no_worker = ([], refl, omega arith)
  run_threads-ops [] (k ∷ ks) ends = elim ends [ ]
  run_threads-ops (w ∷ ws) [] ends = elim ends [ ]
  run_threads-ops (w ∷ ws) (k ∷ ks) (next_worker ends enough more) =
      let (s, run, ops) = each w k ends enough in
      let (ss, rest, sum) = run_threads-ops ws ks more in
      let spread : (k + total ks) * per ≡ k * per + total ks * per = grind arith in
      (s ∷ ss, rw (run, rest) refl, omega (arith, ops, sum, spread))

  summary-ops :
      (ws : List (Worker m)) (ks : List ℕ)
      → Expiring opt.timeout build.fuel ws ks
      → (t : Totals) × (summary m build opt working_size ws ≡ some (ok t))
        × (t.ops ≡ total ks * per % 2 ^ 64)
  unfolding summary
  summary-ops ws ks ends =
      let (ss, run, sum) = run_threads-ops ws ks ends in
      let none_yet : Totals = record { ops = 0; clk = 0; wallclocktime = pos 0 } in
      (add_up ss none_yet, rw run refl, omega (arith, add_up-ops ss none_yet (omega arith), sum))

-- With the sequential pattern, on a size that is a whole number of longs and of regions, every thread
-- ends as soon as its clock reaches the timeout, and the sum of `main` is the operations of one pass
-- over the area, times the passes of all the threads, modulo 2 ^ 64.
pub summary-sequential :
    (m : Machine) (build : Build) (opt : MemOption) (size n : ℕ) (ws : List (Worker m))
    (ks : List ℕ)
    → let inner = if ltb size 1024 then build.short else build.long in
      opt.rand ≡ false
      → 0 < size
      → 0 < inner.region_size
      → size ≡ n * inner.region_size
      → size % 8 ≡ 0
      → n < build.area_fuel
      → Expiring opt.timeout build.fuel ws ks
      → (t : Totals) × (summary m build opt size ws ≡ some (ok t))
        × (t.ops ≡ total ks * (iterations size * (inner.num_ops * n)) % 2 ^ 64)
unfolding thread_handler
summary-sequential m build opt size n ws ks sequential some_size some_region whole longs af ends =
    let inner = if ltb size 1024 then build.short else build.long in
    summary-ops m build opt size (iterations size * (inner.num_ops * n))
      (λ w k e enough.
        let (s, run, counted, len) =
          stress_seq-counts build.short build.long size n (seconds opt.timeout) w.clocks
            build.area_fuel build.fuel k some_size some_region whole longs af enough e.before
            e.at in
        let e' : inner.num_ops * length s.touched ≡ k * (iterations size * (inner.num_ops * n)) =
          ap (λ x. inner.num_ops * x) len ∙ grind arith in
        (s, rw sequential run, counted ∙ ap (λ x. x % 2 ^ 64) e'))
      ws ks ends

-- With the random pattern, on areas of their own of two cache lines or more, a whole number of them,
-- every thread ends as soon as its clock reaches the timeout, and the sum of `main` is the loads of all
-- the threads, modulo 2 ^ 64.
pub summary-random :
    (m : Machine)
    → DrawsBelow m
    → (build : Build) (opt : MemOption) (n : ℕ) (ws : List (Worker m)) (ks : List ℕ)
    → opt.rand ≡ true
    → 2 ≤ n
    → n ≤ 2 ^ 53
    → n < build.area_fuel
    → Expiring opt.timeout build.fuel ws ks
    → (t : Totals) × (summary m build opt (n * 64) ws ≡ some (ok t))
      × (t.ops ≡ total ks * (1024 * build.num_ops_rand) % 2 ^ 64)
unfolding thread_handler
summary-random m law build opt n ws ks random two small af ends =
    summary-ops m build opt (n * 64) (1024 * build.num_ops_rand)
      (λ w k e enough.
        let (s, run, counted, len, inside) =
          stress_rand-counts m law build.num_ops_rand n opt.timeout w.clocks build.area_fuel
            build.fuel k w.seed w.working_area two small af enough e.before e.at in
        (s, rw random run, counted ∙ ap (λ x. x % 2 ^ 64) len))
      ws ks ends

-- ===== src/Mem/Main/Sums.antt =====
-- The clocks of all the threads in the sums of `main`, with the sequential pattern.
use micbench.Base.{
  ℕ, ◌+◌, ◌%◌, ◌^◌, ◌<◌, ◌≡◌, refl, false, some, List, [], ◌∷◌, ok, arith, resume_loop-eq-ok,
  ok-injective, some-injective, subst, ap, ◌∙◌,
}
use micbench.Base.Int.{ℤ, ◌+ℤ◌}
use micbench.Rand.{Machine}
use micbench.Clock.{seconds, Expires}
use micbench.Mem.Args.{MemOption}
use micbench.Mem.Stress.{Stress}
use micbench.Mem.Stress.Ticks.{ticks, stress_seq-ticks}
use micbench.Mem.Main.{Build, Worker, Totals, add_up, thread_handler, run_threads}
use micbench.Mem.Main.Summary.{Expiring, no_worker, next_worker}

-- The ticks of the rounds of all threads, the thread `w` with the rounds `k`.
pub total_ticks : {m : Machine} → List (Worker m) → List ℕ → ℕ
total_ticks [] ks = 0
total_ticks (w ∷ ws) [] = 0
total_ticks (w ∷ ws) (k ∷ ks) = ticks w.clocks k 0 + total_ticks ws ks

-- The times at which the threads have found the timeout reached, added to `sum`.
pub total_elapsed : {m : Machine} → (sum : ℤ) → List (Worker m) → List ℕ → ℤ
total_elapsed sum [] ks = sum
total_elapsed sum (w ∷ ws) [] = sum
total_elapsed sum (w ∷ ws) (k ∷ ks) = total_elapsed (sum +ℤ w.clocks.elapsed k) ws ks

module _ (m : Machine) (build : Build) (opt : MemOption) (size : ℕ) (sequential : opt.rand ≡ false)
    (some_size : 0 < size) where
  thread_handler-ticks :
      (w : Worker m) (k : ℕ) (s : Stress)
      → Expires opt.timeout w.clocks.elapsed k
      → thread_handler m build opt size w ≡ some (ok s)
      → (s.clk ≡ ticks w.clocks k 0 % 2 ^ 64) × (s.wallclocktime ≡ w.clocks.elapsed k)
  unfolding thread_handler
  thread_handler-ticks w k s e run =
      stress_seq-ticks build.short build.long size (seconds opt.timeout) w.clocks build.area_fuel
        build.fuel k s some_size e.before e.at (rw sequential at run)

  -- The sums of `main` begin with `t`.
  pub add_up-ticks :
      (ws : List (Worker m)) (ks : List ℕ) (ss : List Stress) (t : Totals)
      → Expiring opt.timeout build.fuel ws ks
      → run_threads m build opt size ws ≡ some (ok ss)
      → t.clk < 2 ^ 64
      → ((add_up ss t).clk ≡ (t.clk + total_ticks ws ks) % 2 ^ 64)
        × ((add_up ss t).wallclocktime ≡ total_elapsed t.wallclocktime ws ks)
  unfolding run_threads add_up total_ticks total_elapsed
  add_up-ticks [] [] ss t no_worker run small =
      subst
        (λ xs.
          ((add_up xs t).clk ≡ (t.clk + 0) % 2 ^ 64)
          × ((add_up xs t).wallclocktime ≡ t.wallclocktime))
        (ok-injective (some-injective run)) (omega arith, refl)
  add_up-ticks [] (k ∷ ks) ss t ends run small = elim ends [ ]
  add_up-ticks (w ∷ ws) [] ss t ends run small = elim ends [ ]
  add_up-ticks (w ∷ ws) (k ∷ ks) ss t (next_worker ends enough more) run small =
      let (s, one, rest) = resume_loop-eq-ok (thread_handler m build opt size w) _ run in
      let (ss', others, e) = resume_loop-eq-ok (run_threads m build opt size ws) _ rest in
      let (clk, wall) = thread_handler-ticks w k s ends one in
      let t₁ : Totals = record {
        ops = (t.ops + s.ops) % 2 ^ 64;
        clk = (t.clk + s.clk) % 2 ^ 64;
        wallclocktime = t.wallclocktime +ℤ s.wallclocktime;
      } in
      let (clks, walls) = add_up-ticks ws ks ss' t₁ more others (omega arith) in
      subst
        (λ xs.
          ((add_up xs t).clk ≡ (t.clk + (ticks w.clocks k 0 + total_ticks ws ks)) % 2 ^ 64)
          × ((add_up xs t).wallclocktime
              ≡ total_elapsed (t.wallclocktime +ℤ w.clocks.elapsed k) ws ks))
        (ok-injective (some-injective e))
        (
          omega (arith, clks, clk),
          walls ∙ ap (λ x. total_elapsed (t.wallclocktime +ℤ x) ws ks) wall,
        )

-- ===== src/Lock/Report/Tests.antt =====
-- What src/micbench-lock.c prints for `-m 2 -a 1:1010:`, a second thread that keeps to the processors 0 and
-- 2, with integers in place of doubles.
use micbench.Base.{◌≡◌, refl, some, [], ◌∷◌, ok, arith}
use micbench.Base.Int.{ℤ, pos}
use micbench.Base.Text.{Text, codes, show_int}
use micbench.Base.Table.{read_table, show_int-without}
use micbench.Affinity.Tests.{two_processors_shown}
use micbench.Affinity.Arguments.{thread_affinity, thread_affinities}
use micbench.Lock.Args.Tests.{bound_thread, affinities, second_bound, bound_thread_run}
use micbench.Lock.Report.{
  Quotient, counters_of, clocks_from, micbench_lock_main, affinity_str, affinity_strs,
  shown_affinities,
}
use micbench.Lock.Report.Table.{report_rows, micbench_lock_main-reports}

abbrev quotient : Quotient ℤ
quotient = record { ratio = λ clk ops. clk; fixed = show_int }

each : thread_affinities second_bound.affinities 2 0 ≡ ok affinities
unfolding thread_affinity thread_affinities
each = refl

shown :
    shown_affinities second_bound.affinities affinities ≡ ok (codes "none" ∷ (codes "1:0,2" ∷ []))
unfolding shown_affinities affinity_strs affinity_str
shown = rw (two_processors_shown (some (codes "1:1010:"))) refl

micbench_lock_main-reports_example :
    (text : Text) × (micbench_lock_main quotient (λ i. (pos i, pos 100)) bound_thread ≡ ok text)
    × (read_table text
        ≡ some (
            report_rows quotient second_bound
              (codes "none" ∷ (codes "1:0,2" ∷ []))
              (counters_of second_bound (clocks_from (λ i. (pos i, pos 100)) 2 0))))
micbench_lock_main-reports_example =
    micbench_lock_main-reports quotient (λ x. show_int-without 10 x (omega arith))
      (λ i. (pos i, pos 100)) bound_thread second_bound affinities
      (codes "none" ∷ (codes "1:0,2" ∷ [])) bound_thread_run each shown

-- ===== src/Lock/Report.antt =====
-- What `main` of src/micbench-lock.c prints: the options, the affinities of the threads, and what each
-- thread has counted. The text of a double is a parameter.
pub mod Table
mod Tests
use micbench.Base.{ℕ, zero, suc, ◌+◌, Option, none, some, List, [], ◌∷◌, map, Outcome, ok, ◌>>=◌}
use micbench.Base.Int.{ℤ, pos, ◌*ℤ◌, ◌-ℤ◌, pos_part, wrap64}
use micbench.Base.Text.{Text, codes, show_nat, show_int}
use micbench.Base.Table.{join_texts}
use micbench.Affinity.{Affinity, affinity_to_string}
use micbench.Affinity.Arguments.{Opt, thread_affinities}
use micbench.Lock.Args.{LockOption, parse_args, TestMode, test_spinlock, test_mutex, test_mfence}

-- `(double) clk / (double) ops`, and `%lf`
pub record Quotient (D : Type 0) : Type 0 where
  pub ratio : (clk ops : ℤ) → D
  pub fixed : D → Text

-- `pc.ops` behind the job: a run of the generated code of the mode mfence counts as 128.
-- The product is a long, as is the difference of the clocks below.
pub ops_of : TestMode → (count : ℤ) → ℤ
ops_of test_spinlock count = count
ops_of test_mutex count = count
ops_of test_mfence count = wrap64 (count *ℤ pos 128)

-- `perf_counter_t`, without the time that is never set.
pub record Counter : Type 0 where
  pub ops : ℤ
  pub clk : ℤ

-- What `thread_handler` leaves, between two looks at the clock.
counter_of : LockOption → (t0 t1 : ℤ) → Counter
counter_of opt t0 t1 = record { ops = ops_of opt.mode opt.count; clk = wrap64 (t1 -ℤ t0) }

-- The counters of the threads.
pub counters_of : LockOption → List (ℤ × ℤ) → List Counter
counters_of opt clocks = map (λ t. counter_of opt t.0 t.1) clocks

pub mode_str : TestMode → Text
mode_str test_spinlock = codes "spinlock"
mode_str test_mutex = codes "mutex"
mode_str test_mfence = codes "unknown"

-- The affinity of a thread, or `none`.
pub affinity_str : Option Affinity → Outcome Text
affinity_str none = ok (codes "none")
affinity_str (some aff) = affinity_to_string aff

-- Those of all the threads.
pub affinity_strs : List (Option Affinity) → Outcome (List Text)
affinity_strs [] = ok []
affinity_strs (aff ∷ affs) = do
  aff_str ← affinity_str aff
  rest ← affinity_strs affs
  ok (aff_str ∷ rest)

-- They are made if there is an array of affinities.
pub shown_affinities :
    Option (List (Option Affinity)) → List (Option Affinity) → Outcome (List Text)
shown_affinities none affs = ok []
shown_affinities (some array) affs = affinity_strs affs

-- The loop over the affinities from the thread `i` on, in front of other texts.
pub affinity_pieces : (i : ℕ) → (aff_strs : List Text) → List Text → List Text
affinity_pieces i [] rest = rest
affinity_pieces i (aff_str ∷ aff_strs) rest =
    codes "affinity_"
    ∷ (show_nat i ∷ (codes "\t" ∷ (aff_str ∷ (codes "\n" ∷ affinity_pieces (i + 1) aff_strs rest))))

module _ {D : Type 0} (q : Quotient D) (opt : LockOption) where
  -- The loop over the counters from the thread `i` on.
  pub counter_pieces : (i : ℕ) → List Counter → List Text
  counter_pieces i [] = []
  counter_pieces i (c ∷ cs) =
      codes "clk_"
      ∷ (show_nat i
          ∷ (codes "\t"
              ∷ (show_int c.clk
                  ∷ (codes "\nops_"
                      ∷ (show_nat i
                          ∷ (codes "\t"
                              ∷ (show_int c.ops
                                  ∷ (codes "\nclk_per_ops_"
                                      ∷ (show_nat i
                                          ∷ (codes "\t"
                                              ∷ (q.fixed (q.ratio c.clk c.ops)
                                                  ∷ (codes "\n"
                                                      ∷ counter_pieces (i + 1) cs))))))))))))

  pub params_pieces : List Text → List Text
  params_pieces rest =
      codes "multiplicity\t"
      ∷ (show_int opt.multi
          ∷ (codes "\nmode\t"
              ∷ (mode_str opt.mode
                  ∷ (codes "\ncount\t"
                      ∷ (show_int opt.count
                          ∷ (codes "\ncritical_job_size\t"
                              ∷ (show_int opt.critical_job_size
                                  ∷ (codes "\nnoncritical_job_size\t"
                                      ∷ (show_int opt.noncritical_job_size
                                          ∷ (codes "\n" ∷ rest))))))))))

  -- `main` behind the threads, with the two looks at the clock that each of them has taken.
  pub lock_output : List (ℤ × ℤ) → Outcome Text
  lock_output clocks = do
    affs ← thread_affinities opt.affinities (pos_part opt.multi) 0
    aff_strs ← shown_affinities opt.affinities affs
    ok (
        join_texts
          (params_pieces (affinity_pieces 0 aff_strs (counter_pieces 0 (counters_of opt clocks)))))

-- What the threads have found at the clock, `n` of them from the thread `i` on.
unfoldable pub clocks_from : (ℕ → ℤ × ℤ) → (n i : ℕ) → List (ℤ × ℤ)
clocks_from clock zero i = []
clocks_from clock (suc n) i = clock i ∷ clocks_from clock n (i + 1)

-- `main`: what it prints, when the threads have ended (`Lock.Threads.Progress`).
pub micbench_lock_main : {D : Type 0} → Quotient D → (ℕ → ℤ × ℤ) → List Opt → Outcome Text
micbench_lock_main q clock opts = do
  opt ← parse_args opts
  lock_output q opt (clocks_from clock (pos_part opt.multi) 0)

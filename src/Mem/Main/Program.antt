-- ===== src/Mem/Main/Program.antt =====
-- The whole of `main` of src/micbench-mem.c: from the arguments to what it prints and releases.
use micbench.Base.{
  ℕ, zero, suc, ◌+◌, ◌-◌, ◌*◌, ◌%◌, ◌^◌, ◌<◌, ◌≡◌, refl, Bool, true, false, Option, some, List, [],
  ◌∷◌, ltb, if◌then◌else◌, Outcome, ok, exit_failure, resume, resume_loop, resume_loop-eq-ok,
  ok-injective, some-injective, none, ap, ◌∙◌, arith,
}
use micbench.Base.Int.{ℤ, pos, negsuc, pos_part}
use micbench.Base.Text.{Text}
use micbench.Base.Table.{read_table}
use micbench.Affinity.Arguments.{Opt}
use micbench.Clock.{Timeval}
use micbench.Rand.{Machine}
use micbench.Mem.Args.{MemOption, parse_args}
use micbench.Mem.Areas.{Kernel, Areas, Held, Address, allocate, release}
use micbench.Mem.Areas.Release.{nothing, release-allocate}
use micbench.Mem.Stress.{Stress, mapped_size, iterations}
use micbench.Mem.Main.{Build, Worker, Totals, add_up, run_threads, summary}
use micbench.Mem.Main.Summary.{Expiring, total, summary-sequential}
use micbench.Mem.Main.Sums.{total_ticks, total_elapsed, add_up-ticks}
use micbench.Mem.Report.{Floats, Ended, mem_output}
use micbench.Mem.Report.Table.{summary_rows, OneLine, PathOk, mem_output-sequential}

-- What the process meets: the variable MICBENCH, open(2), mmap(2) and mbind(2), what each thread meets,
-- the clock before the threads and behind them, and the sizes of a page and of a stride.
pub record Environment (m : Machine) : Type 0 where
  pub has_micbench : Bool
  pub kernel : Kernel
  pub workers : ℕ → Worker m
  pub start_tv : Timeval
  pub end_tv : Timeval
  pub page_size : ℤ
  pub stride : ℕ

-- What is printed, and what is given to munmap(2) and close(2).
pub record Exit : Type 0 where
  pub printed : Text
  pub unmapped : List Address
  pub closed : List ℤ

-- A long as a size_t.
unfoldable pub as_size : ℤ → ℕ
as_size (pos n) = n
as_size (negsuc n) = 2 ^ 64 - 1 - n

-- `align`
unfoldable pub align_of : MemOption → (page_size : ℤ) → ℤ
align_of opt page_size = elim opt.hugetlbfile [ none ↦ page_size | some path ↦ opt.hugepage_size ]

-- What `n` threads meet, from the thread `i` on.
unfoldable pub workers_from : {m : Machine} → (ℕ → Worker m) → (n i : ℕ) → List (Worker m)
workers_from workers zero i = []
workers_from workers (suc n) i = workers i ∷ workers_from workers n (i + 1)

threads-run :
    (m : Machine) (build : Build) (opt : MemOption) (size : ℕ) (ws : List (Worker m)) (t : Totals)
    → summary m build opt size ws ≡ some (ok t)
    → (ss : List Stress) × (run_threads m build opt size ws ≡ some (ok ss))
      × (add_up ss (record { ops = 0; clk = 0; wallclocktime = pos 0 }) ≡ t)
unfolding summary
threads-run m build opt size ws t h =
    let (ss, run, rest) = resume_loop-eq-ok (run_threads m build opt size ws) _ h in
    (ss, run, ok-injective (some-injective rest))

module _ {D : Type 0} (m : Machine) (build : Build) (f : Floats D) (env : Environment m) where
  -- The sums of `main` behind the threads, with the clocks.
  pub ended : List Stress → Ended
  ended ss = record {
    totals = add_up ss (record { ops = 0; clk = 0; wallclocktime = pos 0 });
    start_tv = env.start_tv;
    end_tv = env.end_tv;
  }

  -- From the threads to the end.
  pub finish : MemOption → Areas → List Stress → Option (Outcome Exit)
  finish opt areas ss = resume (release opt areas) λ r. some (
      ok (record {
        printed = mem_output f opt env.page_size env.stride ss (ended ss);
        unmapped = r.0;
        closed = r.1;
      }))

  pub micbench_mem_main : List Opt → Option (Outcome Exit)
  micbench_mem_main opts =
      if env.has_micbench
      then (resume (parse_args opts) λ opt.
          resume (mapped_size (as_size opt.size) (as_size (align_of opt env.page_size))) λ mapped.
            resume (allocate opt env.kernel nothing) λ held.
              resume_loop
                (run_threads m build opt (pos_part opt.size)
                  (workers_from env.workers (pos_part opt.multi) 0))
                (finish opt held.0))
      else some exit_failure

  main-runs :
      (opts : List Opt) (opt : MemOption) (s : Areas) (h : Held) (mapped : ℕ) (ss : List Stress)
      → env.has_micbench ≡ true
      → parse_args opts ≡ ok opt
      → mapped_size (as_size opt.size) (as_size (align_of opt env.page_size)) ≡ ok mapped
      → allocate opt env.kernel nothing ≡ ok (s, h)
      → run_threads m build opt
          (pos_part opt.size)
          (workers_from env.workers (pos_part opt.multi) 0)
        ≡ some (ok ss)
      → micbench_mem_main opts
        ≡ some (
            ok (record {
              printed = mem_output f opt env.page_size env.stride ss (ended ss);
              unmapped = h.mapped;
              closed = h.opened;
            }))
  unfolding micbench_mem_main finish
  main-runs opts opt s h mapped ss has accepted rounded held run =
      rw (has, accepted, rounded, held, run, release-allocate opt env.kernel s h held) refl

  -- When the variable MICBENCH is set, `parse_args` accepts the options, they ask for the sequential
  -- pattern on a size that is a whole number of longs and of regions, the pages have a size, every file and area that is asked
  -- for is opened and mapped, the path of the file of huge pages has no newline, and the texts of doubles
  -- have neither newline nor tab, the program ends as soon as the clock of each thread reaches the
  -- timeout. What it prints, read as a table, gives its options and totals: the operations are those of
  -- one pass over the area times the passes of all the threads, and the clock ticks are those of all
  -- these passes, both modulo 2 ^ 64; the wall clock time is the sum of the times at which the threads
  -- have found the timeout reached; the ends of the run are the times that main has taken. And it unmaps
  -- and closes exactly what it has mapped and opened.
  pub micbench_mem_main-reports :
      (opts : List Opt) (opt : MemOption) (s : Areas) (h : Held) (mapped n : ℕ) (ks : List ℕ)
      → let size = pos_part opt.size in
        let inner = if ltb size 1024 then build.short else build.long in
        env.has_micbench ≡ true
        → parse_args opts ≡ ok opt
        → mapped_size (as_size opt.size) (as_size (align_of opt env.page_size)) ≡ ok mapped
        → allocate opt env.kernel nothing ≡ ok (s, h)
        → opt.rand ≡ false
        → 0 < size
        → 0 < inner.region_size
        → size ≡ n * inner.region_size
        → size % 8 ≡ 0
        → n < build.area_fuel
        → Expiring opt.timeout build.fuel (workers_from env.workers (pos_part opt.multi) 0) ks
        → OneLine f opt env.page_size env.stride
        → PathOk f opt env.page_size env.stride opt.hugetlbfile
        → let ws = workers_from env.workers (pos_part opt.multi) 0 in
          (e : Ended) × (exit : Exit) × (micbench_mem_main opts ≡ some (ok exit))
          × (read_table exit.printed ≡ some (summary_rows f opt env.page_size env.stride e))
          × (e.totals.ops ≡ total ks * (iterations size * (inner.num_ops * n)) % 2 ^ 64)
          × (e.totals.clk ≡ total_ticks ws ks % 2 ^ 64)
          × (e.totals.wallclocktime ≡ total_elapsed (pos 0) ws ks)
          × (e.start_tv ≡ env.start_tv)
          × (e.end_tv ≡ env.end_tv)
          × (exit.unmapped ≡ h.mapped)
          × (exit.closed ≡ h.opened)
  unfolding ended
  micbench_mem_main-reports opts opt s h mapped n ks has accepted rounded held sequential some_size
        some_region whole longs af ends lines path =
      let size = pos_part opt.size in
      let ws = workers_from env.workers (pos_part opt.multi) 0 in
      let (t, summed, ops) =
        summary-sequential m build opt size n ws ks sequential some_size some_region whole longs af
          ends in
      let (ss, run, same) = threads-run m build opt size ws t summed in
      let (clk, wall) =
        add_up-ticks m build opt size sequential some_size ws ks ss
          (record { ops = 0; clk = 0; wallclocktime = pos 0 }) ends run (omega arith) in
      let e = ended ss in
      (
        e,
        record {
          printed = mem_output f opt env.page_size env.stride ss e;
          unmapped = h.mapped;
          closed = h.opened;
        },
        main-runs opts opt s h mapped ss has accepted rounded held run,
        mem_output-sequential f opt env.page_size env.stride lines ss e sequential path,
        ap (λ x. x.ops) same ∙ ops,
        clk ∙ omega arith,
        wall,
        refl,
        refl,
        refl,
        refl,
      )

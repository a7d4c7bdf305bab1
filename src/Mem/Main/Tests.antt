-- ===== src/Mem/Main/Tests.antt =====
-- `main` of src/micbench-mem.c on `-t 2`: one thread, which its clock ends at the third look.
use micbench.Base.{◌*◌, ◌%◌, ◌^◌, ◌≡◌, refl, true, some, List, [], ◌∷◌, ok, arith}
use micbench.Base.Int.{pos}
use micbench.Base.Text.{codes, strtol, skip_space, is_digit, scan_digits, to_int}
use micbench.Base.Table.{read_table}
use micbench.Affinity.Arguments.{Opt, thread_affinity, thread_affinities}
use micbench.Rand.Tests.{integers}
use micbench.Mem.Args.{MemOption, defaults, set_option, set_options, parse_args}
use micbench.Mem.Areas.{
  Areas, Held, allocate, map_shared, first_affinity, open_hugetlb, map_file, bind_nodes,
}
use micbench.Mem.Areas.Release.{nothing}
use micbench.Mem.Stress.{mapped_size, iterations}
use micbench.Mem.Main.Program.{
  Environment, Exit, as_size, align_of, workers_from, micbench_mem_main, micbench_mem_main-reports,
}
use micbench.Mem.Main.Summary.{Expiring, no_worker, next_worker, total}
use micbench.Mem.Main.Sums.{total_ticks, total_elapsed}
use micbench.Mem.Report.{Ended}
use micbench.Mem.Report.Table.{summary_rows}
use micbench.Mem.Report.Tests.{floats, floats-OneLine}
use micbench.Mem.Tests.{build, worker, kernel, clocks-Expires}

abbrev arguments : List Opt
arguments = record { optchar = b't'; optarg = codes "2"; following = [] } ∷ []

abbrev two_seconds : MemOption
two_seconds = record defaults { timeout = pos 2 }

accepted : parse_args arguments ≡ ok two_seconds
unfolding parse_args set_options set_option strtol skip_space is_digit scan_digits to_int
accepted = refl

abbrev env : Environment integers
env = record {
  has_micbench = true;
  kernel = kernel;
  workers = λ i. worker;
  start_tv = record { tv_sec = pos 1; tv_usec = pos 0 };
  end_tv = record { tv_sec = pos 4; tv_usec = pos 0 };
  page_size = pos 4096;
  stride = 64;
}

areas : (s : Areas) × (h : Held) × (allocate two_seconds kernel nothing ≡ ok (s, h))
unfolding allocate thread_affinities thread_affinity map_shared open_hugetlb map_file first_affinity
    bind_nodes
areas = (_, _, refl)

one-Expiring : Expiring {m = integers} (pos 2) 3 (workers_from env.workers 1 0) (2 ∷ [])
unfolding workers_from
one-Expiring = next_worker clocks-Expires (omega arith) no_worker

micbench_mem_main-reports_example :
    (e : Ended) × (exit : Exit) × (micbench_mem_main integers build floats env arguments
      ≡ some (ok exit))
    × (read_table exit.printed ≡ some (summary_rows floats two_seconds (pos 4096) 64 e))
    × (e.totals.ops ≡ total (2 ∷ []) * (iterations 1048576 * (64 * 1024)) % 2 ^ 64)
    × (e.totals.clk ≡ total_ticks (worker ∷ []) (2 ∷ []) % 2 ^ 64)
    × (e.totals.wallclocktime ≡ total_elapsed (pos 0) (worker ∷ []) (2 ∷ []))
    × (e.start_tv ≡ env.start_tv)
    × (e.end_tv ≡ env.end_tv)
    × (exit.unmapped ≡ areas.1.mapped)
    × (exit.closed ≡ areas.1.opened)
unfolding mapped_size as_size align_of workers_from
micbench_mem_main-reports_example =
    micbench_mem_main-reports integers build floats env arguments two_seconds areas.0 areas.1
      1048576 1024 (2 ∷ []) refl accepted refl areas.2 refl (omega arith) (omega arith) refl refl
      (omega arith) one-Expiring (floats-OneLine two_seconds) tt

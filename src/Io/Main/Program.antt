-- ===== src/Io/Main/Program.antt =====
-- The whole of `micbench_io_main`, which is the program `micbench-io` (src/micbench-io-main.c): from the
-- arguments to what it prints.
use micbench.Base.{
  ◌⊎◌, ◌≢◌, ℕ, zero, suc, ◌<◌, ◌≡◌, Bool, true, false, Option, none, some, List, if◌then◌else◌,
  Outcome, ok, exit_failure, fault, waits, resume_loop,
}
use micbench.Base.Int.{ℤ, pos, pos_part}
use micbench.Base.Text.{Text}
use micbench.Affinity.Arguments.{Opt}
use micbench.Clock.{Timeval, tv2long, elapsed_usec_from}
use micbench.Rand.{Machine}
use micbench.Io.Options.{IoOption, pattern_rand, pattern_seekincr}
use micbench.Io.Args.{Host, parse_args}
use micbench.Io.Main.{World, Result, Report, no_run, run_of, run_benchmark}
use micbench.Io.Report.{Doubles, ResultT, print_result, print_result_json}
use micbench.Io.Report.Files.{Allocator}

-- The divisions that make the result: a number of microseconds by a million, a double by an integer,
-- an integer by a double.
pub record Quotients (D : Type 0) : Type 0 where
  pub of_usec : ℤ → D
  pub over : D → ℤ → D
  pub rate : ℤ → D → D

-- What the process meets: the variable MICBENCH, its files, /dev/urandom, what each thread meets, the
-- clock before the threads and behind them, and malloc(3).
pub record Environment (m : Machine) : Type 0 where
  pub has_micbench : Bool
  pub host : Host
  pub common_seed : Option ℤ
  pub worlds : ℤ → ℕ → World m
  pub start_tv : Timeval
  pub end_tv : Timeval
  pub heap : Allocator

-- `result` behind the divisions
pub result_t :
    {D : Type 0} → IoOption D → Quotients D → (start_tv end_tv : Timeval) → Result → ResultT D
result_t opt q start_tv end_tv r =
    let exec_time = q.of_usec (elapsed_usec_from start_tv end_tv) in
    record {
      io_count = pos r.io_count;
      io_bytes = r.io_bytes;
      start_time = q.of_usec (tv2long start_tv);
      exec_time = exec_time;
      iowait_time = q.over (q.of_usec r.iowait_time) opt.multi;
      response_time = q.over (q.of_usec r.iowait_time) (pos r.io_count);
      iops = q.rate (pos r.io_count) exec_time;
      bandwidth = q.rate r.io_bytes exec_time;
    }

module _ (m : Machine) (q : Quotients m.Double) (f : Doubles m.Double) (env : Environment m) where
  -- What is printed at the end.
  print_report : (opt : IoOption m.Double) → (names_fuel : ℕ) → Report → Option (Outcome Text)
  print_report opt names_fuel no_run = print_result_json opt env.heap f names_fuel none
  print_report opt names_fuel (run_of r) =
      let result = result_t opt q env.start_tv env.end_tv r in
      if opt.json
      then print_result_json opt env.heap f names_fuel (some result)
      else some (ok (print_result opt f result))

  -- What follows `parse_args`, by what it returns.
  with_options : (fuel names_fuel : ℕ) → Outcome (ℕ × IoOption m.Double) → Option (Outcome Text)
  with_options fuel names_fuel exit_failure = some exit_failure
  with_options fuel names_fuel fault = some fault
  with_options fuel names_fuel waits = some waits
  with_options fuel names_fuel (ok (suc n, opt)) = some exit_failure
  with_options fuel names_fuel (ok (zero, opt)) =
      resume_loop (run_benchmark m opt env.common_seed env.worlds fuel)
        (print_report opt names_fuel)

  -- `micbench_io_main`: what it prints. `nr_files` is what the global `option` holds before.
  pub micbench_io_main :
      (nr_files : ℕ)
      → List Opt
      → (operands : List Text) → (fuel names_fuel : ℕ) → Option (Outcome Text)
  micbench_io_main nr_files opts operands fuel names_fuel =
      if env.has_micbench
      then with_options fuel names_fuel (parse_args m env.host nr_files opts operands)
      else some exit_failure

  -- The options of a run without asynchronous I/O, with any pattern but seekincr, that reports as JSON.
  pub record JsonRun (operands : List Text) (opt : IoOption m.Double) : Type 0 where
    pub runs : opt.noop ≡ false
    pub json : opt.json ≡ true
    pub pattern : opt.pattern ≢ pattern_seekincr
    pub mode : (opt.pattern ≡ pattern_rand) ⊎ ((opt.read ≡ true) ⊎ (opt.write ≡ true))
    pub in_sync : opt.aio ≡ false
    pub block : 0 < pos_part opt.blk_sz
    pub threads : ℕ
    pub threads_lem : opt.multi ≡ pos (suc threads)

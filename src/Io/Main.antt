-- ===== src/Io/Main.antt =====
-- `thread_handler` and `micbench_io_main` of src/micbench-io.c, from the options that `parse_args` has
-- stored to the sums of the result. The threads share no state but the generator of drand48(3), whose
-- seed at the start of each is an argument, as is everything else that a thread meets.
pub mod Total
pub mod Program
mod Tests
use micbench.Base.{
  ℕ, zero, suc, ◌+◌, Bool, Option, none, some, List, [], ◌∷◌, if◌then◌else◌, Outcome, ok,
  exit_failure, ◌>>=◌, resume, resume_loop,
}
use micbench.Base.Int.{ℤ, pos, negsuc, ◌+ℤ◌, ◌*ℤ◌, pos_part}
use micbench.Base.Text.{Text}
use micbench.Rand.{Machine}
use micbench.Io.Options.{IoOption}
use micbench.Io.Aiom.{Aiom}
use micbench.Io.Log.{Log}
use micbench.Io.Sync.{Surroundings, Meter, path_at, do_sync_io}
use micbench.Io.Async.{AsyncSurroundings, do_async_io}

-- What open(2) answers for a file: a descriptor, or -1, which ends the process.
pub opened : ℤ → Outcome ℕ
opened (pos fd) = ok fd
opened (negsuc n) = exit_failure

-- What a thread meets: open(2) and close(2) of each file, the loops' clocks and system calls, its
-- generators, its buffer, the log, and what `mb_aiom_make` gives.
pub record World (m : Machine) : Type 0 where
  pub opens : ℕ → ℤ
  pub closes : ℕ → Bool
  pub sync : Surroundings
  pub async : AsyncSurroundings
  pub rand : m.Seed
  pub global : m.Seed
  pub buf : Text
  pub log : Log
  pub made : Outcome (Option Aiom)

-- `result_t`, before the divisions by times
pub record Result : Type 0 where
  pub io_count : ℕ
  pub io_bytes : ℤ
  pub iowait_time : ℤ

pub data Report : Type 0 where
  no_run : Report
  run_of : Result → Report

module _ (m : Machine) (opt : IoOption m.Double) where
  -- What a thread leaves: its meter, and the descriptors that it has opened and closed.
  pub record ThreadEnd : Type 0 where
    pub meter : Meter m opt
    pub fd_list : List ℕ
    pub closed : List ℕ

  -- The loop that opens the files, `n` of them from the file `i` on.
  pub open_files : World m → (n i : ℕ) → Outcome (List ℕ)
  open_files w zero i = ok []
  open_files w (suc n) i = do
    path ← path_at m opt i
    fd ← opened (w.opens i)
    fds ← open_files w n (i + 1)
    ok (fd ∷ fds)

  -- The loop that closes them: the descriptors closed.
  pub close_files : World m → (i : ℕ) → List ℕ → Outcome (List ℕ)
  close_files w i [] = ok []
  close_files w i (fd ∷ fds) =
      if w.closes i then (do rest ← close_files w (i + 1) fds; ok (fd ∷ rest)) else exit_failure

  -- The choice of `do_async_io` or `do_sync_io`.
  pub do_io : World m → List ℕ → (fuel id : ℕ) → Option (Outcome (Meter m opt))
  do_io w fds fuel id =
      if opt.aio
      then do_async_io m opt fds w.async fuel id w.rand w.global w.made w.log
      else do_sync_io m opt w.sync fuel id w.rand w.global w.buf w.log

  -- `thread_handler`
  pub thread_handler : World m → (fuel id : ℕ) → Option (Outcome ThreadEnd)
  thread_handler w fuel id = resume (open_files w opt.nr_files 0) λ fds.
      resume_loop (do_io w fds fuel id) λ meter.
        resume (close_files w 0 fds)
          λ closed. some (ok (record { meter = meter; fd_list = fds; closed = closed }))

  -- The threads that are created and joined, `n` of them from the thread `id` on.
  pub run_threads : (ℕ → World m) → (fuel n id : ℕ) → Option (Outcome (List ThreadEnd))
  run_threads worlds fuel zero id = some (ok [])
  run_threads worlds fuel (suc n) id =
      let rest = run_threads worlds fuel n (id + 1) in
      resume_loop (thread_handler (worlds id) fuel id)
        λ t. resume_loop rest λ ts. some (ok (t ∷ ts))

  -- The loop of the sums.
  pub add_up : List ThreadEnd → (count_sum : ℕ) (iowait_time_sum : ℤ) → ℕ × ℤ
  add_up [] count_sum iowait_time_sum = (count_sum, iowait_time_sum)
  add_up (t ∷ ts) count_sum iowait_time_sum =
      add_up ts (count_sum + t.meter.count) (iowait_time_sum +ℤ t.meter.iowait)

  -- `result` after the sums
  pub result_of : List ThreadEnd → Result
  result_of ts =
      let (count_sum, iowait_time_sum) = add_up ts 0 (pos 0) in
      record {
        io_count = count_sum;
        io_bytes = pos count_sum *ℤ opt.blk_sz;
        iowait_time = iowait_time_sum;
      }

  -- The part of `micbench_io_main` between `parse_args` and the report. With `noop` nothing is run.
  -- `common_seed` is what is read from /dev/urandom, and nothing if that fails.
  pub run_benchmark :
      (common_seed : Option ℤ) → (worlds : ℤ → ℕ → World m) → (fuel : ℕ) → Option (Outcome Report)
  run_benchmark common_seed worlds fuel =
      let ran : Option (Outcome Report) = elim common_seed [
        | none ↦ some exit_failure
        | some seed ↦
            resume_loop (run_threads (worlds seed) fuel (pos_part opt.multi) 0)
              λ ts. some (ok (run_of (result_of ts)))
      ] in
      if opt.noop then some (ok no_run) else ran

-- ===== src/Io/Sync.antt =====
-- `do_sync_io` of src/micbench-io.c. What the clock and the system calls answer is an argument: a
-- function from the number of the check, or of the request, to the answer. Times are in
-- microseconds, and so is `iowait_time`, which the source keeps in seconds.
pub mod Count
pub mod Requests
pub mod Whole
mod Tests
use mathlib.Core.Option
use micbench.Base.{
  ℕ, zero, suc, ◌+◌, ◌*◌, Bool, true, false, ◌&&◌, not, Option, none, some, List, [], ◌∷◌,
  if◌then◌else◌, map, length, drop, replicate, ◌++◌, resume, Outcome, ok, exit_failure, fault,
  waits, ◌>>=◌,
}
use micbench.Base.Int.{ℤ, pos, negsuc, ◌+ℤ◌, ◌-ℤ◌, ◌*ℤ◌, ltb_ℤ, pos_part}
use micbench.Base.Text.{Text}
use micbench.Transfer.{
  Read, Write, Progress, stored, returned, exited, running, readall, writeall, preadall, pwriteall,
}
use micbench.Rand.{Machine, rand_buf, read_or_write, do_read, do_write}
use micbench.Io.Options.{
  IoOption, Pattern, pattern_seq, pattern_rand, pattern_seekdist, pattern_seekincr,
}
use micbench.Io.Offsets.{
  Cursor, Chosen, at_index, init_offsets, ofst_sync, choose_rand, choose_seq, choose_seekdist,
}
use micbench.Clock.{seconds}
use micbench.Io.Log.{Log, log_io_activity}

-- What one request meets: the times before and after it, lseek64(2), the calls of read(2) and
-- write(2), and those of pread64(2) and pwrite64(2).
pub record Answers : Type 0 where
  pub t0 : ℕ
  pub t1 : ℕ
  pub lseek_ok : Bool
  pub reads : List Read
  pub writes : List Write
  pub pread : Read
  pub pwrite : Write

-- `mb_elapsed_time_from(&start_tv)` at each check, and the answers to each request
pub record Surroundings : Type 0 where
  pub elapsed : ℕ → ℤ
  pub answers : ℕ → Answers

-- what the loops of the transfers come to for the caller
abbrev pub settle : Progress → Outcome Text
settle (returned t) = ok t
settle exited = exit_failure
settle (running left t) = waits

-- what a transfer has stored at the front of the buffer
abbrev pub overwrite : Text → Text → Text
overwrite t buf = t ++ drop (length t) buf

module _ (m : Machine) (opt : IoOption m.Double) where
  -- The variables of the loops.
  pub record SyncState : Type 0 where
    pub cursor : Cursor m
    pub buf : Text
    pub iowait_time : ℤ
    pub io_count : ℕ
    pub log : Log

  -- the block size as the size_t of a transfer
  abbrev size : ℕ
  size = pos_part opt.blk_sz

  -- A request of the pattern `rand`, at its own offset.
  pub transfer_at : Answers → Cursor m → Text → Outcome (Cursor m × Text)
  transfer_at w c buf =
      let (mode, global) = read_or_write m opt.read opt.write opt.rwmix c.global in
      let c' = record c { global = global } in
      let (buf', rand) = rand_buf m c.rand buf size in
      elim mode [
        | do_read ↦ (do
          r ← preadall opt.continue_on_error size w.pread
          ok (c', overwrite (stored w.pread) buf))
        | do_write ↦ (do
          r ← pwriteall opt.continue_on_error size w.pwrite
          ok (record c' { rand = rand }, buf'))
      ]

  -- A request of the other patterns, after a seek.
  pub transfer_on : Answers → Cursor m → Text → Outcome (Cursor m × Text)
  transfer_on w c buf =
      let (buf', rand) = rand_buf m c.rand buf size in
      if not w.lseek_ok
      then exit_failure
      else if opt.read
      then (do t ← settle (readall opt.continue_on_error size [] w.reads); ok (c, overwrite t buf))
      else if opt.write
      then (do
        t ← settle (writeall opt.continue_on_error buf' [] w.writes)
        ok (record c { rand = rand }, buf'))
      else exit_failure

  -- The choice and the transfer of a request by pattern. (`seekincr` makes none: `do_sync_io`.)
  pub choose : Pattern → Cursor m → Outcome (Chosen m)
  choose pattern_rand c = choose_rand m opt.nr_files c
  choose pattern_seq c = choose_seq m opt.nr_files c
  choose pattern_seekdist c = choose_seekdist m opt.seekdist_stride opt.nr_files c
  choose pattern_seekincr c = fault

  pub transfer : Pattern → Answers → Cursor m → Text → Outcome (Cursor m × Text)
  transfer pattern_rand w c buf = transfer_at w c buf
  transfer _ w c buf = transfer_on w c buf

  -- `file_path_list[file_idx]`
  unfoldable pub path_at : ℕ → Outcome Text
  path_at idx = elim opt.file_path_list [ none ↦ fault | some ps ↦ at_index ps idx ]

  -- The body of the inner loop.
  pub request : Answers → SyncState → Outcome SyncState
  request w s = do
    (idx, ofst, c) ← choose opt.pattern s.cursor
    let addr = ofst *ℤ opt.blk_sz +ℤ opt.misalign
    (c', buf) ← transfer opt.pattern w c s.buf
    path ← path_at idx
    ok (record {
      cursor = c';
      buf = buf;
      iowait_time = s.iowait_time +ℤ (pos w.t1 -ℤ pos w.t0);
      io_count = suc s.io_count;
      log = log_io_activity opt.logfile w.t0 w.t1 path addr opt.blk_sz s.log;
    })

  -- The inner loop, `n` requests.
  pub requests : Surroundings → ℕ → SyncState → Outcome SyncState
  requests env zero s = ok s
  requests env (suc n) s = do s' ← request (env.answers s.io_count) s; requests env n s'

  -- The outer loop, with fuel, from the check `i` on: 100 requests between two looks at the clock.
  -- `none` means that the fuel ran out.
  pub rounds : Surroundings → (fuel i : ℕ) → SyncState → Option (Outcome SyncState)
  rounds env zero i s = none
  rounds env (suc fuel) i s =
      let more = resume (requests env 100 s) (rounds env fuel (i + 1)) in
      if ltb_ℤ (env.elapsed i) (seconds opt.timeout) then more else some (ok s)

  -- `meter_t`
  pub record Meter : Type 0 where
    pub iowait : ℤ
    pub count : ℕ

  abbrev meter_of : SyncState → Meter
  meter_of s = record { iowait = s.iowait_time; count = s.io_count }

  -- The variables at the start of the loops.
  pub start_state : (id : ℕ) (rand global : m.Seed) → Text → Log → List ℤ → Outcome SyncState
  start_state id rand global buf log file_sizes = do
    (os, los, his) ← init_offsets opt (ofst_sync opt id) file_sizes
    let cursor : Cursor m = record {
      file_idx = 0;
      ofst_list = os;
      ofst_min_list = los;
      ofst_max_list = his;
      seekdist_side_list = map (λ _. 0) file_sizes;
      rand = rand;
      global = global;
    }
    ok (record { cursor = cursor; buf = buf; iowait_time = pos 0; io_count = 0; log = log })

  -- The loop of the pattern, and what it leaves in `meter`; `seekincr` has none.
  pub run_pattern : Surroundings → (fuel : ℕ) → SyncState → Option (Outcome Meter)
  run_pattern env fuel s = elim opt.pattern [
    | pattern_seekincr ↦ some (ok (meter_of s))
    | _ ↦ Option.map (λ r. (r >>= λ s'. ok (meter_of s'))) (rounds env fuel 0 s)
  ]

  -- `do_sync_io` of the thread `id`: what is left in `meter`. `rand` is the thread's generator after
  -- srand48_r(3), `buf` the buffer as it was allocated.
  pub do_sync_io :
      Surroundings → (fuel id : ℕ) (rand global : m.Seed) → Text → Log → Option (Outcome Meter)
  do_sync_io env fuel id rand global buf log = elim opt.file_size_list [
    | none ↦ some fault
    | some file_sizes ↦
        resume (start_state id rand global buf log file_sizes) (run_pattern env fuel)
  ]

-- ===== src/Io/Sync/Tests.antt =====
-- `do_sync_io` of src/micbench-io.c on one file: a round of 100 reads, after which the time is over.
use micbench.Base.{inl, ℕ, ◌*◌, ◌≡◌, arith, refl, true, false, some, [], ◌∷◌, ok}
use micbench.Base.Int.{ℤ, pos, ◌+ℤ◌, ◌*ℤ◌}
use micbench.Base.Text.{codes}
use micbench.Transfer.{got, took, readall}
use micbench.Rand.Tests.{integers}
use micbench.Io.Options.{IoOption, pattern_rand}
use micbench.Io.Args.{defaults}
use micbench.Io.Log.{Log, log_io_activity}
use micbench.Io.Offsets.{choose_seq, next_ofst}
use micbench.Io.Sync.{
  Answers, Surroundings, SyncState, rounds, requests, request, choose, transfer, transfer_on,
  path_at, Meter, do_sync_io,
}
use micbench.Io.Sync.Requests.{Asks, Works}
use micbench.Io.Sync.Whole.{Sizes, do_sync_io-ends}

abbrev opt : IoOption ℤ
opt = record (defaults integers 1) {
  blk_sz = pos 1;
  file_path_list = some (codes "f" ∷ []);
  file_size_list = some (pos 3 ∷ []);
}

-- the same with the pattern rand, and writing
abbrev writing : IoOption ℤ
writing = record opt { pattern = pattern_rand; read = false; write = true }

abbrev answer : Answers
answer = record {
  t0 = 5;
  t1 = 7;
  lseek_ok = true;
  reads = got (9 ∷ []) ∷ [];
  writes = took 1 ∷ [];
  pread = got [];
  pwrite = took 0;
}

abbrev env : Surroundings
env = record { elapsed = λ n. pos (n * 60000000); answers = λ n. answer }

abbrev no_log : Log
no_log = record { logcount = 0; log_start_usec = 0; lines = [] }

abbrev start : SyncState integers opt
start = record {
  cursor = record {
    file_idx = 0;
    ofst_list = pos 0 ∷ [];
    ofst_min_list = pos 0 ∷ [];
    ofst_max_list = pos 3 ∷ [];
    seekdist_side_list = 0 ∷ [];
    rand = 7;
    global = 0;
  };
  buf = 0 ∷ [];
  iowait_time = pos 0;
  io_count = 0;
  log = no_log;
}

run_lem : (s : SyncState integers opt) × (rounds integers opt env 2 0 start ≡ some (ok s))
unfolding rounds requests request choose transfer transfer_on path_at readall choose_seq next_ofst
    ◌+ℤ◌ ◌*ℤ◌ log_io_activity
run_lem = (_, refl)

writing-Asks : Asks integers writing (codes "f" ∷ [])
writing-Asks = record {
  pattern = λ e. cc;
  mode = inl refl;
  has_paths = refl;
  count = refl;
  block = omega arith;
}

writing-Sizes : Sizes integers writing (codes "f" ∷ []) (pos 3 ∷ [])
writing-Sizes = record {
  sizes_of = refl;
  same_length = refl;
  some_path = omega arith;
  threads = 0;
  threads_lem = refl;
}

answer-Works : (i : ℕ) → Works integers writing (env.answers i)
answer-Works i = record {
  seeks = refl;
  chunks = (omega arith, omega arith, tt);
  enough_reads = omega arith;
  accepts = (omega arith, omega arith, tt);
  enough_writes = omega arith;
  preads = refl;
  pread_size = omega arith;
  pwrites = refl;
}

do_sync_io-ends_example :
    (meter : Meter integers writing) × (do_sync_io integers writing env 2 0 7 0 (0 ∷ []) no_log
      ≡ some (ok meter))
    × (meter.count ≡ 100 * 1)
unfolding ◌*ℤ◌
do_sync_io-ends_example =
    do_sync_io-ends integers writing (codes "f" ∷ []) (pos 3 ∷ []) writing-Asks writing-Sizes env
      answer-Works 1 2 0 7 0 (0 ∷ []) no_log refl (omega arith)
      (record { before = λ j lt. ground arith; at = refl })

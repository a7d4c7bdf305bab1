-- ===== src/Io/Main/Tests.antt =====
-- `micbench_io_main` of src/micbench-io.c with two threads that read one file.
use micbench.Base.{◌*◌, true, none, some, [], ◌∷◌, ok}
use micbench.Base.Int.{ℤ, pos}
use micbench.Base.Text.{codes}
use micbench.Transfer.{got, took}
use micbench.Rand.Tests.{integers}
use micbench.Io.Options.{IoOption}
use micbench.Base.Text.{Text}
use micbench.Io.Args.{defaults}
use micbench.Io.Args.Tests.{file_of}
use micbench.Io.Report.Tests.{heap}
use micbench.Io.Main.Program.{Quotients, Environment}
use micbench.Io.Wait.{failed}
use micbench.Io.Sync.{Answers}
use micbench.Io.Main.{World}

abbrev opt : IoOption ℤ
opt = record (defaults integers 1) {
  multi = pos 2;
  blk_sz = pos 1;
  file_path_list = some (codes "f" ∷ []);
  file_size_list = some (pos 3 ∷ []);
}

abbrev answer : Answers
answer = record {
  t0 = 5;
  t1 = 7;
  lseek_ok = true;
  reads = got (9 ∷ []) ∷ [];
  writes = took 1 ∷ [];
  pread = got [];
  pwrite = took 0;
}

abbrev world : World integers
world = record {
  opens = λ i. pos 3;
  closes = λ i. true;
  sync = record { elapsed = λ n. pos (n * 60000000); answers = λ n. answer };
  async = record {
    elapsed = λ n. pos (n * 60000000);
    turns = λ n. record {
      queue_time = λ i. 0;
      submit_time = 0;
      submitted = pos;
      reply = λ held. failed;
    };
    last_reply = λ held. failed;
    register_files = pos 0;
  };
  rand = 7;
  global = 0;
  buf = 0 ∷ [];
  log = record { logcount = 0; log_start_usec = 0; lines = [] };
  made = ok none;
}

-- the program with `-m 2 -b 1 -j f`
abbrev env : Environment integers
env = record {
  has_micbench = true;
  host = file_of 3;
  common_seed = some (pos 9);
  worlds = λ seed id. world;
  start_tv = record { tv_sec = pos 5; tv_usec = pos 0 };
  end_tv = record { tv_sec = pos 65; tv_usec = pos 0 };
  heap = heap;
}

abbrev quotients : Quotients ℤ
quotients = record { of_usec = λ n. n; over = λ x n. x; rate = λ n x. n }

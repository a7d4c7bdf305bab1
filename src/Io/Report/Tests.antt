-- ===== src/Io/Report/Tests.antt =====
-- The report of `print_result_json` at work, for one file and integers in place of doubles.
use micbench.Base.{
  ℕ, ◌-◌, refl, some, ◌++◌, length, replicate, arith, length-replicate, length-append,
}
use micbench.Base.Int.{ℤ, pos}
use micbench.Base.Text.{Text, show_int}
use micbench.Base.Json.Numerals.{show_int-Numeral}
use micbench.Io.Report.{Doubles, ResultT}
use micbench.Io.Report.Files.{Allocator}
use micbench.Io.Report.Grow.{Grants}
use micbench.Io.Report.Meaning.{Numerals}

-- an allocator whose blocks come as zeros
abbrev pub heap : Allocator
heap = record {
  malloc = λ n. some (replicate n 0);
  realloc = λ block n. some (block ++ replicate (n - length block) 0);
}

pub heap-Grants : Grants heap
heap-Grants = record {
  mallocs = λ n. (replicate n 0, refl, length-replicate {A = ℕ} n 0);
  grows = λ block n le. (
    replicate (n - length block) 0,
    refl,
    omega (
      arith,
      length-append block (replicate (n - length block) 0),
      length-replicate {A = ℕ} (n - length block) 0,
    ),
  );
}

abbrev pub doubles : Doubles ℤ
doubles = record { show = show_int; over_mebi = λ x. x; thousandfold = λ x. x }

abbrev result : ResultT ℤ
result = record {
  io_count = pos 3;
  io_bytes = pos 12288;
  start_time = pos 1;
  exec_time = pos 2;
  iowait_time = pos 1;
  response_time = pos 0;
  iops = pos 1;
  bandwidth = pos 6144;
}

pub show_int-Numerals : (r : ResultT ℤ) → Numerals doubles r
show_int-Numerals r = record {
  start_time = show_int-Numeral _;
  exec_time = show_int-Numeral _;
  iops = show_int-Numeral _;
  transfer_rate = show_int-Numeral _;
  response_time = show_int-Numeral _;
  iowait_time = show_int-Numeral _;
}

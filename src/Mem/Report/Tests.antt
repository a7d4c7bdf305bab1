-- ===== src/Mem/Report/Tests.antt =====
-- What src/micbench-mem.c prints for one thread, with integers in place of doubles.
use micbench.Base.{◌≡◌, refl, some, [], ◌∷◌, arith}
use micbench.Base.Int.{ℤ, pos}
use micbench.Base.Text.{codes, show_int}
use micbench.Base.Table.{read_table, without, show_int-without}
use micbench.Mem.Args.{MemOption, defaults}
use micbench.Mem.Stress.{Stress}
use micbench.Mem.Report.{Floats, Ended, mem_output}
use micbench.Mem.Report.Table.{summary_rows, OneLine, mem_output-table}

abbrev pub floats : Floats ℤ
floats = record {
  fixed = show_int;
  exponent = show_int;
  of_usec = λ t. t;
  over = λ x n. x;
  ratio = λ m n. pos m;
  rate = λ n x. pos n;
  span = λ a b. a.tv_sec;
  in_gb = λ stride x. x;
}

abbrev huge : MemOption
huge = record defaults { hugetlbfile = some (codes "/huge") }

pub floats-OneLine : (opt : MemOption) → OneLine floats opt (pos 4096) 64
floats-OneLine opt = record {
  fixed = λ x. show_int-without 10 x (omega arith);
  fixed_tab = λ x. show_int-without 9 x (omega arith);
  exponent = λ x. show_int-without 10 x (omega arith);
}

abbrev counted : Stress
counted = record { ops = 256; clk = 1000; wallclocktime = pos 3; touched = [] }

abbrev at_end : Ended
at_end = record {
  totals = record { ops = 256; clk = 1000; wallclocktime = pos 3 };
  start_tv = record { tv_sec = pos 1; tv_usec = pos 0 };
  end_tv = record { tv_sec = pos 4; tv_usec = pos 0 };
}

mem_output-table_example :
    read_table (mem_output floats huge (pos 4096) 64 (counted ∷ []) at_end)
    ≡ some (summary_rows floats huge (pos 4096) 64 at_end)
unfolding without
mem_output-table_example =
    mem_output-table floats huge (pos 4096) 64 (floats-OneLine huge) counted [] at_end refl

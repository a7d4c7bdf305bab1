-- ===== src/Mem/Report.antt =====
-- What src/micbench-mem.c prints: the line of each thread with the random pattern, and the summary of
-- `main`. The text of a double is a parameter, and so are sums, products and quotients of doubles.
pub mod Table
pub mod Tests
use micbench.Base.{
  ℕ, suc, ◌-◌, ◌^◌, Bool, true, false, Option, none, some, List, [], ◌∷◌, ◌++◌, map, ltb,
  if◌then◌else◌,
}
use micbench.Base.Int.{ℤ, pos, negsuc}
use micbench.Base.Text.{Text, codes, show_nat, show_int}
use micbench.Base.Table.{join_texts}
use micbench.Clock.{Timeval}
use micbench.Mem.Args.{MemOption}
use micbench.Mem.Stress.{Stress}
use micbench.Mem.Main.{Totals}

-- `%lf` and `%le`, a number of microseconds in seconds, a double by an integer, quotients of two
-- integers and of an integer by a double, the time between two looks at the clock, and operations a
-- second in GB.
pub record Floats (D : Type 0) : Type 0 where
  pub fixed : D → Text
  pub exponent : D → Text
  pub of_usec : ℤ → D
  pub over : D → ℤ → D
  pub ratio : ℕ → ℕ → D
  pub rate : ℕ → D → D
  pub span : Timeval → Timeval → D
  pub in_gb : (stride : ℕ) → D → D

-- `%ld` of an unsigned long: the long with the same bits.
pub show_ulong : ℕ → Text
show_ulong n = show_int (if ltb n (2 ^ 63) then pos n else negsuc (2 ^ 64 - 1 - n))

pub bool_str : Bool → Text
bool_str true = codes "true"
bool_str false = codes "false"

pub pattern_str : Bool → Text
pattern_str true = codes "sequential"
pattern_str false = codes "random"

-- `option.hugetlbfile == NULL ? "false" : "true"`
pub hugepages_str : Option Text → Text
hugepages_str none = codes "false"
hugepages_str (some path) = codes "true"

-- What `main` knows at its end.
pub record Ended : Type 0 where
  pub totals : Totals
  pub start_tv : Timeval
  pub end_tv : Timeval

module _ {D : Type 0} (f : Floats D) (opt : MemOption) where
  -- `wallclocktime`, `tp` and `rt`
  pub wallclock : Ended → D
  wallclock e = f.over (f.of_usec e.totals.wallclocktime) opt.multi

  pub throughput : Ended → D
  throughput e = f.rate e.totals.ops (wallclock e)

module _ {D : Type 0} (f : Floats D) (opt : MemOption) (page_size : ℤ) (stride : ℕ) where
  -- The first printf(3).
  pub params_pieces : List Text
  params_pieces =
      codes "access_pattern\t"
      ∷ (pattern_str opt.seq
          ∷ (codes "\nmultiplicity\t"
              ∷ (show_int opt.multi
                  ∷ (codes "\nlocal\t"
                      ∷ (bool_str opt.local
                          ∷ (codes "\npage_size\t"
                              ∷ (show_int page_size
                                  ∷ (codes "\nsize\t"
                                      ∷ (show_int opt.size
                                          ∷ (codes "\nuse_hugepages\t"
                                              ∷ (hugepages_str opt.hugetlbfile
                                                  ∷ (codes "\n" ∷ []))))))))))))

  pub hugetlb_pieces : Option Text → List Text
  hugetlb_pieces none = []
  hugetlb_pieces (some path) =
      codes "hugetlbfile\t"
      ∷ (path ∷ (codes "\nhugepage_size\t" ∷ (show_int opt.hugepage_size ∷ (codes "\n" ∷ []))))

  pub stride_pieces : Bool → List Text
  stride_pieces false = []
  stride_pieces true = codes "stride_size\t" ∷ (show_nat stride ∷ (codes "\n" ∷ []))

  pub totals_pieces : Ended → List Text
  totals_pieces e =
      codes "total_ops\t"
      ∷ (show_ulong e.totals.ops
          ∷ (codes "\ntotal_clk\t"
              ∷ (show_ulong e.totals.clk
                  ∷ (codes "\nexec_time\t"
                      ∷ (f.fixed (wallclock f opt e)
                          ∷ (codes "\nops_per_sec\t"
                              ∷ (f.exponent (throughput f opt e)
                                  ∷ (codes "\nclk_per_op\t"
                                      ∷ (f.exponent (f.ratio e.totals.clk e.totals.ops)
                                          ∷ (codes "\ntotal_exec_time\t"
                                              ∷ (f.fixed (f.span e.start_tv e.end_tv)
                                                  ∷ (codes "\n" ∷ []))))))))))))

  pub rate_pieces : Bool → Ended → List Text
  rate_pieces false e = []
  rate_pieces true e =
      codes "GB_per_sec\t" ∷ (f.fixed (f.in_gb stride (throughput f opt e)) ∷ (codes "\n" ∷ []))

  -- The summary.
  pub print_summary : Ended → Text
  print_summary e = join_texts (
      params_pieces
      ++ (hugetlb_pieces opt.hugetlbfile
          ++ (stride_pieces opt.seq ++ (totals_pieces e ++ rate_pieces opt.seq e))))

  -- The line that `do_memory_stress_rand` prints at its end.
  pub loop_end : Stress → Text
  loop_end s = codes "loop end: t=" ++ (f.fixed (f.of_usec s.wallclocktime) ++ codes "\n")

  -- The lines of the threads, with the random pattern.
  pub loop_ends : (rand : Bool) → List Stress → Text
  loop_ends false threads = []
  loop_ends true threads = join_texts (map loop_end threads)

  -- What the program prints, with the counters that the threads have left.
  pub mem_output : List Stress → Ended → Text
  mem_output threads e = loop_ends opt.rand threads ++ print_summary e

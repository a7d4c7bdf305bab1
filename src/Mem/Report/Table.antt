-- ===== src/Mem/Report/Table.antt =====
-- What src/micbench-mem.c prints, read as a table.
use mathlib.Core.List.{append_assoc}
use micbench.Base.{
  ℕ, ◌≡◌, refl, Bool, true, false, Option, none, some, List, [], ◌∷◌, ◌++◌, map, if◌then◌else◌,
  arith, ap, ◌∙◌,
}
use micbench.Base.Int.{ℤ}
use micbench.Base.Text.{Text, codes, show_nat, show_int}
use micbench.Base.Table.{
  join_texts, print_table, read_table, without, AllRows, read_table-print, read_table-no_tab,
  show_nat-without, show_int-without, without-append,
}
use micbench.Mem.Args.{MemOption}
use micbench.Mem.Stress.{Stress}
use micbench.Mem.Report.{
  Floats, show_ulong, bool_str, pattern_str, hugepages_str, Ended, params_pieces, hugetlb_pieces,
  stride_pieces, wallclock, throughput, totals_pieces, rate_pieces, print_summary, loop_end,
  loop_ends, mem_output,
}

module _ {D : Type 0} (f : Floats D) (opt : MemOption) (page_size : ℤ) (stride : ℕ) where
  -- The lines on huge pages, on the stride and on the transfer rate, which not every run has.
  hugetlb_rows : Option Text → List (Text × Text) → List (Text × Text)
  hugetlb_rows none rest = rest
  hugetlb_rows (some path) rest =
      (codes "hugetlbfile", path) ∷ ((codes "hugepage_size", show_int opt.hugepage_size) ∷ rest)

  stride_rows : Bool → List (Text × Text) → List (Text × Text)
  stride_rows false rest = rest
  stride_rows true rest = (codes "stride_size", show_nat stride) ∷ rest

  rate_rows : Bool → Ended → List (Text × Text)
  rate_rows false e = []
  rate_rows true e = (codes "GB_per_sec", f.fixed (f.in_gb stride (throughput f opt e))) ∷ []

  params_rows : List (Text × Text) → List (Text × Text)
  params_rows rest =
      (codes "access_pattern", pattern_str opt.seq)
      ∷ ((codes "multiplicity", show_int opt.multi)
          ∷ ((codes "local", bool_str opt.local)
              ∷ ((codes "page_size", show_int page_size)
                  ∷ ((codes "size", show_int opt.size)
                      ∷ ((codes "use_hugepages", hugepages_str opt.hugetlbfile) ∷ rest)))))

  totals_rows : Ended → List (Text × Text) → List (Text × Text)
  totals_rows e rest =
      (codes "total_ops", show_ulong e.totals.ops)
      ∷ ((codes "total_clk", show_ulong e.totals.clk)
          ∷ ((codes "exec_time", f.fixed (wallclock f opt e))
              ∷ ((codes "ops_per_sec", f.exponent (throughput f opt e))
                  ∷ ((codes "clk_per_op", f.exponent (f.ratio e.totals.clk e.totals.ops))
                      ∷ ((codes "total_exec_time", f.fixed (f.span e.start_tv e.end_tv)) ∷ rest)))))

  summary_rows_of : Option Text → Bool → Ended → List (Text × Text)
  unfolding params_rows hugetlb_rows stride_rows totals_rows rate_rows
  summary_rows_of hugetlbfile seq e =
      params_rows (hugetlb_rows hugetlbfile (stride_rows seq (totals_rows e (rate_rows seq e))))

  -- The options and the totals, by name.
  pub summary_rows : Ended → List (Text × Text)
  unfolding summary_rows_of
  summary_rows e = summary_rows_of opt.hugetlbfile opt.seq e

  -- The texts of the doubles have no newline, and those of `%lf` no tab.
  pub record OneLine : Type 0 where
    pub fixed : (x : D) → without 10 (f.fixed x) ≡ true
    pub fixed_tab : (x : D) → without 9 (f.fixed x) ≡ true
    pub exponent : (x : D) → without 10 (f.exponent x) ≡ true

  by_parts :
      (hugetlbfile : Option Text) (seq : Bool) (e : Ended)
      → join_texts (
          params_pieces f opt page_size stride
          ++ (hugetlb_pieces f opt page_size stride hugetlbfile
              ++ (stride_pieces f opt page_size stride seq
                  ++ (totals_pieces f opt page_size stride e
                      ++ rate_pieces f opt page_size stride seq e))))
        ≡ print_table (summary_rows_of hugetlbfile seq e)
  unfolding params_pieces hugetlb_pieces stride_pieces totals_pieces rate_pieces summary_rows_of
  by_parts none false e = refl
  by_parts none true e = refl
  by_parts (some path) false e = refl
  by_parts (some path) true e = refl

  pattern_str-without : (seq : Bool) → without 10 (pattern_str seq) ≡ true
  unfolding pattern_str without
  pattern_str-without true = refl
  pattern_str-without false = refl

  bool_str-without : (b : Bool) → without 10 (bool_str b) ≡ true
  unfolding bool_str without
  bool_str-without true = refl
  bool_str-without false = refl

  hugepages_str-without : (path : Option Text) → without 10 (hugepages_str path) ≡ true
  unfolding hugepages_str without
  hugepages_str-without none = refl
  hugepages_str-without (some path) = refl

  show_ulong-without : (n : ℕ) → without 10 (show_ulong n) ≡ true
  unfolding show_ulong
  show_ulong-without n = show_int-without 10 _ (omega arith)

  -- The path of the file of huge pages has no newline.
  abbrev pub PathOk : Option Text → Type 0
  PathOk none = Unit {0}
  PathOk (some path) = without 10 path ≡ true

  params_rows-AllRows : (rest : List (Text × Text)) → AllRows rest → AllRows (params_rows rest)
  unfolding params_rows without
  params_rows-AllRows rest h = (
    (refl, refl, pattern_str-without opt.seq),
    (
      (refl, refl, show_int-without 10 opt.multi (omega arith)),
      (
        (refl, refl, bool_str-without opt.local),
        (
          (refl, refl, show_int-without 10 page_size (omega arith)),
          (
            (refl, refl, show_int-without 10 opt.size (omega arith)),
            ((refl, refl, hugepages_str-without opt.hugetlbfile), h),
          ),
        ),
      ),
    ),
  )

  totals_rows-AllRows :
      OneLine
      → (e : Ended) (rest : List (Text × Text)) → AllRows rest
      → AllRows (totals_rows e rest)
  unfolding totals_rows without
  totals_rows-AllRows o e rest h = (
    (refl, refl, show_ulong-without e.totals.ops),
    (
      (refl, refl, show_ulong-without e.totals.clk),
      (
        (refl, refl, o.fixed _),
        ((refl, refl, o.exponent _), ((refl, refl, o.exponent _), ((refl, refl, o.fixed _), h))),
      ),
    ),
  )

  hugetlb_rows-AllRows :
      (path : Option Text) (rest : List (Text × Text))
      → PathOk path
      → AllRows rest
      → AllRows (hugetlb_rows path rest)
  unfolding hugetlb_rows without
  hugetlb_rows-AllRows none rest ok_path h = h
  hugetlb_rows-AllRows (some path) rest ok_path h = (
    (refl, refl, ok_path),
    ((refl, refl, show_int-without 10 opt.hugepage_size (omega arith)), h),
  )

  stride_rows-AllRows :
      (seq : Bool) (rest : List (Text × Text)) → AllRows rest → AllRows (stride_rows seq rest)
  unfolding stride_rows without
  stride_rows-AllRows false rest h = h
  stride_rows-AllRows true rest h = ((refl, refl, show_nat-without 10 stride (omega arith)), h)

  rate_rows-AllRows : OneLine → (seq : Bool) (e : Ended) → AllRows (rate_rows seq e)
  unfolding rate_rows without
  rate_rows-AllRows o false e = tt
  rate_rows-AllRows o true e = ((refl, refl, o.fixed _), tt)

  summary_rows-AllRows : OneLine → (e : Ended) → PathOk opt.hugetlbfile → AllRows (summary_rows e)
  unfolding summary_rows
  summary_rows-AllRows o e path =
      let last = rate_rows-AllRows o opt.seq e in
      let totals = totals_rows-AllRows o e (rate_rows opt.seq e) last in
      let rest = totals_rows e (rate_rows opt.seq e) in
      params_rows-AllRows (hugetlb_rows opt.hugetlbfile (stride_rows opt.seq rest)) (
        hugetlb_rows-AllRows opt.hugetlbfile (stride_rows opt.seq rest) path
          (stride_rows-AllRows opt.seq rest totals))

  print_summary-rows :
      OneLine
      → (e : Ended) → PathOk opt.hugetlbfile
      → read_table (print_summary f opt page_size stride e) ≡ some (summary_rows e)
  unfolding print_summary summary_rows
  print_summary-rows o e path =
      ap read_table (by_parts opt.hugetlbfile opt.seq e)
      ∙ read_table-print (summary_rows_of opt.hugetlbfile opt.seq e) (summary_rows-AllRows o e path)

  -- With the sequential pattern only the summary is printed.
  pub mem_output-sequential :
      OneLine
      → (threads : List Stress) (e : Ended) → opt.rand ≡ false
      → PathOk opt.hugetlbfile
      → read_table (mem_output f opt page_size stride threads e) ≡ some (summary_rows e)
  unfolding mem_output loop_ends
  mem_output-sequential o threads e sequential path =
      ap
        (λ b.
          read_table
            (loop_ends f opt page_size stride b threads ++ print_summary f opt page_size stride e))
        sequential
      ∙ print_summary-rows o e path

  loop_end-line :
      (s : Stress) (rest : Text)
      → loop_end f opt page_size stride s ++ rest
        ≡ (codes "loop end: t=" ++ f.fixed (f.of_usec s.wallclocktime)) ++ 10 ∷ rest
  unfolding loop_end
  loop_end-line s rest =
      let t = f.fixed (f.of_usec s.wallclocktime) in
      ap (λ x. codes "loop end: t=" ++ x) (append_assoc t (codes "\n") rest)

  ends-table :
      OneLine
      → (rand : Bool) (s : Stress) (threads : List Stress) (e : Ended) → PathOk opt.hugetlbfile
      → read_table (
          loop_ends f opt page_size stride rand (s ∷ threads)
          ++ print_summary f opt page_size stride e)
        ≡ (if rand then none else some (summary_rows e))
  unfolding loop_ends without
  ends-table o false s threads e path = print_summary-rows o e path
  ends-table o true s threads e path =
      let summary = print_summary f opt page_size stride e in
      let others = join_texts (map (loop_end f opt page_size stride) threads) in
      let t = f.fixed (f.of_usec s.wallclocktime) in
      let no_tab =
        without-append 9 (codes "loop end: t=") t refl (o.fixed_tab (f.of_usec s.wallclocktime)) in
      let no_newline =
        without-append 10 (codes "loop end: t=") t refl (o.fixed (f.of_usec s.wallclocktime)) in
      ap read_table (
        append_assoc (loop_end f opt page_size stride s) others summary
        ∙ loop_end-line s (others ++ summary))
      ∙ read_table-no_tab (codes "loop end: t=" ++ t) (others ++ summary) no_tab no_newline

  -- What the program prints is a table of its options and totals with the sequential pattern, and no
  -- table with the random one, as each thread has mem_output a line of another form before, if the text
  -- of a double has neither tab nor newline and the path of the file of huge pages has no newline.
  pub mem_output-table :
      OneLine
      → (s : Stress) (threads : List Stress) (e : Ended) → PathOk opt.hugetlbfile
      → read_table (mem_output f opt page_size stride (s ∷ threads) e)
        ≡ (if opt.rand then none else some (summary_rows e))
  unfolding mem_output
  mem_output-table o s threads e path = ends-table o opt.rand s threads e path

-- ===== src/Lock/Report/Table.antt =====
-- What src/micbench-lock.c prints, read as a table.
use micbench.Base.{
  ℕ, ◌+◌, ◌≡◌, refl, true, Option, none, some, List, [], ◌∷◌, ◌++◌, ok, arith, ap, ◌∙◌, subst,
  ok-injective, >>=-eq-ok,
}
use micbench.Base.Int.{ℤ, pos_part}
use micbench.Base.Text.{Text, codes, show_nat, show_int}
use micbench.Base.Table.{
  join_texts, print_table, read_table, without, AllRows, read_table-print, show_nat-without,
  show_int-without,
}
use micbench.Affinity.{Affinity}
use micbench.Affinity.Arguments.{Opt, thread_affinities}
use micbench.Affinity.Line.{affinity_to_string-without}
use micbench.Lock.Args.{LockOption, parse_args, TestMode, test_spinlock, test_mutex, test_mfence}
use micbench.Lock.Report.{
  Quotient, Counter, mode_str, affinity_str, affinity_strs, shown_affinities, affinity_pieces,
  counter_pieces, params_pieces, counters_of, lock_output, clocks_from, micbench_lock_main,
}

abbrev numbered : Text → ℕ → Text
numbered name i = name ++ show_nat i

affinity_rows : ℕ → (aff_strs : List Text) → List (Text × Text) → List (Text × Text)
affinity_rows i [] rest = rest
affinity_rows i (aff_str ∷ aff_strs) rest =
    (numbered (codes "affinity_") i, aff_str) ∷ affinity_rows (i + 1) aff_strs rest

-- None of the texts has a newline.
abbrev Lines : List Text → Type 0
Lines [] = Unit {0}
Lines (t ∷ ts) = (without 10 t ≡ true) × Lines ts

affinity_str-without :
    (aff : Option Affinity) (t : Text) → affinity_str aff ≡ ok t → without 10 t ≡ true
unfolding affinity_str without
affinity_str-without none t h = subst (λ x. without 10 x ≡ true) (ok-injective h) refl
affinity_str-without (some aff) t h = affinity_to_string-without aff t h

affinity_strs-Lines :
    (affs : List (Option Affinity)) (ts : List Text) → affinity_strs affs ≡ ok ts → Lines ts
unfolding affinity_strs
affinity_strs-Lines [] ts h = subst Lines (ok-injective h) tt
affinity_strs-Lines (aff ∷ affs) ts h =
    let (t, one, rest) = >>=-eq-ok (affinity_str aff) _ h in
    let (us, others, e) = >>=-eq-ok (affinity_strs affs) _ rest in
    subst Lines (ok-injective e)
      (affinity_str-without aff t one, affinity_strs-Lines affs us others)

shown_affinities-Lines :
    (array : Option (List (Option Affinity))) (affs : List (Option Affinity)) (ts : List Text)
    → shown_affinities array affs ≡ ok ts
    → Lines ts
unfolding shown_affinities
shown_affinities-Lines none affs ts h = subst Lines (ok-injective h) tt
shown_affinities-Lines (some array) affs ts h = affinity_strs-Lines affs ts h

module _ {D : Type 0} (q : Quotient D) (opt : LockOption) where
  counter_rows : ℕ → List Counter → List (Text × Text)
  counter_rows i [] = []
  counter_rows i (c ∷ cs) =
      (numbered (codes "clk_") i, show_int c.clk)
      ∷ ((numbered (codes "ops_") i, show_int c.ops)
          ∷ ((numbered (codes "clk_per_ops_") i, q.fixed (q.ratio c.clk c.ops))
              ∷ counter_rows (i + 1) cs))

  -- The options, the texts of the affinities if there are any, and the counters of each thread.
  pub report_rows : (aff_strs : List Text) → List Counter → List (Text × Text)
  unfolding affinity_rows counter_rows
  report_rows aff_strs counters =
      (codes "multiplicity", show_int opt.multi)
      ∷ ((codes "mode", mode_str opt.mode)
          ∷ ((codes "count", show_int opt.count)
              ∷ ((codes "critical_job_size", show_int opt.critical_job_size)
                  ∷ ((codes "noncritical_job_size", show_int opt.noncritical_job_size)
                      ∷ affinity_rows 0 aff_strs (counter_rows 0 counters)))))

  counter_pieces-rows :
      (i : ℕ) (cs : List Counter)
      → join_texts (counter_pieces q opt i cs) ≡ print_table (counter_rows i cs)
  unfolding counter_pieces counter_rows
  counter_pieces-rows i [] = refl
  counter_pieces-rows i (c ∷ cs) = rw (counter_pieces-rows (i + 1) cs) refl

  affinity_pieces-rows :
      (i : ℕ) (affs ts : List Text) (rows : List (Text × Text))
      → join_texts ts ≡ print_table rows
      → join_texts (affinity_pieces i affs ts) ≡ print_table (affinity_rows i affs rows)
  unfolding affinity_pieces affinity_rows
  affinity_pieces-rows i [] ts rows e = e
  affinity_pieces-rows i (aff ∷ affs) ts rows e =
      rw (affinity_pieces-rows (i + 1) affs ts rows e) refl

  text-rows :
      (affs : List Text) (cs : List Counter)
      → join_texts (params_pieces q opt (affinity_pieces 0 affs (counter_pieces q opt 0 cs)))
        ≡ print_table (report_rows affs cs)
  unfolding params_pieces report_rows
  text-rows affs cs =
      rw
        (affinity_pieces-rows 0 affs (counter_pieces q opt 0 cs) (counter_rows 0 cs)
          (counter_pieces-rows 0 cs))
        refl

  mode_str-without : (mode : TestMode) → without 10 (mode_str mode) ≡ true
  unfolding mode_str without
  mode_str-without test_spinlock = refl
  mode_str-without test_mutex = refl
  mode_str-without test_mfence = refl

  affinity_rows-AllRows :
      (i : ℕ) (affs : List Text) (rest : List (Text × Text))
      → Lines affs
      → AllRows rest
      → AllRows (affinity_rows i affs rest)
  unfolding affinity_rows without
  affinity_rows-AllRows i [] rest ls h = h
  affinity_rows-AllRows i (aff ∷ affs) rest (l, ls) h = (
    (show_nat-without 9 i (omega arith), show_nat-without 10 i (omega arith), l),
    affinity_rows-AllRows (i + 1) affs rest ls h,
  )

  counter_rows-AllRows :
      ((x : D) → without 10 (q.fixed x) ≡ true)
      → (i : ℕ) (cs : List Counter) → AllRows (counter_rows i cs)
  unfolding counter_rows without
  counter_rows-AllRows o i [] = tt
  counter_rows-AllRows o i (c ∷ cs) =
      let tab = show_nat-without 9 i (omega arith) in
      let newline = show_nat-without 10 i (omega arith) in
      (
        (tab, newline, show_int-without 10 c.clk (omega arith)),
        (
          (tab, newline, show_int-without 10 c.ops (omega arith)),
          ((tab, newline, o (q.ratio c.clk c.ops)), counter_rows-AllRows o (i + 1) cs),
        ),
      )

  report_rows-AllRows :
      ((x : D) → without 10 (q.fixed x) ≡ true)
      → (affs : List Text) (cs : List Counter) → Lines affs
      → AllRows (report_rows affs cs)
  unfolding report_rows without
  report_rows-AllRows o affs cs ls = (
    (refl, refl, show_int-without 10 opt.multi (omega arith)),
    (
      (refl, refl, mode_str-without opt.mode),
      (
        (refl, refl, show_int-without 10 opt.count (omega arith)),
        (
          (refl, refl, show_int-without 10 opt.critical_job_size (omega arith)),
          (
            (refl, refl, show_int-without 10 opt.noncritical_job_size (omega arith)),
            affinity_rows-AllRows 0 affs (counter_rows 0 cs) ls (counter_rows-AllRows o 0 cs),
          ),
        ),
      ),
    ),
  )

  lock_output-table :
      ((x : D) → without 10 (q.fixed x) ≡ true)
      → (affs : List (Option Affinity)) (aff_strs : List Text) (clocks : List (ℤ × ℤ))
      → thread_affinities opt.affinities (pos_part opt.multi) 0 ≡ ok affs
      → shown_affinities opt.affinities affs ≡ ok aff_strs
      → (text : Text) × (lock_output q opt clocks ≡ ok text)
        × (read_table text ≡ some (report_rows aff_strs (counters_of opt clocks)))
  unfolding lock_output
  lock_output-table o affs aff_strs clocks each shown =
      let text = join_texts (
        params_pieces q opt
          (affinity_pieces 0 aff_strs (counter_pieces q opt 0 (counters_of opt clocks)))) in
      (
        text,
        rw (each, shown) refl,
        ap read_table (text-rows aff_strs (counters_of opt clocks))
            ∙ read_table-print (report_rows aff_strs (counters_of opt clocks)) (
                report_rows-AllRows o aff_strs (counters_of opt clocks)
                  (shown_affinities-Lines opt.affinities affs aff_strs shown)),
      )

-- When `parse_args` accepts the options, the array of affinities that it has made, if any, has an entry
-- for each thread, the text of each mask of an affinity fits its buffer of 1024 bytes, and the text of a
-- double has no newline, what the program prints behind its threads is a table of its options, of the
-- text of the affinity of each thread if there are affinities, and of the counters of each thread.
pub micbench_lock_main-reports :
    {D : Type 0} (q : Quotient D)
    → ((x : D) → without 10 (q.fixed x) ≡ true)
    → (clock : ℕ → ℤ × ℤ) (opts : List Opt) (opt : LockOption) (affs : List (Option Affinity))
    → (aff_strs : List Text) → parse_args opts ≡ ok opt
    → thread_affinities opt.affinities (pos_part opt.multi) 0 ≡ ok affs
    → shown_affinities opt.affinities affs ≡ ok aff_strs
    → (text : Text) × (micbench_lock_main q clock opts ≡ ok text)
      × (read_table text
          ≡ some (
              report_rows q opt aff_strs
                (counters_of opt (clocks_from clock (pos_part opt.multi) 0))))
unfolding micbench_lock_main
micbench_lock_main-reports q o clock opts opt affs aff_strs accepted each shown =
    let clocks = clocks_from clock (pos_part opt.multi) 0 in
    let (text, printed, rows) = lock_output-table q opt o affs aff_strs clocks each shown in
    (text, rw accepted printed, rows)

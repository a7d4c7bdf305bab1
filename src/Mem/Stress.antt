-- ===== src/Mem/Stress.antt =====
-- The area that `main` of src/micbench-mem.c maps and the measured loop of `do_memory_stress_seq` over
-- it. The two inner loops are generated when the program is built: of their code the model takes the
-- constants that come with it, and that a run of it touches the region at `ptr` and moves `ptr` behind
-- it. The clocks are parameters.
pub mod Within
pub mod Counts
pub mod Ticks
use micbench.Base.{
  ℕ, zero, suc, ◌+◌, ◌*◌, ◌-◌, ◌/◌, ◌%◌, ◌^◌, Option, none, some, List, [], ◌∷◌, ◌++◌, ltb, ◌==◌,
  if◌then◌else◌, Outcome, ok, fault,
}
use micbench.Base.Int.{ℤ, pos, ltb_ℤ}

-- `mmap_size`: the size rounded up to whole pages; the remainder by 0 is a trap.
unfoldable pub mapped_size : (size align : ℕ) → Outcome ℕ
mapped_size size align =
    if align == 0
    then fault
    else if size % align == 0
    then ok size
    else ok ((size + (align - size % align)) % 2 ^ 64)

-- The constants of a generated inner loop, sizes in bytes.
pub record InnerLoop : Type 0 where
  pub num_ops : ℕ
  pub region_size : ℕ

-- What mb_elapsed_usec_from gives at each look, and mb_read_tsc before and behind each round.
pub record Clocks : Type 0 where
  pub elapsed : ℕ → ℤ
  pub t0 : ℕ → ℕ
  pub t1 : ℕ → ℕ

-- `perf_counter_t`, and the regions that the inner loop has touched so far, each by its offset in the
-- area. The time is in microseconds.
pub record Stress : Type 0 where
  pub ops : ℕ
  pub clk : ℕ
  pub wallclocktime : ℤ
  pub touched : List ℕ

-- `iter_count` of `do_memory_stress_seq`
pub iterations : (working_size : ℕ) → ℕ
iterations working_size = if 2 ^ 33 / working_size == 0 then 1 else 2 ^ 33 / working_size

module _ (inner : InnerLoop) (working_size : ℕ) where
  open inner use {num_ops, region_size}

  -- The loop over the area, with fuel for each region, at `ptr`: the regions that it touches.
  pub pass : (fuel ptr : ℕ) → Option (List ℕ)
  pass zero ptr = none
  pass (suc fuel) ptr =
      let rest = pass fuel (ptr + region_size) in
      if ltb ptr (working_size / 8 * 8)
      then elim rest [ none ↦ none | some ps ↦ some (ptr ∷ ps) ]
      else some []

  -- `n` times the loop over the area.
  pub passes : (fuel n : ℕ) → Option (List ℕ)
  passes fuel zero = some []
  passes fuel (suc n) =
      let rest = passes fuel n in
      elim (pass fuel 0) [
        | none ↦ none
        | some ps ↦ elim rest [ none ↦ none | some qs ↦ some (ps ++ qs) ]
      ]

  -- What a round between two looks at the clock adds to the counters.
  pub count_round : Clocks → (i : ℕ) → Stress → List ℕ → Stress
  count_round clocks i s ps = record s {
    ops = (s.ops + num_ops * (working_size / region_size) * iterations working_size) % 2 ^ 64;
    clk = (s.clk + (clocks.t1 i + 2 ^ 64 - clocks.t0 i)) % 2 ^ 64;
    touched = s.touched ++ ps;
  }

  -- The loop until the timeout, at the look `i`; `area_fuel` is given to each loop over the area.
  pub measure : (timeout : ℤ) → Clocks → (area_fuel fuel i : ℕ) → Stress → Option (Outcome Stress)
  measure timeout clocks area_fuel zero i s = none
  measure timeout clocks area_fuel (suc fuel) i s =
      let more : Option (Outcome Stress) = elim (passes area_fuel (iterations working_size)) [
        | none ↦ none
        | some ps ↦ measure timeout clocks area_fuel fuel (i + 1) (count_round clocks i s ps)
      ] in
      if ltb_ℤ (clocks.elapsed i) timeout
      then more
      else some (ok (record s { wallclocktime = clocks.elapsed i }))

-- The counters as `main` sets them.
abbrev pub fresh : Stress
fresh = record { ops = 0; clk = 0; wallclocktime = pos 0; touched = [] }

-- `do_memory_stress_seq`: areas below 1024 bytes have an inner loop of their own; an empty area is a
-- division by 0.
pub stress_seq :
    (short long : InnerLoop) (working_size : ℕ) (timeout : ℤ)
    → Clocks
    → (area_fuel fuel : ℕ) → Option (Outcome Stress)
stress_seq short long working_size timeout clocks area_fuel fuel =
    if working_size == 0
    then some fault
    else if ltb working_size 1024
    then measure short working_size timeout clocks area_fuel fuel 0 fresh
    else measure long working_size timeout clocks area_fuel fuel 0 fresh

-- ===== src/Mem/Lines/Shuffle.antt =====
-- The shuffle of `do_memory_stress_rand` as a whole, and the preparation of the area.
use micbench.Base.{
  ℕ, zero, suc, ◌+◌, ◌*◌, ◌-◌, ◌/◌, ◌^◌, ◌≤◌, ◌<◌, ◌≡◌, refl, none, some, arith, ok, ltb, ap, sym,
  ◌∙◌, Bool-cases, inl, inr,
}
use micbench.Base.Int.{to_ulong}
use micbench.Rand.{Machine, rand_range_ulong}
use micbench.Rand.Below.{DrawsBelow, rand_range_ulong_below}
use micbench.Mem.Lines.{Longs, write, load, attempt, shuffle, arrange, prepare}
use micbench.Mem.Lines.Swap.{exchanged, exchange-ok}
use micbench.Mem.Lines.Cycle.{IsCycle, attempt-IsCycle}
use micbench.Mem.Lines.Ring.{make_ring-IsCycle, check_ring-IsCycle}

module _ (m : Machine) (law : DrawsBelow m) where
  -- On a cycle of two lines or more the shuffle never tries twice: fuel for each line and one step more
  -- is enough for it to end, inside the area, with a cycle of all the lines.
  shuffle-IsCycle :
      (n size fuel i : ℕ) (rand : m.Seed) (h : Longs)
      → IsCycle n h
      → n * 8 ≤ size
      → 2 ≤ n
      → n ≤ 2 ^ 53
      → i ≤ n
      → n < fuel + i
      → (h' : Longs) × (shuffle size m n fuel i rand h ≡ some (ok h')) × IsCycle n h'
  unfolding shuffle
  shuffle-IsCycle n size zero i rand h c fits two small le enough = absurd (omega arith)
  shuffle-IsCycle n size (suc fuel) i rand h c fits two small le enough =
      elim (Bool-cases (ltb i n)) [
        | inr done ↦ (h, rw done, c)
        | inl more ↦
            let li : i < n = ground arith in
            let drawn = rand_range_ulong m rand 0 (n - i) in
            let below = rand_range_ulong_below m law rand (n - i) (omega arith) (omega arith) in
            let (h₁, run, c₁) =
              attempt-IsCycle c size i (i + to_ulong drawn.0) fits two li (omega arith) in
            let (h', rest, c') =
              shuffle-IsCycle n size fuel (i + 1) drawn.1 h₁ c₁ fits two small (omega arith)
                (omega arith) in
            (h', rw (more, run) rest, c')
      ]

  pub arrange-IsCycle :
      (n fuel : ℕ) (rand : m.Seed) (h : Longs)
      → 2 ≤ n
      → n ≤ 2 ^ 53
      → n < fuel
      → (h' : Longs) × (arrange m (n * 64) fuel rand h ≡ some (ok h')) × IsCycle n h'
  unfolding arrange
  arrange-IsCycle n fuel rand h two small enough =
      let (h₁, made, c₁) = make_ring-IsCycle n h (omega arith) in
      let (h₂, shuffled, c₂) =
        shuffle-IsCycle n (n * 8) fuel 0 rand h₁ c₁ (omega arith) two small (omega arith)
          (omega arith) in
      let longs : n * 64 / 8 ≡ n * 8 = omega arith in
      let lines : n * 64 / 64 ≡ n = omega arith in (h₂, rw (longs, lines, made) shuffled, c₂)

  -- On a working area of two cache lines or more, a whole number of them, the preparation of
  -- `do_memory_stress_rand` ends with the fuel of one step more than there are lines, stays inside the
  -- area, and passes its check: the pointers go through every line once.
  pub prepare-count :
      (n fuel : ℕ) (rand : m.Seed) (h : Longs)
      → 2 ≤ n
      → n ≤ 2 ^ 53
      → n < fuel
      → prepare m (n * 64) fuel rand h ≡ some (ok n)
  unfolding prepare
  prepare-count n fuel rand h two small enough =
      let (h', run, c) = arrange-IsCycle n fuel rand h two small enough in
      let longs : n * 64 / 8 ≡ n * 8 = omega arith in
      let lines : n * 64 / 64 ≡ n = omega arith in
      rw (longs, lines, run)
        (check_ring-IsCycle n (n * 8) fuel h' c (omega arith) (omega arith) (omega arith))

  shuffle-own_successor :
      (fuel : ℕ) (rand : m.Seed) (h : Longs) → h 0 ≡ 0 → shuffle 8 m 1 fuel 0 rand h ≡ none
  unfolding shuffle attempt load
  shuffle-own_successor zero rand h own = refl
  shuffle-own_successor (suc fuel) rand h own =
      let below = rand_range_ulong_below m law rand 1 (omega arith) (omega arith) in
      let drawn : (0 + to_ulong (rand_range_ulong m rand 0 1).0) * 8 ≡ 0 = omega arith in
      let h' = exchanged h 0 0 0 0 in
      let same : h' 0 ≡ 0 = unfold exchanged write in ground arith in
      let run = exchange-ok 8 h 0 0 0 0 (omega arith) (omega arith) (omega arith) (omega arith) in
      rw (drawn, own, run, same)
        (shuffle-own_successor fuel (rand_range_ulong m rand 0 1).1 h' same)

  -- On a working area of one cache line the shuffle tries for ever, whatever the fuel.
  pub prepare-one_line : (fuel : ℕ) (rand : m.Seed) (h : Longs) → prepare m 64 fuel rand h ≡ none
  unfolding prepare arrange
  prepare-one_line fuel rand h =
      let (h₁, made, c) = make_ring-IsCycle 1 h (omega arith) in
      let begins = c.found 0 (omega arith) in
      let e : 1 + c.at 0 ≡ suc (c.at 0) = omega arith in
      let back : c.spot (suc (c.at 0)) ≡ c.spot (c.at 0) = rw e at (c.period (c.at 0)) in
      let own : h₁ 0 ≡ 0 = ap h₁ (sym begins) ∙ c.linked (c.at 0) ∙ back ∙ begins in
      rw (made, shuffle-own_successor fuel rand h₁ own) refl

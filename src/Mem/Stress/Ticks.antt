-- ===== src/Mem/Stress/Ticks.antt =====
-- The clocks of the sequential loop.
use micbench.Base.{
  ℕ, zero, suc, ◌+◌, ◌-◌, ◌%◌, ◌^◌, ◌<◌, ◌≡◌, true, false, some, ltb, if◌then◌else◌, ok, arith,
  ok-injective, Option-cases, inl, inr, some-injective, ap, ◌∙◌, sym,
}
use micbench.Base.Int.{ℤ, ltb_ℤ}
use micbench.Mem.Stress.{
  InnerLoop, Clocks, Stress, iterations, passes, count_round, measure, fresh, stress_seq,
}
use micbench.Mem.Stress.Counts.{stress_seq-measure}

-- The ticks of `n` rounds, from the round `i` on: each is a difference modulo 2 ^ 64.
pub ticks : Clocks → (n i : ℕ) → ℕ
ticks clocks zero i = 0
ticks clocks (suc n) i = (clocks.t1 i + 2 ^ 64 - clocks.t0 i) + ticks clocks n (i + 1)

module _ (inner : InnerLoop) (working_size : ℕ) (timeout : ℤ) (clocks : Clocks) (k : ℕ)
    (before : (j : ℕ) → j < k → ltb_ℤ (clocks.elapsed j) timeout ≡ true)
    (after : ltb_ℤ (clocks.elapsed k) timeout ≡ false) where
  measure-ticks :
      (area_fuel fuel i d : ℕ) (s s' : Stress)
      → i + d ≡ k
      → s.clk < 2 ^ 64
      → measure inner working_size timeout clocks area_fuel fuel i s ≡ some (ok s')
      → (s'.clk ≡ (s.clk + ticks clocks d i) % 2 ^ 64) × (s'.wallclocktime ≡ clocks.elapsed k)
  unfolding measure count_round ticks
  measure-ticks area_fuel zero i d s s' at small h = cc
  measure-ticks area_fuel (suc fuel) i zero s s' at small h =
      let here : i ≡ k = omega arith in
      let over : ltb_ℤ (clocks.elapsed i) timeout ≡ false = rw here after in
      let same = ok-injective (some-injective (rw over at h)) in
      (
        omega (arith, ap (λ (x : Stress). x.clk) same),
        sym (ap (λ (x : Stress). x.wallclocktime) same) ∙ ap clocks.elapsed here,
      )
  measure-ticks area_fuel (suc fuel) i (suc d) s s' at small h =
      let time = before i (omega arith) in
      elim (Option-cases (passes inner working_size area_fuel (iterations working_size))) [
        | inl short ↦ cc (rw (time, short) at h)
        | inr (ps, run) ↦
            let s₁ = count_round inner working_size clocks i s ps in
            let (clk, wall) =
              measure-ticks area_fuel fuel (i + 1) d s₁ s' (omega arith) (omega arith)
                (rw (time, run) at h) in
            (omega arith, wall)
      ]

-- A run of the sequential loop that ends at the look `k` leaves the ticks of its rounds, modulo 2 ^ 64, and
-- the time of that look.
pub stress_seq-ticks :
    (short long : InnerLoop) (size : ℕ) (timeout : ℤ) (clocks : Clocks) (area_fuel fuel k : ℕ)
    (s : Stress)
    → 0 < size
    → ((j : ℕ) → j < k → ltb_ℤ (clocks.elapsed j) timeout ≡ true)
    → ltb_ℤ (clocks.elapsed k) timeout ≡ false
    → stress_seq short long size timeout clocks area_fuel fuel ≡ some (ok s)
    → (s.clk ≡ ticks clocks k 0 % 2 ^ 64) × (s.wallclocktime ≡ clocks.elapsed k)
stress_seq-ticks short long size timeout clocks area_fuel fuel k s some_size before after h =
    let inner = if ltb size 1024 then short else long in
    let run =
      sym (stress_seq-measure short long size timeout clocks area_fuel fuel some_size) ∙ h in
    let (clk, wall) =
      measure-ticks inner size timeout clocks k before after area_fuel fuel 0 k fresh s
        (omega arith) (omega arith) run in
    (omega arith, wall)

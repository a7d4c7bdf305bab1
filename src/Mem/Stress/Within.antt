-- ===== src/Mem/Stress/Within.antt =====
-- Where the sequential loops go.
use micbench.Base.{
  ℕ, zero, suc, ◌+◌, ◌*◌, ◌/◌, ◌%◌, ◌^◌, ◌≤◌, ◌<◌, ◌≡◌, refl, true, false, some, List, [], ◌∷◌,
  ◌++◌, ltb, ◌==◌, if◌then◌else◌, ok, arith, Bool-cases, inl, inr, ap,
}
use native.Mathlib.Nat.{div-add-mod, mod-lt}
use micbench.Base.Products.{mul_mono, lt_of_mul, mul_suc}
use micbench.Base.Int.{ℤ, ltb_ℤ}
use micbench.Mem.Stress.{
  mapped_size, InnerLoop, Clocks, Stress, iterations, pass, passes, count_round, measure, fresh,
  stress_seq,
}

-- Each of the regions at `ps`, `region` bytes long, ends within `bound` bytes.
abbrev pub Inside : (region bound : ℕ) → List ℕ → Type 0
Inside region bound [] = Unit {0}
Inside region bound (p ∷ ps) = (p + region ≤ bound) × Inside region bound ps

pub Inside-append :
    (region bound : ℕ) (ps qs : List ℕ)
    → Inside region bound ps
    → Inside region bound qs
    → Inside region bound (ps ++ qs)
Inside-append region bound [] qs h k = k
Inside-append region bound (p ∷ ps) qs (first, h) k = (first, Inside-append region bound ps qs h k)

module _ (inner : InnerLoop) (working_size : ℕ) where
  open inner use {num_ops, region_size}

  -- From the region `k` on, the loop ends, and stays within `c` regions if the area does.
  pass-Inside :
      (c fuel k ptr : ℕ)
      → ptr ≡ k * region_size
      → 0 < region_size
      → working_size ≤ c * region_size
      → 0 < fuel
      → working_size < fuel + ptr
      → (ps : List ℕ) × (pass inner working_size fuel ptr ≡ some ps)
        × Inside region_size (c * region_size) ps
  unfolding pass
  pass-Inside c zero k ptr e some_region fits some_fuel enough = absurd (omega arith)
  pass-Inside c (suc fuel) k ptr e some_region fits some_fuel enough =
      elim (Bool-cases (ltb ptr (working_size / 8 * 8))) [
        | inr done ↦ ([], rw done refl, tt)
        | inl more ↦
            let next = mul_suc k region_size in
            let below : k * region_size < c * region_size = ground arith in
            let room =
              mul_mono (k + 1) c region_size (omega (arith, lt_of_mul k c region_size below)) in
            let (ps, run, h) =
              pass-Inside c fuel (k + 1) (ptr + region_size) (omega (arith, e, next)) some_region
                fits (ground arith) (omega arith) in
            (ptr ∷ ps, rw (more, run) refl, (omega (arith, e, next, room), h))
      ]

  passes-Inside :
      (c fuel n : ℕ)
      → 0 < region_size
      → working_size ≤ c * region_size
      → working_size < fuel
      → (ps : List ℕ) × (passes inner working_size fuel n ≡ some ps)
        × Inside region_size (c * region_size) ps
  unfolding passes
  passes-Inside c fuel zero some_region fits enough = ([], refl, tt)
  passes-Inside c fuel (suc n) some_region fits enough =
      let (ps, run, h) =
        pass-Inside c fuel 0 0 (omega arith) some_region fits (omega arith) (omega arith) in
      let (qs, rest, h') = passes-Inside c fuel n some_region fits enough in
      (
        ps ++ qs,
        rw (passes, run, rest) refl,
        Inside-append region_size (c * region_size) ps qs h h',
      )

  -- The timed loop ends at the first look that finds the timeout reached.
  measure-Inside :
      (c : ℕ) (timeout : ℤ) (clocks : Clocks) (area_fuel fuel k i d : ℕ) (s : Stress)
      → 0 < region_size
      → working_size ≤ c * region_size
      → working_size < area_fuel
      → i + d ≡ k
      → d < fuel
      → ((j : ℕ) → j < k → ltb_ℤ (clocks.elapsed j) timeout ≡ true)
      → ltb_ℤ (clocks.elapsed k) timeout ≡ false
      → Inside region_size (c * region_size) s.touched
      → (s' : Stress) × (measure inner working_size timeout clocks area_fuel fuel i s
          ≡ some (ok s'))
        × Inside region_size (c * region_size) s'.touched
  unfolding measure count_round
  measure-Inside c timeout clocks area_fuel zero k i d s some_region fits enough at less before
        after h =
      absurd (omega arith)
  measure-Inside c timeout clocks area_fuel (suc fuel) k i zero s some_region fits enough at less
        before after h =
      let here : i ≡ k = omega arith in
      (record s { wallclocktime = clocks.elapsed i }, rw (here, after) refl, h)
  measure-Inside c timeout clocks area_fuel (suc fuel) k i (suc d) s some_region fits enough at less
        before after h =
      let (ps, run, h') =
        passes-Inside c area_fuel (iterations working_size) some_region fits enough in
      let s₁ = count_round inner working_size clocks i s ps in
      let (s', rest, h'') =
        measure-Inside c timeout clocks area_fuel fuel k (i + 1) d s₁ some_region fits enough
          (omega arith) (omega arith) before after
          (Inside-append region_size (c * region_size) s.touched ps h h') in
      (s', rw (measure, before i (omega arith), run) rest, h'')

-- The pages that are mapped hold the area, less than a page is left over, and they are whole.
pub mapped_size_lem :
    (size align : ℕ)
    → 0 < align
    → size + align ≤ 2 ^ 64
    → (c : ℕ) × (mapped_size size align ≡ ok (c * align))
      × (size ≤ c * align)
      × (c * align < size + align)
unfolding mapped_size
mapped_size_lem size align some_page small =
    let parts = div-add-mod size align in
    let short = mod-lt size some_page in
    let empty : (align == 0) ≡ false = ground arith in
    elim (Bool-cases (size % align == 0)) [
      | inl whole ↦
          (size / align, rw (empty, whole) (ap ok (grind arith)), grind arith, grind arith)
      | inr over ↦
          let more = mul_suc (size / align) align in
          (
            size / align + 1,
            rw (empty, over) (ap ok (ground (arith, more, parts, short))),
            ground arith,
            ground arith,
          )
    ]

-- At any size of the area the sequential loop ends as soon as a look at the clock finds the timeout
-- reached. If a page is a whole number of regions, no region that it touches reaches beyond the pages
-- that `main` has mapped, although it may reach beyond the size asked for.
pub stress_seq-Inside :
    (short long : InnerLoop) (size align a b : ℕ) (timeout : ℤ) (clocks : Clocks)
    (area_fuel fuel k : ℕ)
    → 0 < size
    → 0 < align
    → size + align ≤ 2 ^ 64
    → 0 < short.region_size
    → 0 < long.region_size
    → align ≡ a * short.region_size
    → align ≡ b * long.region_size
    → size < area_fuel
    → k < fuel
    → ((j : ℕ) → j < k → ltb_ℤ (clocks.elapsed j) timeout ≡ true)
    → ltb_ℤ (clocks.elapsed k) timeout ≡ false
    → (mapped : ℕ) × (s : Stress) × (mapped_size size align ≡ ok mapped)
      × (stress_seq short long size timeout clocks area_fuel fuel ≡ some (ok s))
      × Inside (if ltb size 1024 then short.region_size else long.region_size) mapped s.touched
unfolding stress_seq
stress_seq-Inside short long size align a b timeout clocks area_fuel fuel k some_size some_page
      small rs rl ea eb af enough before after =
    let (c, mapped, fits, near) = mapped_size_lem size align some_page small in
    let some_area : (size == 0) ≡ false = ground arith in
    elim (Bool-cases (ltb size 1024)) [
      | inl is_short ↦
          let e : c * align ≡ (c * a) * short.region_size = grind arith in
          let (s, run, h) =
            measure-Inside short size (c * a) timeout clocks area_fuel fuel k 0 k fresh rs
              (omega arith) af (omega arith) enough before after tt in
          (c * align, s, mapped, rw (some_area, is_short) run, rw (is_short, e) h)
      | inr is_long ↦
          let e : c * align ≡ (c * b) * long.region_size = grind arith in
          let (s, run, h) =
            measure-Inside long size (c * b) timeout clocks area_fuel fuel k 0 k fresh rl
              (omega arith) af (omega arith) enough before after tt in
          (c * align, s, mapped, rw (some_area, is_long) run, rw (is_long, e) h)
    ]

-- ===== src/Mem/Stress/Counts.antt =====
-- What the counters of the sequential loop come to.
use micbench.Base.{
  ℕ, zero, suc, ◌+◌, ◌*◌, ◌/◌, ◌%◌, ◌^◌, ◌<◌, ◌≡◌, refl, true, false, some, List, [], ◌∷◌, ◌++◌,
  length, ltb, ◌==◌, if◌then◌else◌, ok, arith, Bool-cases, inl, inr, length-append, sym, ap, ◌∙◌,
}
use micbench.Base.Products.{mul_pos, div_whole, mul_suc}
use micbench.Base.Int.{ℤ, ltb_ℤ}
use micbench.Mem.Stress.{
  InnerLoop, Clocks, Stress, iterations, pass, passes, count_round, measure, fresh, stress_seq,
}

module _ (inner : InnerLoop) (working_size n : ℕ) (some_region : 0 < inner.region_size)
    (whole : working_size ≡ n * inner.region_size) (longs : working_size % 8 ≡ 0) where
  open inner use {num_ops, region_size}

  pass-length :
      (fuel d k ptr : ℕ)
      → ptr ≡ k * region_size
      → k + d ≡ n
      → d < fuel
      → (ps : List ℕ) × (pass inner working_size fuel ptr ≡ some ps) × (length ps ≡ d)
  unfolding pass
  pass-length zero d k ptr e at enough = absurd (omega arith)
  pass-length (suc fuel) zero k ptr e at enough =
      let here : ptr ≡ working_size = e ∙ ap (λ x. x * region_size) (omega arith) ∙ sym whole in
      let done : ltb ptr (working_size / 8 * 8) ≡ false = ground arith in ([], rw done refl, refl)
  pass-length (suc fuel) (suc d) k ptr e at enough =
      let next = mul_suc k region_size in
      let split : n * region_size ≡ k * region_size + suc d * region_size =
        ap (λ x. x * region_size) (sym at) ∙ (grind arith) in
      let left = mul_pos (suc d) region_size (omega arith) some_region in
      let more : ltb ptr (working_size / 8 * 8) ≡ true = ground (arith, whole, split, left, e) in
      let (ps, run, h) =
        pass-length fuel d (k + 1) (ptr + region_size) (omega (arith, e, next)) (omega arith)
          (omega arith) in
      (ptr ∷ ps, rw (more, run) refl, ap suc h)

  passes-length :
      (area_fuel m : ℕ)
      → n < area_fuel
      → (ps : List ℕ) × (passes inner working_size area_fuel m ≡ some ps) × (length ps ≡ m * n)
  unfolding passes
  passes-length area_fuel zero enough = ([], refl, omega arith)
  passes-length area_fuel (suc m) enough =
      let (ps, run, h) = pass-length area_fuel n 0 0 (omega arith) (omega arith) enough in
      let (qs, rest, h') = passes-length area_fuel m enough in
      (ps ++ qs, rw (passes, run, rest) refl, grind (arith, length-append ps qs, h, h'))

  count_step :
      (ops l m : ℕ)
      → ops ≡ (num_ops * l) % 2 ^ 64
      → (ops + num_ops * (working_size / region_size) * m) % 2 ^ 64
        ≡ (num_ops * (l + m * n)) % 2 ^ 64
  count_step ops l m e =
      let per_pass : working_size / region_size ≡ n =
        ap (λ x. x / region_size) whole ∙ div_whole n region_size some_region in
      let spread : num_ops * (l + m * n) ≡ num_ops * l + num_ops * n * m = grind arith in
      rw (per_pass, spread, e) (omega arith)

  measure-length :
      (timeout : ℤ) (clocks : Clocks) (area_fuel fuel k i d : ℕ) (s : Stress)
      → n < area_fuel
      → i + d ≡ k
      → d < fuel
      → ((j : ℕ) → j < k → ltb_ℤ (clocks.elapsed j) timeout ≡ true)
      → ltb_ℤ (clocks.elapsed k) timeout ≡ false
      → s.ops ≡ (num_ops * length s.touched) % 2 ^ 64
      → (s' : Stress) × (measure inner working_size timeout clocks area_fuel fuel i s
          ≡ some (ok s'))
        × (s'.ops ≡ (num_ops * length s'.touched) % 2 ^ 64)
        × (length s'.touched ≡ length s.touched + d * (iterations working_size * n))
  unfolding measure count_round
  measure-length timeout clocks area_fuel zero k i d s af at enough before after h =
      absurd (omega arith)
  measure-length timeout clocks area_fuel (suc fuel) k i zero s af at enough before after h =
      let here : i ≡ k = omega arith in
      (record s { wallclocktime = clocks.elapsed i }, rw (here, after) refl, h, omega arith)
  measure-length timeout clocks area_fuel (suc fuel) k i (suc d) s af at enough before after h =
      let m = iterations working_size in
      let (ps, run, len) = passes-length area_fuel m af in
      let s₁ = count_round inner working_size clocks i s ps in
      let joined : length s₁.touched ≡ length s.touched + m * n =
        length-append s.touched ps ∙ ap (λ x. length s.touched + x) len in
      let counted : s₁.ops ≡ (num_ops * length s₁.touched) % 2 ^ 64 =
        rw joined (count_step s.ops (length s.touched) m h) in
      let (s', rest, h', total) =
        measure-length timeout clocks area_fuel fuel k (i + 1) d s₁ af (omega arith) (omega arith)
          before after counted in
      (s', rw (measure, before i (omega arith), run) rest, h', grind (arith, total, joined))

pub stress_seq-measure :
    (short long : InnerLoop) (size : ℕ) (timeout : ℤ) (clocks : Clocks) (area_fuel fuel : ℕ)
    → 0 < size
    → stress_seq short long size timeout clocks area_fuel fuel
      ≡ measure (if ltb size 1024 then short else long) size timeout clocks area_fuel fuel 0 fresh
unfolding stress_seq
stress_seq-measure short long size timeout clocks area_fuel fuel some_size =
    let some_area : (size == 0) ≡ false = ground arith in
    elim (Bool-cases (ltb size 1024)) [
      | inl is_short ↦ rw (some_area, is_short) refl
      | inr is_long ↦ rw (some_area, is_long) refl
    ]

-- If the size is a whole number of longs and of regions, the sequential loop ends as soon as a look at
-- the clock finds the timeout reached, has gone over the whole area `iter_count` times between two
-- looks, and the counter holds the operations of all the regions that it has touched, modulo 2 ^ 64.
pub stress_seq-counts :
    (short long : InnerLoop) (size n : ℕ) (timeout : ℤ) (clocks : Clocks) (area_fuel fuel k : ℕ)
    → let inner = if ltb size 1024 then short else long in
      0 < size
      → 0 < inner.region_size
      → size ≡ n * inner.region_size
      → size % 8 ≡ 0
      → n < area_fuel
      → k < fuel
      → ((j : ℕ) → j < k → ltb_ℤ (clocks.elapsed j) timeout ≡ true)
      → ltb_ℤ (clocks.elapsed k) timeout ≡ false
      → (s : Stress) × (stress_seq short long size timeout clocks area_fuel fuel ≡ some (ok s))
        × (s.ops ≡ (inner.num_ops * length s.touched) % 2 ^ 64)
        × (length s.touched ≡ k * (iterations size * n))
stress_seq-counts short long size n timeout clocks area_fuel fuel k some_size rs whole longs af
      enough before after =
    let inner = if ltb size 1024 then short else long in
    let (s, run, counted, total) =
      measure-length inner size n rs whole longs timeout clocks area_fuel fuel k 0 k fresh af
        (omega arith) enough before after (omega arith) in
    (
      s,
      stress_seq-measure short long size timeout clocks area_fuel fuel some_size ∙ run,
      counted,
      omega (arith, total),
    )

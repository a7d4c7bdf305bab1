-- ===== src/Rand/Bounds.antt =====
-- The values of `mb_rand_range_long`.
use micbench.Base.{◌≡◌, arith, subst, ap, ◌∙◌}
use micbench.Base.Int.{ℤ, pos, ◌+ℤ◌, ◌-ℤ◌, ◌≤ℤ◌, int_laws}
use micbench.Rand.{Machine, Exact, IsRounding, rand_range_long}

module _ (m : Machine) (law : IsRounding m) where
  -- A draw from a range whose ends and width a double holds exactly lies in the range, both ends
  -- included.
  pub rand_range_long_bounds :
      (rand : m.Seed) (from to : ℤ)
      → Exact from
      → Exact to
      → Exact (to -ℤ from)
      → from ≤ℤ to
      → (from ≤ℤ (rand_range_long m rand from to).0) × ((rand_range_long m rand from to).0 ≤ℤ to)
  unfolding rand_range_long
  rand_range_long_bounds rand from to ef et ew le =
      let width = to -ℤ from in
      let r = (m.drand48_r rand).0 in
      let zero_le : pos 0 ≤ℤ width = omega int_laws in
      let nonneg = law.of_long_mono (pos 0) width zero_le in
      let lo = law.mul_mono (m.of_long (pos 0)) r (m.of_long width) nonneg (law.draw_lo rand) in
      let hi = law.mul_mono r (m.of_long (pos 1)) (m.of_long width) nonneg (law.draw_hi rand) in
      let lo' = subst (λ x. law.Le x (m.mul r (m.of_long width))) (law.mul_zero width ew) lo in
      let hi' = subst (λ x. law.Le (m.mul r (m.of_long width)) x) (law.mul_one width ew) hi in
      let from_eq : pos 0 +ℤ from ≡ from = omega int_laws in
      let to_eq : width +ℤ from ≡ to = omega int_laws in
      let at_lo = law.add_exact (pos 0) from (omega arith) ef (rw from_eq ef) in
      let at_hi = law.add_exact width from ew ef (rw to_eq et) in
      let low = law.to_long_mono _ _ (law.add_mono _ _ (m.of_long from) lo') in
      let high = law.to_long_mono _ _ (law.add_mono _ _ (m.of_long from) hi') in
      (
        subst (λ z. z ≤ℤ (rand_range_long m rand from to).0)
            (ap m.to_long (at_lo ∙ ap m.of_long from_eq) ∙ law.to_long_of_long from ef) low,
        subst (λ z. (rand_range_long m rand from to).0 ≤ℤ z)
            (ap m.to_long (at_hi ∙ ap m.of_long to_eq) ∙ law.to_long_of_long to et) high,
      )

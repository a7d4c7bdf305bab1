-- ===== src/Rand/Below.antt =====
-- The values of `mb_rand_range_ulong` from 0 on.
use micbench.Base.{ℕ, ◌+◌, ◌-◌, ◌%◌, ◌^◌, ◌≤◌, ◌<◌, ◌≡◌, arith}
use micbench.Base.Int.{ℤ, pos, negsuc, to_ulong, ◌+ℤ◌, ◌≤ℤ◌}
use micbench.Rand.{Machine, Exact, rand_range_ulong}

-- A draw is not below 0 and at most 1 - 2 ^ -48, so that its product with a positive number is not below
-- 0 either and lies below the number, also after rounding; a number below a positive integer is cut to
-- an integer below it; and 0 adds nothing.
pub record DrawsBelow (m : Machine) : Type 1 where
  pub Lt : m.Double → m.Double → Type 0
  pub mul_lt :
      (s : m.Seed) (w : ℕ)
      → 0 < w
      → Exact (pos w)
      → Lt (m.mul (m.drand48_r s).0 (m.of_long (pos w))) (m.of_long (pos w))
  pub mul_nonneg :
      (s : m.Seed) (w : ℕ)
      → Exact (pos w)
      → pos 0 ≤ℤ m.to_long (m.mul (m.drand48_r s).0 (m.of_long (pos w)))
  pub to_long_lt :
      (x : m.Double) (w : ℕ)
      → 0 < w
      → Exact (pos w)
      → Lt x (m.of_long (pos w))
      → m.to_long x +ℤ pos 1 ≤ℤ pos w
  pub add_zero : (x : m.Double) → m.add x (m.of_long (pos 0)) ≡ x

to_ulong-lt : (z : ℤ) (w : ℕ) → w ≤ 2 ^ 53 → pos 0 ≤ℤ z → z +ℤ pos 1 ≤ℤ pos w → to_ulong z < w
unfolding ◌+ℤ◌
to_ulong-lt (pos n) w small nonneg le = let below : n < w = ground arith in omega arith
to_ulong-lt (negsuc n) w small nonneg le = absurd (omega arith)

pub rand_range_ulong_below :
    (m : Machine)
    → DrawsBelow m
    → (rand : m.Seed) (w : ℕ) → 0 < w
    → w ≤ 2 ^ 53
    → to_ulong (rand_range_ulong m rand 0 w).0 < w
unfolding rand_range_ulong
rand_range_ulong_below m law rand w some_width small =
    let exact : Exact (pos w) = (omega arith, omega arith) in
    let width : (w + 2 ^ 64 - 0) % 2 ^ 64 ≡ w = omega arith in
    let product = m.mul (m.drand48_r rand).0 (m.of_long (pos w)) in
    let cut = law.to_long_lt product w some_width exact (law.mul_lt rand w some_width exact) in
    rw (width, law.add_zero product)
      (to_ulong-lt (m.to_long product) w small (law.mul_nonneg rand w exact) cut)

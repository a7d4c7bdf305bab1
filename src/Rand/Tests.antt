-- ===== src/Rand/Tests.antt =====
-- A machine whose numbers are integers, with generators that draw 0 and count.
use micbench.Base.{ℕ, ◌+◌, ◌*◌, ◌≤◌, ◌<◌, ◌≡◌, refl, arith}
use micbench.Base.Products.{mul_mono}
use micbench.Base.Int.{ℤ, pos, negsuc, ◌+ℤ◌, ◌*ℤ◌, ◌≤ℤ◌, ltb_ℤ, pos_part, neg_part, sub_ℕ, int_laws}
use micbench.Base.Text.{strtol}
use micbench.Rand.{Machine, IsRounding, rand_range_long}
use micbench.Rand.Below.{DrawsBelow}
use micbench.Rand.Bounds.{rand_range_long_bounds}

abbrev pub integers : Machine
integers = record {
  Double = ℤ;
  Seed = ℕ;
  of_long = λ z. z;
  mul = ◌*ℤ◌;
  add = ◌+ℤ◌;
  lt = ltb_ℤ;
  to_long = λ z. z;
  strtod = λ s. (strtol s).0;
  srand48_r = pos_part;
  drand48_r = λ s. (pos 0, s);
  lrand48_r = λ s. (s, s + 1);
}

sub_ℕ_mono : (a b c d : ℕ) → a + d ≤ c + b → sub_ℕ a b ≤ℤ sub_ℕ c d
sub_ℕ_mono a b c d h = ground arith

add_mul : (a b k : ℕ) → (a + b) * k ≡ a * k + b * k
add_mul a b k = grind arith

integers_mul_mono : (x y w : ℤ) → pos 0 ≤ℤ w → x ≤ℤ y → x *ℤ w ≤ℤ y *ℤ w
unfolding ◌*ℤ◌
integers_mul_mono x y (negsuc k) nonneg le = absurd (omega arith)
integers_mul_mono x y (pos k) nonneg le =
    let h = mul_mono (pos_part x + neg_part y) (pos_part y + neg_part x) k le in
    let d = add_mul (pos_part x) (neg_part y) k in
    let d' = add_mul (pos_part y) (neg_part x) k in
    sub_ℕ_mono (pos_part x * k + neg_part x * 0) (pos_part x * 0 + neg_part x * k)
      (pos_part y * k + neg_part y * 0) (pos_part y * 0 + neg_part y * k) (omega arith)

integers_mul_one : (w : ℤ) → pos 1 *ℤ w ≡ w
unfolding ◌*ℤ◌
integers_mul_one w = ground arith

integers_mul_zero : (w : ℤ) → pos 0 *ℤ w ≡ pos 0
unfolding ◌*ℤ◌
integers_mul_zero w = ground arith

pub integers-IsRounding : IsRounding integers
integers-IsRounding = record {
  Le = ◌≤ℤ◌;
  of_long_mono = λ a b h. h;
  to_long_mono = λ a b h. h;
  to_long_of_long = λ z e. refl;
  add_mono = λ x y z h. omega int_laws;
  add_exact = λ a b ea eb es. refl;
  mul_mono = λ x y w nonneg le. integers_mul_mono x y w nonneg le;
  mul_zero = λ w e. integers_mul_zero w;
  mul_one = λ w e. integers_mul_one w;
  draw_lo = λ s. omega arith;
  draw_hi = λ s. omega arith;
}

integers_add_zero : (w : ℤ) → w +ℤ pos 0 ≡ w
unfolding ◌+ℤ◌
integers_add_zero w = ground arith

integers_mul_lt : (w : ℕ) → 0 < w → pos 0 *ℤ pos w +ℤ pos 1 ≤ℤ pos w
unfolding ◌*ℤ◌ ◌+ℤ◌
integers_mul_lt w some_width = ground arith

integers_mul_nonneg : (w : ℕ) → pos 0 ≤ℤ pos 0 *ℤ pos w
unfolding ◌*ℤ◌
integers_mul_nonneg w = ground arith

pub integers-DrawsBelow : DrawsBelow integers
integers-DrawsBelow = record {
  Lt = λ a b. (a +ℤ pos 1) ≤ℤ b;
  mul_lt = λ s w some_width e. integers_mul_lt w some_width;
  mul_nonneg = λ s w e. integers_mul_nonneg w;
  to_long_lt = λ x w some_width e lt. lt;
  add_zero = integers_add_zero;
}

rand_range_long_bounds_example :
    (pos 3 ≤ℤ (rand_range_long integers 5 (pos 3) (pos 9)).0)
    × ((rand_range_long integers 5 (pos 3) (pos 9)).0 ≤ℤ pos 9)
rand_range_long_bounds_example =
    rand_range_long_bounds integers integers-IsRounding 5 (pos 3) (pos 9) (omega arith, omega arith)
      (omega arith, omega arith) (omega int_laws, omega int_laws) (omega arith)

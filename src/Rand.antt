-- ===== src/Rand.antt =====
-- The random ranges of src/micbench-utils.c (`mb_rand_range_long`, `mb_rand_range_ulong`,
-- `mb_rand_buf`) and the choice `mb_read_or_write` of src/micbench-io.h. Floating-point numbers and
-- the generators of drand48(3) are a parameter; `IsRounding` states what IEEE 754 arithmetic and
-- drand48(3) promise of them.
pub mod Bounds
pub mod Below
pub mod Buffer
pub mod Tests
use micbench.Base.{
  ℕ, zero, ◌*◌, suc, ◌+◌, ◌-◌, ◌/◌, ◌%◌, ◌^◌, ◌≤◌, ◌≡◌, Bool, true, List, [], ◌∷◌, if◌then◌else◌,
  replicate, drop, ◌++◌,
}
use micbench.Base.Int.{ℤ, pos, negsuc, ◌+ℤ◌, ◌-ℤ◌, ◌≤ℤ◌}
use micbench.Base.Text.{Text}

pub record Machine : Type 1 where
  pub Double : Type 0
  pub Seed : Type 0
  pub of_long : ℤ → Double
  pub mul : Double → Double → Double
  pub add : Double → Double → Double
  pub lt : Double → Double → Bool
  pub to_long : Double → ℤ
  pub strtod : Text → Double
  pub srand48_r : ℤ → Seed
  pub drand48_r : Seed → Double × Seed
  pub lrand48_r : Seed → ℕ × Seed

-- Integers up to 2 ^ 53 in size, which a double holds exactly.
abbrev pub Exact : ℤ → Type 0
Exact z = (negsuc (2 ^ 53 - 1) ≤ℤ z) × (z ≤ℤ pos (2 ^ 53))

-- Rounding keeps the order and is exact where it can be; a draw lies between 0 and 1.
pub record IsRounding (m : Machine) : Type 1 where
  pub Le : m.Double → m.Double → Type 0
  pub of_long_mono : (a b : ℤ) → a ≤ℤ b → Le (m.of_long a) (m.of_long b)
  pub to_long_mono : (x y : m.Double) → Le x y → m.to_long x ≤ℤ m.to_long y
  pub to_long_of_long : (z : ℤ) → Exact z → m.to_long (m.of_long z) ≡ z
  pub add_mono : (x y z : m.Double) → Le x y → Le (m.add x z) (m.add y z)
  pub add_exact :
      (a b : ℤ)
      → Exact a
      → Exact b
      → Exact (a +ℤ b)
      → m.add (m.of_long a) (m.of_long b) ≡ m.of_long (a +ℤ b)
  pub mul_mono : (x y w : m.Double) → Le (m.of_long (pos 0)) w → Le x y → Le (m.mul x w) (m.mul y w)
  pub mul_zero : (w : ℤ) → Exact w → m.mul (m.of_long (pos 0)) (m.of_long w) ≡ m.of_long (pos 0)
  pub mul_one : (w : ℤ) → Exact w → m.mul (m.of_long (pos 1)) (m.of_long w) ≡ m.of_long w
  pub draw_lo : (s : m.Seed) → Le (m.of_long (pos 0)) (m.drand48_r s).0
  pub draw_hi : (s : m.Seed) → Le (m.drand48_r s).0 (m.of_long (pos 1))

-- the `n` bytes of a number, the lowest first
abbrev pub word_bytes : ℕ → ℕ → Text
word_bytes zero w = []
word_bytes (suc n) w = (w % 256) ∷ word_bytes n (w / 256)

abbrev pub repeat : ℕ → Text → Text
repeat zero t = []
repeat (suc n) t = t ++ repeat n t

module _ (m : Machine) where
  open m use {Double, Seed, of_long, mul, add, lt, to_long, drand48_r, lrand48_r}

  -- `ret * width + from`
  unfoldable pub rand_range_long : Seed → (from to : ℤ) → ℤ × Seed
  rand_range_long rand from to =
      let width = to -ℤ from in
      let (ret, rand') = drand48_r rand in
      (to_long (add (mul ret (of_long width)) (of_long from)), rand')

  -- The same on unsigned longs: the width wraps.
  pub rand_range_ulong : Seed → (from to : ℕ) → ℤ × Seed
  rand_range_ulong rand from to =
      let width = (to + 2 ^ 64 - from) % 2 ^ 64 in
      let (ret, rand') = drand48_r rand in
      (to_long (add (mul ret (of_long (pos width))) (of_long (pos from))), rand')

  -- Every whole word of the buffer gets the number drawn; the bytes behind the last one stay.
  unfoldable pub rand_buf : Seed → (buf : Text) (buf_size : ℕ) → Text × Seed
  rand_buf rand buf buf_size =
      let (num, rand') = lrand48_r rand in
      (repeat (buf_size / 8) (word_bytes 8 num) ++ drop (8 * (buf_size / 8)) buf, rand')

pub data IoMode : Type 0 where
  do_read do_write : IoMode

-- `mb_read_or_write()`, which draws from the generator of drand48(3): a draw decides if neither `read` nor `write` is set.
unfoldable pub read_or_write :
    (m : Machine) → (read write : Bool) (rwmix : m.Double) → m.Seed → IoMode × m.Seed
read_or_write m read write rwmix rand =
    let (d, rand') = m.drand48_r rand in
    if read
    then (do_read, rand)
    else if write
    then (do_write, rand)
    else if m.lt rwmix d
    then (do_read, rand')
    else (do_write, rand')

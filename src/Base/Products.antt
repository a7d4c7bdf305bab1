-- ===== src/Base/Products.antt =====
-- Products of numbers that `omega` does not read, and their order.
use Prim.Native.Nat.{ℕ, zero, suc, ◌+◌, ◌*◌, ◌/◌, ◌≤◌, ◌<◌}
use mathlib.Core.Path.{◌≡◌}
use native.Mathlib.Omega.{arith}
use native.Mathlib.Decide.{dec_lt}

pub mul_suc : (a k : ℕ) → (a + 1) * k ≡ a * k + k
mul_suc a k = grind arith

pub mul_mono : (a b k : ℕ) → a ≤ b → a * k ≤ b * k
mul_mono a b k h = grind arith

pub mul_pos : (n r : ℕ) → 0 < n → 0 < r → 0 < n * r
mul_pos zero r some_n some_r = absurd (omega arith)
mul_pos (suc n) r some_n some_r = grind arith

pub lt_of_mul : (a b k : ℕ) → a * k < b * k → a < b
lt_of_mul a b k h = elim (dec_lt a b) [
  | yes less ↦ less
  | no not_less ↦ let le : b ≤ a = omega arith in absurd (omega (arith, mul_mono b a k le))
]

pub div_whole : (n r : ℕ) → 0 < r → n * r / r ≡ n
div_whole n r some_r = grind arith

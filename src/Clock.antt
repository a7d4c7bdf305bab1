-- ===== src/Clock.antt =====
-- The clock of src/micbench-utils.c, and the timeouts that src/micbench-io.c and src/micbench-mem.c compare
-- with it. Times are in microseconds; in the loops the clock is a function from the number of the look
-- to the time elapsed.
use micbench.Base.{ℕ, ◌<◌, ◌≡◌, true, false, ltb, Bool-cases, inl, inr, arith}
use micbench.Base.Int.{ℤ, pos, ◌+ℤ◌, ◌-ℤ◌, ◌*ℤ◌, ltb_ℤ, int_laws}

-- `struct timeval`
pub record Timeval : Type 0 where
  pub tv_sec : ℤ
  pub tv_usec : ℤ

-- `TV2LONG`
pub tv2long : Timeval → ℤ
tv2long tv = tv.tv_sec *ℤ pos 1000000 +ℤ tv.tv_usec

-- `mb_elapsed_usec_from`, and `mb_elapsed_time_from` before it divides by a million; `now` is what
-- gettimeofday(2) gives.
pub elapsed_usec_from : (tv now : Timeval) → ℤ
elapsed_usec_from tv now = tv2long now -ℤ tv2long tv

-- What two looks find elapsed differs by the time between them.
elapsed_usec_from_add :
    (tv first second : Timeval)
    → elapsed_usec_from tv second ≡ elapsed_usec_from tv first +ℤ elapsed_usec_from first second
unfolding elapsed_usec_from
elapsed_usec_from_add tv first second = omega int_laws

abbrev pub seconds : ℤ → ℤ
seconds t = t *ℤ pos 1000000

-- The clock reaches the timeout at the look `k`, and not before.
pub record Expires (timeout : ℤ) (elapsed : ℕ → ℤ) (k : ℕ) : Type 0 where
  pub before : (j : ℕ) → j < k → ltb_ℤ (elapsed j) (seconds timeout) ≡ true
  pub at : ltb_ℤ (elapsed k) (seconds timeout) ≡ false

-- There is one such look.
pub Expires-unique :
    (timeout : ℤ) (elapsed : ℕ → ℤ) (k l : ℕ)
    → Expires timeout elapsed k
    → Expires timeout elapsed l
    → k ≡ l
Expires-unique timeout elapsed k l a b = elim (Bool-cases (ltb k l)) [
  | inl less ↦ let early = b.before k (ground arith) in let late = a.at in cc
  | inr not_less ↦ elim (Bool-cases (ltb l k)) [
    | inl more ↦ let early = a.before l (ground arith) in let late = b.at in cc
    | inr not_more ↦ ground arith
  ]
]

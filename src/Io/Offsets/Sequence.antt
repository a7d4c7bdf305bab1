-- ===== src/Io/Offsets/Sequence.antt =====
-- The blocks that the pattern `seq` visits.
use micbench.Base.{ℕ, zero, suc, ◌+◌, ◌%◌, ◌<◌, ◌≡◌, arith, ap, ◌∙◌}
use native.Mathlib.Nat.{mod-add-mod, mod-eq_of_lt, add-zero}
use micbench.Base.Int.{ℤ, pos, ◌+ℤ◌, ◌≤ℤ◌}
use micbench.Io.Offsets.{next_ofst}

-- the offset after `n` requests for the file
pub after : ℕ → ℤ → ℤ → ℤ → ℤ
after zero o lo hi = o
after (suc n) o lo hi = after n (next_ofst o lo hi) lo hi

next_ofst-pos :
    (lo w k : ℕ) → k < w → next_ofst (pos (lo + k)) (pos lo) (pos (lo + w)) ≡ pos (lo + (k + 1) % w)
unfolding next_ofst ◌+ℤ◌
next_ofst-pos lo w k lt = grind arith

-- From the block `lo + k` of the range of `w` blocks that begins at `lo`, `n` requests lead `n` blocks
-- on, round the range: with `w` requests each block is visited once.
after-mod :
    (n lo w k : ℕ) → k < w → after n (pos (lo + k)) (pos lo) (pos (lo + w)) ≡ pos (lo + (k + n) % w)
unfolding after
after-mod zero lo w k lt = rw (add-zero, mod-eq_of_lt lt)
after-mod (suc n) lo w k lt = rw (next_ofst-pos lo w k lt) (
    after-mod n lo w ((k + 1) % w) (omega arith)
    ∙ ap (λ x. pos (lo + x)) (mod-add-mod (k + 1) w n ∙ ap (λ x. x % w) (omega arith)))

-- Whatever the offset was, if it was not below the range the next one is a block of the range.
pub next_ofst_range :
    (o lo hi : ℤ)
    → lo ≤ℤ o
    → lo +ℤ pos 1 ≤ℤ hi
    → (lo ≤ℤ next_ofst o lo hi) × (next_ofst o lo hi +ℤ pos 1 ≤ℤ hi)
unfolding next_ofst ◌+ℤ◌
next_ofst_range o lo hi above room = ground arith

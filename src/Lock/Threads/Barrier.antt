-- ===== src/Lock/Threads/Barrier.antt =====
-- The threads of src/micbench-lock.c at the barrier, one after the other.
use micbench.Base.{
  ℕ, zero, suc, ◌+◌, ◌≡◌, refl, false, none, some, List, ◌∷◌, ◌++◌, get_elem?, set, replicate,
  arith, subst, ap, sym, ◌∙◌,
}
use micbench.Lock.Threads.{
  Pc, starting, at_barrier, ready, System, some_starting, advance, move, Run, later, start,
}

abbrev unlocked : List Pc → System
unlocked pcs = record { lock = none; pcs = pcs }

-- The first `j` threads stand at `q`, the others at `p`.
abbrev mixed : (p q : Pc) (j k : ℕ) → List Pc
mixed p q j k = replicate j q ++ replicate k p

get_elem?-mixed : (p q : Pc) (j k : ℕ) → get_elem? (mixed p q j (suc k)) j ≡ some p
get_elem?-mixed p q zero k = refl
get_elem?-mixed p q (suc j) k = get_elem?-mixed p q j k

set-mixed : (p q : Pc) (j k : ℕ) → set (mixed p q j (suc k)) j q ≡ mixed p q (suc j) k
set-mixed p q zero k = refl
set-mixed p q (suc j) k = ap (λ ps. q ∷ ps) (set-mixed p q j k)

mixed-zero : (p q : Pc) (j : ℕ) → mixed p q j 0 ≡ replicate j q
mixed-zero p q zero = refl
mixed-zero p q (suc j) = ap (λ ps. q ∷ ps) (mixed-zero p q j)

module _ (count : ℕ) where
  -- A step that the next thread can make, all of them can make in turn.
  sweep :
      (p q : Pc)
      → ((j k : ℕ)
          → advance count (unlocked (mixed p q j (suc k))) j p
            ≡ some (unlocked (set (mixed p q j (suc k)) j q)))
      → (j k m : ℕ) {n : ℕ} {s : System} → m ≡ j + k
      → Run count n (unlocked (replicate m q)) s
      → (l : ℕ) × Run count l (unlocked (mixed p q j k)) s
  unfolding move
  sweep p q step j zero m {n} {s} e run =
      let same : m ≡ j = omega arith in
      (
        n,
        subst (λ ps. Run count n (unlocked ps) s)
            (ap (λ i. replicate i q) same ∙ sym (mixed-zero p q j)) run,
      )
  sweep p q step j (suc k) m {n} {s} e run =
      let (l, rest) = sweep p q step (suc j) k m (omega arith) run in
      (
        suc l,
        later j
            (rw (move, get_elem?-mixed p q j k, step j k)
              (ap (λ ps. some (unlocked ps)) (set-mixed p q j k)))
            rest,
      )

  some_starting-mixed : (j k : ℕ) → some_starting (mixed at_barrier (ready 0) j k) ≡ false
  unfolding some_starting
  some_starting-mixed zero zero = refl
  some_starting-mixed zero (suc k) = some_starting-mixed zero k
  some_starting-mixed (suc j) k = some_starting-mixed j k

  -- A run that begins with all threads behind the barrier is the end of one from `main` on.
  pub behind_barrier :
      (multi : ℕ) {n : ℕ} {s : System}
      → Run count n (record { lock = none; pcs = replicate multi (ready 0) }) s
      → (m : ℕ) × Run count m (start multi) s
  unfolding advance
  behind_barrier multi run =
      let (m, passing) =
        sweep at_barrier (ready 0) (λ j k. rw (advance, some_starting-mixed j (suc k)) refl) 0 multi
          multi (omega arith) run in
      sweep starting at_barrier (λ j k. refl) 0 multi multi (omega arith) passing

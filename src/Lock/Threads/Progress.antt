-- ===== src/Lock/Threads/Progress.antt =====
-- How far the threads come.
use micbench.Base.{
  ℕ, zero, suc, ◌+◌, ◌*◌, ◌-◌, ◌≤◌, ◌<◌, ◌≡◌, ◌≢◌, refl, true, none, some, List, [], ◌∷◌, get_elem?,
  set, ltb, replicate, arith, Bool-cases, inl, inr, Option-cases, some-injective,
}
use micbench.Lock.Threads.{
  Pc, starting, at_barrier, ready, holding, resting, finished, System, some_starting, advance, move,
  Run, here, later, start,
}
use micbench.Lock.Threads.Invariant.{InRounds, Inv, start-Inv, move-Inv, Run-Inv}

-- the steps that a thread has left
abbrev pub left : ℕ → Pc → ℕ
left count starting = 3 * count + 3
left count at_barrier = 3 * count + 2
left count (ready i) = 3 * (count - i) + 1
left count (holding i) = 3 * (count - i)
left count (resting i) = 3 * (count - i) - 1
left count finished = 0

pub total_left : ℕ → List Pc → ℕ
total_left count [] = 0
total_left count (p ∷ ps) = left count p + total_left count ps

total_left-set :
    (count : ℕ) (ps : List Pc) (t : ℕ) (p q : Pc)
    → get_elem? ps t ≡ some p
    → total_left count (set ps t q) + left count p ≡ total_left count ps + left count q
unfolding total_left
total_left-set count [] t p q at_t = cc
total_left-set count (r ∷ ps) zero p q at_t = let e = some-injective at_t in rw e (omega arith)
total_left-set count (r ∷ ps) (suc t) p q at_t = omega (arith, total_left-set count ps t p q at_t)

advance-left :
    (count : ℕ) (s s' : System) (t : ℕ) (p : Pc)
    → InRounds count p
    → get_elem? s.pcs t ≡ some p
    → advance count s t p ≡ some s'
    → total_left count s'.pcs + 1 ≡ total_left count s.pcs
unfolding advance
advance-left count s s' t starting r at_t h =
    ground (arith, total_left-set count s.pcs t starting at_barrier at_t)
advance-left count s s' t at_barrier r at_t h =
    ground (arith, total_left-set count s.pcs t at_barrier (ready 0) at_t)
advance-left count s s' t (ready i) r at_t h = ground (
  arith,
  total_left-set count s.pcs t (ready i) (holding i) at_t,
  total_left-set count s.pcs t (ready i) finished at_t,
)
advance-left count s s' t (holding i) r at_t h =
    ground (arith, total_left-set count s.pcs t (holding i) (resting i) at_t)
advance-left count s s' t (resting i) r at_t h =
    ground (arith, total_left-set count s.pcs t (resting i) (ready (suc i)) at_t)
advance-left count s s' t finished r at_t h = cc

move-left :
    (count : ℕ) (s s' : System) (t : ℕ)
    → Inv count s
    → move count s t ≡ some s'
    → total_left count s'.pcs + 1 ≡ total_left count s.pcs
unfolding move
move-left count s s' t v h = elim (Option-cases (get_elem? s.pcs t)) [
  | inl gone ↦ cc (rw (move, gone) at h)
  | inr (p, at_t) ↦ advance-left count s s' t p (v.rounds t p at_t) at_t (rw (move, at_t) at h)
]

Run-left :
    {count n : ℕ} {s s' : System}
    → Run count n s s'
    → Inv count s
    → n + total_left count s'.pcs ≡ total_left count s.pcs
Run-left (here s) v = omega arith
Run-left {count} (later {s = s} {s' = s'} t step run) v =
    omega (arith, move-left count s s' t v step, Run-left run (move-Inv count s s' t v step))

first_starting :
    (ps : List Pc) → some_starting ps ≡ true → (t : ℕ) × (get_elem? ps t ≡ some starting)
unfolding some_starting
first_starting [] h = cc
first_starting (starting ∷ ps) h = (0, refl)
first_starting (at_barrier ∷ ps) h = let (t, e) = first_starting ps h in (suc t, e)
first_starting (ready i ∷ ps) h = let (t, e) = first_starting ps h in (suc t, e)
first_starting (holding i ∷ ps) h = let (t, e) = first_starting ps h in (suc t, e)
first_starting (resting i ∷ ps) h = let (t, e) = first_starting ps h in (suc t, e)
first_starting (finished ∷ ps) h = let (t, e) = first_starting ps h in (suc t, e)

-- A thread can make a step.
abbrev Moves : ℕ → System → Type 0
Moves count s = (t : ℕ) × (s' : System) × (move count s t ≡ some s')

starting-Moves :
    (count : ℕ) (s : System) (t : ℕ) → get_elem? s.pcs t ≡ some starting → Moves count s
unfolding move advance
starting-Moves count s t at_t = (t, record s { pcs = set s.pcs t at_barrier }, rw (move, at_t) refl)

holding-Moves :
    (count : ℕ) (s : System) (t i : ℕ) → get_elem? s.pcs t ≡ some (holding i) → Moves count s
unfolding move advance
holding-Moves count s t i at_t =
    (t, record s { lock = none; pcs = set s.pcs t (resting i) }, rw (move, at_t) refl)

-- As long as one thread has not ended, one can make a step: that one, the one that holds the lock, or
-- one that has not come to the barrier.
not_stuck :
    (count : ℕ) (s : System) (t : ℕ) (p : Pc)
    → Inv count s
    → get_elem? s.pcs t ≡ some p
    → p ≢ finished
    → Moves count s
unfolding move advance
not_stuck count s t starting v at_t more = starting-Moves count s t at_t
not_stuck count s t at_barrier v at_t more = elim (Bool-cases (some_starting s.pcs)) [
  | inl wait ↦ let (u, at_u) = first_starting s.pcs wait in starting-Moves count s u at_u
  | inr pass ↦ (t, record s { pcs = set s.pcs t (ready 0) }, rw (move, at_t, pass) refl)
]
not_stuck count s t (ready i) v at_t more = elim (Bool-cases (ltb i count)) [
  | inr over ↦ (t, record s { pcs = set s.pcs t finished }, rw (move, at_t, over) refl)
  | inl round ↦ elim (Option-cases s.lock) [
    | inr (u, taken) ↦ let (j, at_u) = v.held u taken in holding-Moves count s u j at_u
    | inl free ↦ (
      t,
      record s { lock = some t; pcs = set s.pcs t (holding i) },
      rw (move, at_t, round, advance, free) refl,
    )
  ]
]
not_stuck count s t (holding i) v at_t more = holding-Moves count s t i at_t
not_stuck count s t (resting i) v at_t more =
    (t, record s { pcs = set s.pcs t (ready (suc i)) }, rw (move, at_t) refl)
not_stuck count s t finished v at_t more = absurd (more refl)

abbrev pub AllFinished : System → Type 0
AllFinished s = (t : ℕ) (p : Pc) → get_elem? s.pcs t ≡ some p → p ≡ finished

left-zero : (count : ℕ) (p : Pc) → InRounds count p → left count p ≡ 0 → p ≡ finished
left-zero count starting r e = absurd (omega arith)
left-zero count at_barrier r e = absurd (omega arith)
left-zero count (ready i) r e = absurd (omega arith)
left-zero count (holding i) r e = absurd (omega arith)
left-zero count (resting i) r e = absurd (omega arith)
left-zero count finished r e = refl

left-le :
    (count : ℕ) (ps : List Pc) (t : ℕ) (p : Pc)
    → get_elem? ps t ≡ some p
    → left count p ≤ total_left count ps
unfolding total_left
left-le count [] t p at_t = cc
left-le count (r ∷ ps) zero p at_t = let e = some-injective at_t in rw (← e) (omega arith)
left-le count (r ∷ ps) (suc t) p at_t = omega (arith, left-le count ps t p at_t)

some_left :
    (count : ℕ) (ps : List Pc)
    → 0 < total_left count ps
    → (t : ℕ) × (p : Pc) × (get_elem? ps t ≡ some p) × (p ≢ finished)
unfolding total_left
some_left count [] h = absurd (omega arith)
some_left count (starting ∷ ps) h = (0, starting, refl, λ e. cc)
some_left count (at_barrier ∷ ps) h = (0, at_barrier, refl, λ e. cc)
some_left count (ready i ∷ ps) h = (0, ready i, refl, λ e. cc)
some_left count (holding i ∷ ps) h = (0, holding i, refl, λ e. cc)
some_left count (resting i ∷ ps) h = (0, resting i, refl, λ e. cc)
some_left count (finished ∷ ps) h =
    let (t, p, at_t, ne) = some_left count ps (omega arith) in (suc t, p, at_t, ne)

finish :
    (count d : ℕ) (s : System)
    → Inv count s
    → total_left count s.pcs ≡ d
    → (s' : System) × Run count d s s' × AllFinished s'
finish count zero s v e = (
  s,
  here s,
  λ t p at_t. left-zero count p (v.rounds t p at_t) (omega (arith, left-le count s.pcs t p at_t)),
)
finish count (suc d) s v e =
    let (t, p, at_t, more) = some_left count s.pcs (omega arith) in
    let (u, s₁, step) = not_stuck count s t p v at_t more in
    let (s', run, all) =
      finish count d s₁ (move-Inv count s s₁ u v step)
        (omega (arith, move-left count s s₁ u v step)) in
    (s', later u step run, all)

total_left-start :
    (count multi : ℕ) → total_left count (replicate multi starting) ≡ multi * (3 * count + 3)
unfolding total_left
total_left-start count zero = omega arith
total_left-start count (suc multi) = grind (arith, total_left-start count multi)

-- However the threads have been interleaved since `main` created them, no deadlock is ahead: they can
-- go on until every thread has ended, and whatever the order, it takes each of them three steps and
-- three more for each round.
pub threads_finish :
    (count multi n : ℕ) (s : System)
    → Run count n (start multi) s
    → (k : ℕ) × (s' : System) × Run count k s s'
      × AllFinished s'
      × (n + k ≡ multi * (3 * count + 3))
threads_finish count multi n s run =
    let v₀ = start-Inv count multi in
    let v = Run-Inv run v₀ in
    let (s', rest, all) = finish count (total_left count s.pcs) s v refl in
    (
      total_left count s.pcs,
      s',
      rest,
      all,
      omega (arith, Run-left run v₀, total_left-start count multi),
    )

-- ===== src/Proto/Threads/Refines.antt =====
-- The threads of src/micbench-proto.c as threads of src/micbench-lock.c.
use micbench.Base.{
  ℕ, zero, suc, ◌≡◌, refl, none, some, List, [], ◌∷◌, map, get_elem?, set, ltb, Option,
  get_elem?-set_self, replicate, Bool-cases, inl, inr, Option-cases, sym, ◌∙◌, subst, ap,
  some-injective,
}
use micbench.Lock.Threads as Lock
use micbench.Lock.Threads.Barrier.{behind_barrier}
use micbench.Lock.Threads.Invariant.{get_elem?-lt, mutual_exclusion}
use micbench.Proto.Threads.{
  Pc, ready, holding, finished, System, advance, move, Run, here, later, start,
}

-- A thread that stands at the same place in the loop of micbench-lock.
pub locking : Pc → Lock.Pc
locking (ready i) = Lock.ready i
locking (holding i) = Lock.holding i
locking finished = Lock.finished

pub as_lock : System → Lock.System
as_lock s = record { lock = s.slock; pcs = map locking s.pcs }

get_elem?-locking :
    (ps : List Pc) (t : ℕ) (p : Pc)
    → get_elem? ps t ≡ some p
    → get_elem? (map locking ps) t ≡ some (locking p)
get_elem?-locking [] t p e = cc
get_elem?-locking (r ∷ ps) zero p e = ap (λ x. some (locking x)) (some-injective e)
get_elem?-locking (r ∷ ps) (suc t) p e = get_elem?-locking ps t p e

set-locking :
    (ps : List Pc) (t : ℕ) (p : Pc) → map locking (set ps t p) ≡ set (map locking ps) t (locking p)
set-locking [] t p = refl
set-locking (r ∷ ps) zero p = refl
set-locking (r ∷ ps) (suc t) p = ap (λ rest. locking r ∷ rest) (set-locking ps t p)

set-twice : (ps : List Lock.Pc) (t : ℕ) (p q : Lock.Pc) → set (set ps t p) t q ≡ set ps t q
set-twice [] t p q = refl
set-twice (r ∷ ps) zero p q = refl
set-twice (r ∷ ps) (suc t) p q = ap (λ rest. r ∷ rest) (set-twice ps t p q)

replicate-locking : (n : ℕ) → map locking (replicate n (ready 0)) ≡ replicate n (Lock.ready 0)
unfolding locking
replicate-locking zero = refl
replicate-locking (suc n) = ap (λ rest. Lock.ready 0 ∷ rest) (replicate-locking n)

abbrev locked : Option ℕ → List Lock.Pc → Lock.System
locked lock pcs = record { lock = lock; pcs = pcs }

module _ (count : ℕ) (ps : List Pc) (t : ℕ) (p : Pc) (at_t : get_elem? ps t ≡ some p) {n : ℕ}
    {s'' : Lock.System} where
  -- One step of micbench-lock in front of a run.
  one_step :
      (q : Pc) (l l' : Option ℕ)
      → Lock.advance count (locked l (map locking ps)) t (locking p)
        ≡ some (locked l' (set (map locking ps) t (locking q)))
      → Lock.Run count n (locked l' (map locking (set ps t q))) s''
      → (m : ℕ) × Lock.Run count m (locked l (map locking ps)) s''
  unfolding Lock.move
  one_step q l l' step run =
      let moved = subst (λ pcs. Lock.Run count n (locked l' pcs) s'') (set-locking ps t q) run in
      (suc n, Lock.later t (rw (Lock.move, get_elem?-locking ps t p at_t) step) moved)

module _ (count : ℕ) (ps : List Pc) (t i : ℕ) (at_t : get_elem? ps t ≡ some (holding i)) {n : ℕ}
    {s'' : Lock.System} where
  -- The two steps that release the lock.
  release_steps :
      (l : Option ℕ)
      → Lock.Run count n (locked none (map locking (set ps t (ready (suc i))))) s''
      → (m : ℕ) × Lock.Run count m (locked l (map locking ps)) s''
  unfolding Lock.move Lock.advance locking
  release_steps l run =
      let pcs = map locking ps in
      let after = set pcs t (Lock.resting i) in
      let at = get_elem?-locking ps t (holding i) at_t in
      let same =
        set-locking ps t (ready (suc i))
        ∙ sym (set-twice pcs t (Lock.resting i) (Lock.ready (suc i))) in
      let moved = subst (λ pcs. Lock.Run count n (locked none pcs) s'') same run in
      let at_after : get_elem? after t ≡ some (Lock.resting i) =
        get_elem?-set_self pcs t (Lock.resting i) (get_elem?-lt pcs t at) in
      let second : Lock.Run count (suc n) (locked none after) s'' =
        Lock.later t (rw (Lock.move, at_after) refl) moved in
      (suc (suc n), Lock.later t (rw (Lock.move, at) refl) second)

-- A step of a thread is one step of micbench-lock, or two of them where the lock is released.
advance-Run :
    (count : ℕ) (s s' : System) (t : ℕ) (p : Pc)
    → get_elem? s.pcs t ≡ some p
    → advance count s t p ≡ some s'
    → {n : ℕ} {s'' : Lock.System} → Lock.Run count n (as_lock s') s''
    → (m : ℕ) × Lock.Run count m (as_lock s) s''
unfolding advance as_lock locking Lock.advance
advance-Run count s s' t (ready i) at_t h {n} {s''} run = elim (Bool-cases (ltb i count)) [
  | inr over ↦
      let back : Lock.Run count n (as_lock (record s { pcs = set s.pcs t finished })) s'' =
        subst (λ x. Lock.Run count n (as_lock x) s'') (sym (some-injective (rw over at h))) run in
      one_step count s.pcs t (ready i) at_t finished s.slock s.slock (rw (Lock.advance, over) refl)
        back
  | inl more ↦ elim (Option-cases s.slock) [
    | inr (u, taken) ↦ cc (rw (more, taken) at h)
    | inl free ↦
        let back : Lock.Run count n
            (as_lock (record { slock = some t; pcs = set s.pcs t (holding i) })) s'' =
          subst (λ x. Lock.Run count n (as_lock x) s'')
            (sym (some-injective (rw (more, free) at h))) run in
        one_step count s.pcs t (ready i) at_t (holding i) s.slock (some t)
          (rw (Lock.advance, more, free) refl) back
  ]
]
advance-Run count s s' t (holding i) at_t h {n} {s''} run =
    release_steps count s.pcs t i at_t s.slock
      (subst (λ x. Lock.Run count n (as_lock x) s'') (sym (some-injective h)) run)
advance-Run count s s' t finished at_t h run = cc

Run-as_lock :
    {count n : ℕ} {s s' : System}
    → Run count n s s'
    → (m : ℕ) × Lock.Run count m (as_lock s) (as_lock s')
unfolding move
Run-as_lock (here s) = (0, Lock.here (as_lock s))
Run-as_lock {count} (later {s = s} {s' = s'} t step run) = elim (Option-cases (get_elem? s.pcs t)) [
  | inl gone ↦ cc (rw (move, gone) at step)
  | inr (p, at_t) ↦
      let (m, rest) = Run-as_lock run in
      advance-Run count s s' t p at_t (rw (move, at_t) at step) rest
]

-- Wherever the threads of micbench-proto have come since `main` created them, threads of micbench-lock
-- with the same count come there too, in some order of their steps.
pub Run-refines :
    (count multi n : ℕ) (s : System)
    → Run count n (start multi) s
    → (m : ℕ) × Lock.Run count m (Lock.start multi) (as_lock s)
unfolding as_lock
Run-refines count multi n s run =
    let (m, locked) = Run-as_lock run in
    behind_barrier count multi (
      subst (λ ps. Lock.Run count m (record { lock = none; pcs = ps }) (as_lock s))
        (replicate-locking multi) locked)

-- Two threads of micbench-proto never hold the spin lock together.
spin-exclusion :
    (count multi n : ℕ) (s : System)
    → Run count n (start multi) s
    → (t u i j : ℕ) → get_elem? s.pcs t ≡ some (holding i)
    → get_elem? s.pcs u ≡ some (holding j)
    → t ≡ u
unfolding as_lock locking
spin-exclusion count multi n s run t u i j at_t at_u =
    let (m, locked) = Run-refines count multi n s run in
    mutual_exclusion count multi m (as_lock s) locked t u i j
      (get_elem?-locking s.pcs t (holding i) at_t) (get_elem?-locking s.pcs u (holding j) at_u)

-- ===== src/Lock/Threads.antt =====
-- The threads of src/micbench-lock.c with a spin lock or a mutex (`thread_handler`,
-- `thread_job_spinlock`, `thread_job_mutex`), interleaved in any order. The jobs inside and outside the
-- lock touch no shared memory. Of the functions of pthreads the model has what they promise: a barrier
-- lets the threads through when all have come to it, and a lock is taken when no thread holds it.
pub mod Barrier
pub mod Invariant
pub mod Progress
mod Tests
use micbench.Base.{
  ℕ, zero, suc, ◌<◌, ◌≡◌, Bool, true, false, Option, none, some, List, [], ◌∷◌, get_elem?, set, ltb,
  if◌then◌else◌, replicate,
}

-- Where a thread stands: before the barrier, at it, at the head of the loop with `i` rounds done, with
-- the lock in its hands, behind the lock, or at its end.
pub data Pc : Type 0 where
  starting : Pc
  at_barrier : Pc
  ready : (i : ℕ) → Pc
  holding : (i : ℕ) → Pc
  resting : (i : ℕ) → Pc
  finished : Pc

-- The thread that holds the lock, and the threads.
pub record System : Type 0 where
  pub lock : Option ℕ
  pub pcs : List Pc

pub some_starting : List Pc → Bool
some_starting [] = false
some_starting (starting ∷ ps) = true
some_starting (at_barrier ∷ ps) = some_starting ps
some_starting (ready i ∷ ps) = some_starting ps
some_starting (holding i ∷ ps) = some_starting ps
some_starting (resting i ∷ ps) = some_starting ps
some_starting (finished ∷ ps) = some_starting ps

-- `count` is `option.count`; as in the source, one below 0 makes no rounds, and is 0 here.
module _ (count : ℕ) where
  -- A step of the thread `t`, which stands at the given place: `none` if it waits or has ended.
  unfoldable pub advance : System → (t : ℕ) → Pc → Option System
  advance s t starting = some (record s { pcs = set s.pcs t at_barrier })
  advance s t at_barrier =
      if some_starting s.pcs then none else some (record s { pcs = set s.pcs t (ready 0) })
  advance s t (ready i) =
      if ltb i count
      then elim s.lock [
        | none ↦ some (record s { lock = some t; pcs = set s.pcs t (holding i) })
        | some u ↦ none
      ]
      else some (record s { pcs = set s.pcs t finished })
  advance s t (holding i) = some (record s { lock = none; pcs = set s.pcs t (resting i) })
  advance s t (resting i) = some (record s { pcs = set s.pcs t (ready (suc i)) })
  advance s t finished = none

  unfoldable pub move : System → ℕ → Option System
  move s t = elim (get_elem? s.pcs t) [ none ↦ none | some p ↦ advance s t p ]

  -- A run of `n` steps.
  pub data Run : ℕ → System → System → Type 0 where
    here : (s : System) → Run 0 s s
    later :
        {n : ℕ} {s s' s'' : System} (t : ℕ) → move s t ≡ some s' → Run n s' s'' → Run (suc n) s s''

-- The threads as `main` creates them.
abbrev pub start : (multi : ℕ) → System
start multi = record { lock = none; pcs = replicate multi starting }

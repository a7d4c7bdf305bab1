-- ===== src/Proto/Threads.antt =====
-- The threads of src/micbench-proto.c (`thread_handler`, `thread_job`), interleaved in any order: each
-- takes the spin lock and releases it again, `option.count` times. They do not wait for one another at
-- the barrier that `main` makes. Of the functions of pthreads the model has what they promise: a lock is
-- taken when no thread holds it.
pub mod Refines
mod Tests
use micbench.Base.{
  ℕ, suc, ◌≡◌, Option, none, some, List, get_elem?, set, ltb, if◌then◌else◌, replicate,
}

-- Where a thread stands: at the head of the loop with `i` rounds done, with the lock in its hands, or at
-- its end.
pub data Pc : Type 0 where
  ready : (i : ℕ) → Pc
  holding : (i : ℕ) → Pc
  finished : Pc

-- The thread that holds the lock, and the threads.
pub record System : Type 0 where
  pub slock : Option ℕ
  pub pcs : List Pc

-- `count` is `option.count`; as in the source, one below 0 makes no rounds, and is 0 here.
module _ (count : ℕ) where
  -- A step of the thread `t`, which stands at the given place: `none` if it waits or has ended.
  pub advance : System → (t : ℕ) → Pc → Option System
  advance s t (ready i) =
      if ltb i count
      then elim s.slock [
        | none ↦ some (record s { slock = some t; pcs = set s.pcs t (holding i) })
        | some u ↦ none
      ]
      else some (record s { pcs = set s.pcs t finished })
  advance s t (holding i) = some (record s { slock = none; pcs = set s.pcs t (ready (suc i)) })
  advance s t finished = none

  pub move : System → ℕ → Option System
  move s t = elim (get_elem? s.pcs t) [ none ↦ none | some p ↦ advance s t p ]

  -- A run of `n` steps.
  pub data Run : ℕ → System → System → Type 0 where
    here : (s : System) → Run 0 s s
    later :
        {n : ℕ} {s s' s'' : System} (t : ℕ) → move s t ≡ some s' → Run n s' s'' → Run (suc n) s s''

-- The threads as `main` creates them.
abbrev pub start : (multi : ℕ) → System
start multi = record { slock = none; pcs = replicate multi (ready 0) }

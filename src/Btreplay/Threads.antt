-- ===== src/Btreplay/Threads.antt =====
-- The threads of `mb_btreplay_main` of src/micbench-btreplay.c, interleaved in any order: the one that
-- reads the dump puts the requests into the queue, and the workers take them out. Of GAsyncQueue the
-- model has what it promises: a pop gives the oldest request, to one thread, and waits while there is
-- none.
pub mod Kept
pub mod Finish
pub mod Performs
mod Tests
use micbench.Base.{
  ℕ, suc, zero, ◌≡◌, Bool, true, false, Option, none, some, List, [], ◌∷◌, ◌++◌, get_elem?, set,
  ltb, ◌==◌, if◌then◌else◌, replicate, map,
}
use micbench.Btreplay.{Trace, Ioreq, stop, trace, Call, do_thread_job, no_endpos}

-- The requests that are still to be put into the queue, the queue, which workers have not stopped, and
-- the requests taken so far, each with the worker that took it.
pub record Replay : Type 0 where
  pub unread : List Ioreq
  pub queue : List Ioreq
  pub running : List Bool
  pub history : List (ℕ × Ioreq)

-- The thread of `mb_btreplay_main`, or the worker `t`.
pub data Thread : Type 0 where
  reader : Thread
  worker : (t : ℕ) → Thread

-- The loop that fills the queue, one push.
pub push : Replay → List Ioreq → Option Replay
push s [] = none
push s (r ∷ rs) = some (record s { unread = rs; queue = s.queue ++ r ∷ [] })

-- What the worker `t` makes of the request that it has taken: a sign to stop ends its loop.
pub after_take : List Bool → (t : ℕ) → Ioreq → List Bool
after_take running t stop = set running t false
after_take running t (trace x) = running

-- The head of the loop of `do_thread_job`, for a worker that runs.
pub pop : Replay → (t : ℕ) → List Ioreq → Option Replay
pop s t [] = none
pop s t (r ∷ q) =
    some (record s {
      queue = q;
      running = after_take s.running t r;
      history = s.history ++ (t, r) ∷ [];
    })

pub take_turn : Replay → (t : ℕ) → Option Bool → Option Replay
take_turn s t none = none
take_turn s t (some false) = none
take_turn s t (some true) = pop s t s.queue

-- A step: `none` for a thread that waits or has ended.
pub move : Replay → Thread → Option Replay
move s reader = push s s.unread
move s (worker t) = take_turn s t (get_elem? s.running t)

-- A run of `n` steps.
pub data Run : ℕ → Replay → Replay → Type 0 where
  here : (s : Replay) → Run 0 s s
  later :
      {n : ℕ} {s s' s'' : Replay} (t : Thread)
      → move s t ≡ some s'
      → Run n s' s''
      → Run (suc n) s s''

-- What `mb_btreplay_main` puts into the queue: the records of the dump, and a sign to stop for each
-- worker.
pub all_requests : (multi : ℕ) → List Trace → List Ioreq
all_requests multi [] = replicate multi stop
all_requests multi (x ∷ xs) = trace x ∷ all_requests multi xs

abbrev pub start : (multi : ℕ) → List Trace → Replay
start multi traces = record {
  unread = all_requests multi traces;
  queue = [];
  running = replicate multi true;
  history = [];
}

-- The requests that have been taken.
pub taken : List (ℕ × Ioreq) → List Ioreq
taken [] = []
taken ((t, r) ∷ h) = r ∷ taken h

-- The requests that the worker `t` has taken.
pub taken_by : (t : ℕ) → List (ℕ × Ioreq) → List Ioreq
taken_by t [] = []
taken_by t ((u, r) ∷ h) = let rest = taken_by t h in if u == t then r ∷ rest else rest

-- The system calls that it makes for them.
pub calls_of : (t : ℕ) → Replay → List Call
calls_of t s = do_thread_job no_endpos (taken_by t s.history)

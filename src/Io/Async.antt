-- ===== src/Io/Async.antt =====
-- `do_async_io` and `mb_aiom_destroy` of src/micbench-io.c. What the clock and the system calls answer
-- is an argument, and so is the list of the descriptors that the thread has opened. The buffers of
-- the callbacks are not part of the model: only the generator that fills them is.
pub mod Fill
pub mod Destroy
pub mod Whole
pub mod Tests
use micbench.Base.{
  ℕ, zero, suc, ◌+◌, ◌&&◌, Bool, true, false, not, Option, none, some, List, [], ◌∷◌, ltb, ◌==◌,
  if◌then◌else◌, map, resume, resume_loop, Outcome, ok, exit_failure, fault, waits, ◌>>=◌,
}
use micbench.Base.Int.{ℤ, pos, negsuc, ◌+ℤ◌, ◌*ℤ◌, ltb_ℤ, pos_part}
use micbench.Base.Text.{Text}
use micbench.ResPool.{Ptr, null, ResPool}
use micbench.ResPool
use micbench.Rand.{Machine, rand_buf, read_or_write, IoMode, do_read, do_write}
use micbench.Io.Options.{IoOption, AioEngine, aio_libaio, aio_iouring, Pattern, pattern_rand}
use micbench.Io.Offsets.{
  Cursor, Chosen, at_index, init_offsets, ofst_async, choose_rand, choose_seq,
}
use micbench.Io.Log.{Log}
use micbench.Io.Aiom.{Aiom, nr_submittable, prep, submit, make}
use micbench.Io.Wait.{Reply, wait, waitall}
use micbench.Clock.{seconds}
use micbench.Io.Sync.{Meter}

-- The loop of `mb_aiom_destroy` that frees the callbacks, with fuel: the addresses given to free(3).
pub drain : (fuel : ℕ) → ResPool → Option (Outcome (List Ptr × ResPool))
drain zero pool = none
drain (suc fuel) pool = resume (ResPool.pop pool) λ r.
    let (cb, pool') = r in
    let rest = resume_loop (drain fuel pool') λ d. some (ok (cb ∷ d.0, d.1)) in
    if cb == null then some (ok ([], pool')) else rest

-- `mb_aiom_destroy`: the callbacks that are freed, and the cells of the pool.
pub destroy : (fuel : ℕ) → Aiom → Option (Outcome (List Ptr × List Ptr))
destroy fuel a =
    resume_loop (drain fuel a.cbpool)
      λ d. resume_loop (ResPool.destroy fuel d.1) λ cells. some (ok (d.0, cells.1))

-- What one turn of the outer loop meets: the times of its requests and of the submission, what the
-- submission of a number of requests returns, and what the wait hands back of the requests that the
-- kernel holds.
pub record Turn : Type 0 where
  pub queue_time : ℕ → ℕ
  pub submit_time : ℕ
  pub submitted : ℕ → ℤ
  pub reply : List Ptr → Reply

-- `mb_elapsed_time_from(&start_tv)` at each check, the answers in each turn, the last wait's, and what
-- io_uring_register_files(3) returns.
pub record AsyncSurroundings : Type 0 where
  pub elapsed : ℕ → ℤ
  pub turns : ℕ → Turn
  pub last_reply : List Ptr → Reply
  pub register_files : ℤ

-- The descriptors are registered with an io_uring; a failure ends the process. (Without a manager it
-- ends too, which `start_async` does.)
pub register : AioEngine → (ret : ℤ) → Option Aiom → Outcome (Option Aiom)
register aio_libaio ret a = ok a
register aio_iouring ret none = ok none
register aio_iouring (pos zero) (some a) = ok (some a)
register aio_iouring (pos (suc n)) (some a) = exit_failure
register aio_iouring (negsuc n) (some a) = exit_failure

module _ (m : Machine) (opt : IoOption m.Double) (fds : List ℕ) where
  -- The variables of the loops.
  pub record AsyncState : Type 0 where
    pub cursor : Cursor m
    pub aiom : Aiom
    pub log : Log

  pub choose_async : Pattern → Cursor m → Outcome (Chosen m)
  choose_async pattern_rand c = choose_rand m opt.nr_files c
  choose_async _ c = choose_seq m opt.nr_files c

  -- The generators after the choice between reading and writing, and after filling the buffer that
  -- is to be written.
  drawn : IoMode → m.Seed → Cursor m → Cursor m
  drawn do_read global c = record c { global = global }
  drawn do_write global c = record c {
    global = global;
    rand = (rand_buf m c.rand [] (pos_part opt.blk_sz)).1;
  }

  -- The body of the inner loop.
  pub queue_one : (now : ℕ) → AsyncState → Outcome AsyncState
  queue_one now s = do
    (idx, ofst, c) ← choose_async opt.pattern s.cursor
    let addr = ofst *ℤ opt.blk_sz +ℤ opt.misalign
    let (mode, global) = read_or_write m opt.read opt.write opt.rwmix c.global
    (cb, pool) ← ResPool.pop s.aiom.cbpool
    if cb == null then exit_failure else do
      fd ← at_index fds idx
      a ← prep opt mode fd (pos idx) cb opt.blk_sz addr now (record s.aiom { cbpool = pool })
      ok (record s { cursor = drawn mode global c; aiom = a })

  -- The inner loop, with fuel, from the request `i` on. `none` means that the fuel ran out.
  pub fill : (now : ℕ → ℕ) → (fuel i : ℕ) → AsyncState → Option (Outcome AsyncState)
  fill now zero i s = none
  fill now (suc fuel) i s =
      let more = resume (queue_one (now i) s) (fill now fuel (i + 1)) in
      if ltb 0 (nr_submittable s.aiom) then more else some (ok s)

  -- The submission and the wait of a turn, which is an error when no request comes back.
  pub submit_and_wait : Turn → AsyncState → Outcome AsyncState
  submit_and_wait t s = do
    a ← submit opt t.submit_time (t.submitted s.aiom.nr_pending) s.aiom
    (n, a', log) ← wait opt (t.reply a.context) (a, s.log)
    if n == 0 then exit_failure else ok (record s { aiom = a'; log = log })

  -- The outer loop, with fuel, from the check `i` on; `events` is the fuel of the inner loop.
  pub turns : AsyncSurroundings → (events fuel i : ℕ) → AsyncState → Option (Outcome AsyncState)
  turns env events zero i s = none
  turns env events (suc fuel) i s =
      let t = env.turns i in
      let more =
        resume_loop (fill t.queue_time events 0 s)
          λ s'. resume (submit_and_wait t s') (turns env events fuel (i + 1)) in
      if ltb_ℤ (env.elapsed i) (seconds opt.timeout) then more else some (ok s)

  -- The last wait, what is left in `meter`, and the manager.
  pub close_turns : AsyncSurroundings → AsyncState → Outcome (Meter m opt × Aiom)
  close_turns env s = do
    (n, a, log) ← waitall opt (env.last_reply s.aiom.context) (s.aiom, s.log)
    ok (record { iowait = a.iowait; count = a.iocount }, a)

  -- The variables at the start of the loops. Neither reading nor writing is an error.
  pub start_async :
      (id : ℕ) (rand global : m.Seed) → Option Aiom → Log → List ℤ → Outcome AsyncState
  start_async id rand global none log file_sizes = exit_failure
  start_async id rand global (some a) log file_sizes = do
    (os, los, his) ← init_offsets opt (ofst_async opt id) file_sizes
    let cursor : Cursor m = record {
      file_idx = 0;
      ofst_list = os;
      ofst_min_list = los;
      ofst_max_list = his;
      seekdist_side_list = map (λ _. 0) file_sizes;
      rand = rand;
      global = global;
    }
    if not opt.read && not opt.write
        then exit_failure
        else ok (record { cursor = cursor; aiom = a; log = log })

  -- `do_async_io` of the thread `id`: what is left in `meter`. `made` is what `mb_aiom_make` gives, and
  -- `rand` is the thread's generator after srand48_r(3). (Each turn queues at most `nr_events`
  -- requests, and a check more ends the inner loop.)
  pub do_async_io :
      AsyncSurroundings
      → (fuel id : ℕ) (rand global : m.Seed) (made : Outcome (Option Aiom)) → Log
      → Option (Outcome (Meter m opt))
  do_async_io env fuel id rand global made log = elim opt.file_size_list [
    | none ↦ some fault
    | some file_sizes ↦
        resume
          (made >>= λ made_aiom. register opt.aio_engine env.register_files made_aiom >>= λ a.
            start_async id rand global a log file_sizes)
          λ s. resume_loop (turns env (suc s.aiom.nr_events) fuel 0 s) λ s'.
            resume (close_turns env s')
              λ (meter, a). resume_loop (destroy (suc a.nr_events) a) λ freed. some (ok meter)
  ]

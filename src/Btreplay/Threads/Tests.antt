-- ===== src/Btreplay/Threads/Tests.antt =====
-- Two workers of src/micbench-btreplay.c on a dump of one record.
use micbench.Base.{ℕ, ◌+◌, ◌*◌, ◌≡◌, refl, arith, [], ◌∷◌, ◌++◌, length, true}
use micbench.Btreplay.{Trace, stop, trace}
use micbench.Btreplay.Threads.{
  Replay, reader, worker, push, after_take, pop, take_turn, move, Run, here, later, all_requests,
  start, taken, taken_by, calls_of,
}
use micbench.Btreplay.Threads.Finish.{Done, replay_finishes}
use micbench.Btreplay.Threads.Kept.{none_lost}
use micbench.Btreplay.Threads.Performs.{transfers, worker_performs}
use micbench.Btreplay.Replay.{performed}

abbrev record_read : Trace
record_read = record {
  magic = 1700885511;
  sequence = 1;
  time = 1000;
  sector = 8;
  bytes = 4096;
  action = 65543;
  pid = 10;
  device = 8388608;
  cpu = 0;
  error = 0;
  pdu_len = 0;
}

-- The second worker has taken the record, and one sign to stop is in the queue.
abbrev record_taken : Replay
record_taken = record {
  unread = stop ∷ [];
  queue = stop ∷ [];
  running = true ∷ true ∷ [];
  history = (1, trace record_read) ∷ [];
}

three_steps : Run 3 (start 2 (record_read ∷ [])) record_taken
unfolding move push take_turn pop after_take all_requests
three_steps = later reader refl (later (worker 1) refl (later reader refl (here _)))

replay_finishes_example :
    (k : ℕ) × (s' : Replay) × Run k record_taken s'
    × Done (all_requests 2 (record_read ∷ [])) s'
    × (3 + k ≡ 2 * (length (record_read ∷ []) + 2))
replay_finishes_example =
    replay_finishes 2 (record_read ∷ []) 3 record_taken (omega arith) three_steps

none_lost_example :
    taken ((1, trace record_read) ∷ []) ++ ((stop ∷ []) ++ (stop ∷ []))
    ≡ all_requests 2 (record_read ∷ [])
none_lost_example = none_lost 2 (record_read ∷ []) 3 record_taken three_steps

worker_performs_example : performed 0 (calls_of 1 record_taken) ≡ transfers (trace record_read ∷ [])
unfolding taken_by
worker_performs_example = worker_performs 2 (record_read ∷ []) 3 record_taken 1 0 three_steps

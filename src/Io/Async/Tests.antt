-- ===== src/Io/Async/Tests.antt =====
-- `do_async_io` at work: the manager and the file of Io/Tests.antt.
use micbench.Base.{◌*◌, [], ◌∷◌}
use micbench.Base.Int.{pos}
use micbench.Rand.Tests.{integers}
use micbench.Io.Wait.{handed_back}
use micbench.Io.Async.{Turn, AsyncSurroundings, AsyncState}
use micbench.Io.Tests.{opt, made, answer_all, no_log, rand_at_three}

-- the state of `do_async_io` before its first turn
abbrev first_turn : AsyncState integers opt (3 ∷ [])
first_turn = record { cursor = rand_at_three; aiom = made.0; log = no_log }

-- a kernel that finishes all that it holds, and a clock that reaches the timeout at its second look
abbrev turn : Turn
turn = record {
  queue_time = λ n. n;
  submit_time = 60;
  submitted = λ n. pos n;
  reply = λ held. handed_back (answer_all held);
}

abbrev env : AsyncSurroundings
env = record {
  elapsed = λ n. pos (n * 60000000);
  turns = λ i. turn;
  last_reply = λ held. handed_back (answer_all held);
  register_files = pos 0;
}

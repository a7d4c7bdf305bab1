-- ===== src/Btreplay/Threads/Finish.antt =====
-- How the threads end.
use mathlib.Core.List.{append-nil}
use micbench.Base.{
  ℕ, zero, suc, ◌+◌, ◌*◌, ◌<◌, ◌≡◌, refl, Bool, true, false, some, List, [], ◌∷◌, ◌++◌, length,
  get_elem?, replicate, arith, sym, ◌∙◌, some-injective, ap, length-append, inl, inr,
  length-replicate, List-cases, length-zero,
}
use micbench.Btreplay.{Trace, Ioreq, stop, trace}
use micbench.Btreplay.Threads.{
  Replay, Thread, reader, worker, push, after_take, pop, take_turn, move, Run, here, later,
  all_requests, start, taken,
}
use micbench.Btreplay.Threads.Kept.{
  stops, running_count, Kept, steps_left, move-Kept, Run-Kept, stops-all_requests, start-Kept,
}

-- A worker runs, as long as there is a sign to stop.
some_running : (bs : List Bool) → 0 < running_count bs → (t : ℕ) × (get_elem? bs t ≡ some true)
unfolding running_count
some_running [] h = absurd (omega arith)
some_running (true ∷ bs) h = (0, refl)
some_running (false ∷ bs) h = let (t, e) = some_running bs h in (suc t, e)

none_running :
    (bs : List Bool) (t : ℕ) (b : Bool) → running_count bs ≡ 0 → get_elem? bs t ≡ some b → b ≡ false
unfolding running_count
none_running [] t b e at_t = cc
none_running (true ∷ bs) t b e at_t = absurd (omega arith)
none_running (false ∷ bs) zero b e at_t = sym (some-injective at_t)
none_running (false ∷ bs) (suc t) b e at_t = none_running bs t b e at_t

-- What is left of the requests ends with signs to stop.
signs_left :
    (multi : ℕ) (pre rest : List Ioreq)
    → pre ++ rest ≡ replicate multi stop
    → stops rest ≡ length rest
unfolding stops
signs_left zero pre [] e = refl
signs_left zero [] (r ∷ rest) e = cc
signs_left zero (p ∷ pre) (r ∷ rest) e = cc
signs_left (suc multi) [] [] e = refl
signs_left (suc multi) [] (stop ∷ rest) e = ap suc (signs_left multi [] rest (cc))
signs_left (suc multi) [] (trace x ∷ rest) e = cc
signs_left (suc multi) (p ∷ pre) rest e = signs_left multi pre rest (cc)

sign_left :
    (multi : ℕ) (traces : List Trace) (pre rest : List Ioreq)
    → 0 < multi
    → pre ++ rest ≡ all_requests multi traces
    → 0 < length rest
    → 0 < stops rest
unfolding stops all_requests
sign_left multi [] pre rest some_worker e more = omega (arith, signs_left multi pre rest e)
sign_left multi (x ∷ xs) [] rest some_worker e more =
    let signs : stops rest ≡ stops (all_requests multi xs) = ap stops e in
    omega (arith, stops-all_requests multi xs)
sign_left multi (x ∷ xs) (p ∷ pre) rest some_worker e more =
    sign_left multi xs pre rest some_worker (cc) more

-- A thread can make a step as long as a request is unread or in the queue.
can_move :
    (multi : ℕ) (traces : List Trace) (s : Replay)
    → 0 < multi
    → Kept (all_requests multi traces) s
    → 0 < steps_left s
    → (t : Thread) × (s' : Replay) × (move s t ≡ some s')
unfolding move push take_turn pop
can_move multi traces s some_worker v more = elim (List-cases s.unread) [
  | inr (r, rs, e) ↦ (reader, record s { unread = rs; queue = s.queue ++ r ∷ [] }, ap (push s) e)
  | inl none_unread ↦ elim (List-cases s.queue) [
    | inl empty ↦ absurd (omega (arith, ap length none_unread, ap length empty))
    | inr (r, q, e) ↦
        let left = length-append s.queue s.unread in
        let signs =
          sign_left multi traces (taken s.history) (s.queue ++ s.unread) some_worker v.whole
            (omega (arith, ap length e)) in
        let (t, runs) = some_running s.running (omega (arith, v.signs)) in
        (
          worker t,
          record s {
            queue = q;
            running = after_take s.running t r;
            history = s.history ++ (t, r) ∷ [];
          },
          rw (move, runs) (ap (pop s t) e),
        )
  ]
]

-- Every worker has stopped, and the requests taken are all of them, in order.
pub record Done (all : List Ioreq) (s : Replay) : Type 0 where
  pub all_taken : taken s.history ≡ all
  pub all_stopped : (t : ℕ) (b : Bool) → get_elem? s.running t ≡ some b → b ≡ false

finish_replay :
    (multi : ℕ) (traces : List Trace) (d : ℕ) (s : Replay)
    → 0 < multi
    → Kept (all_requests multi traces) s
    → steps_left s ≡ d
    → (s' : Replay) × Run d s s' × Done (all_requests multi traces) s'
unfolding stops
finish_replay multi traces zero s some_worker v e =
    let unread = length-zero s.unread (omega arith) in
    let queue = length-zero s.queue (omega arith) in
    let nothing : s.queue ++ s.unread ≡ [] = ap (λ x. x ++ s.unread) queue ∙ unread in
    let ended : running_count s.running ≡ 0 = sym v.signs ∙ ap stops nothing in
    (
      s,
      here s,
      record {
        all_taken =
            sym (append-nil (taken s.history))
            ∙ ap (λ x. taken s.history ++ x) (sym nothing)
            ∙ v.whole;
        all_stopped = λ t b at_t. none_running s.running t b ended at_t;
      },
    )
finish_replay multi traces (suc d) s some_worker v e =
    let (t, s₁, step) = can_move multi traces s some_worker v (omega arith) in
    let (v₁, less) = move-Kept (all_requests multi traces) s s₁ t v step in
    let (s', run, done) = finish_replay multi traces d s₁ some_worker v₁ (omega arith) in
    (s', later t step run, done)

length-all_requests :
    (multi : ℕ) (traces : List Trace) → length (all_requests multi traces) ≡ length traces + multi
unfolding all_requests
length-all_requests multi [] = omega (arith, length-replicate multi stop)
length-all_requests multi (x ∷ xs) = omega (arith, length-all_requests multi xs)

-- Whatever the reader and one worker or more have done, no deadlock is ahead: they can go on until
-- every worker has stopped, and then each record of the dump and each sign to stop has been taken from
-- the queue once, by one worker, in the order of the dump. However the threads are interleaved, it
-- takes two steps for each record and each sign.
pub replay_finishes :
    (multi : ℕ) (traces : List Trace) (n : ℕ) (s : Replay)
    → 0 < multi
    → Run n (start multi traces) s
    → (k : ℕ) × (s' : Replay) × Run k s s'
      × Done (all_requests multi traces) s'
      × (n + k ≡ 2 * (length traces + multi))
replay_finishes multi traces n s some_worker run =
    let (v, steps) = Run-Kept (all_requests multi traces) run (start-Kept multi traces) in
    let (s', rest, done) = finish_replay multi traces (steps_left s) s some_worker v refl in
    (steps_left s, s', rest, done, omega (arith, length-all_requests multi traces))

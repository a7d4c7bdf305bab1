-- ===== src/Io/Tests.antt =====
-- src/micbench-io.c at work: two callbacks over libaio, one file, ranges of three blocks.
use micbench.Base.{
  ℕ, zero, suc, ◌+◌, ◌%◌, ◌<◌, ◌≡◌, refl, true, none, some, List, [], ◌∷◌, length, arith, ok,
  get_elem?, if◌then◌else◌, ◌==◌, ap, take,
}
use micbench.Base.Int.{ℤ, pos, negsuc, ◌+ℤ◌, int_laws}
use micbench.Base.Text.{codes}
use micbench.ResPool
use micbench.ResPool.{Ptr, ResPool}
use micbench.ResPool.Make.{Distinct, NoneFails}
use micbench.Rand.{do_read}
use micbench.Rand.Tests.{integers, integers-IsRounding}
use micbench.Io.Options.{IoOption, aio_iouring}
use micbench.Io.Args.{defaults}
use micbench.Io.Log.{Log}
use micbench.Io.Aiom.{Aiom, prep, submit, load_cb, fresh_cb}
use micbench.Io.Count.{count, count_self}
use micbench.Io.Aiom
use micbench.Io.Wait.{
  Completion, handed_back, path_of, wait, wait_for, wait_iouring, finish_all, finish_one, remove,
}
use micbench.Io.Owned.{Owned}
use micbench.Io.Owned.Make.{Fresh, make-Fresh, Fresh-Owned}
use micbench.Io.Owned.Submit.{prep-Owned, submit-Owned}
use micbench.Io.Owned.Waits.{Drawn, wait-Owned, wait_for-iouring}
use micbench.Io.Offsets.{Cursor, choose_seq, choose_rand}
use micbench.Io.Offsets.Range.{
  InRange, Within, ExactRanges, choose_seq-InRange, choose_rand-InRange,
}

abbrev pub opt : IoOption ℤ
opt = record (defaults integers 1) {
  file_path_list = some (codes "f" ∷ []);
  file_size_list = some (pos 12288 ∷ []);
}

abbrev opt_iouring : IoOption ℤ
opt_iouring = record opt { aio_engine = aio_iouring }

abbrev addresses : ℕ → Ptr
addresses i = i + 1

addresses-NoneFails : NoneFails addresses
addresses-NoneFails i e = absurd (omega arith)

addresses-Distinct : Distinct addresses
addresses-Distinct i j lt e = absurd (omega arith)

first_path : path_of opt.file_path_list (pos 0) ≡ ok (codes "f")
unfolding path_of
first_path = refl

make-Fresh_example :
    (a : Aiom) × (Aiom.make addresses addresses addresses addresses (pos 0) (negsuc 6) 2
      ≡ ok (some a))
    × Fresh 2 (1 ∷ (2 ∷ [])) a
    × (a.iowait ≡ negsuc 6)
make-Fresh_example =
    make-Fresh addresses addresses addresses addresses-NoneFails addresses-NoneFails
      addresses-NoneFails addresses (negsuc 6) 2 addresses-NoneFails addresses-Distinct
      (omega arith)

-- the manager just made, with one request queued, and with that request submitted
fresh :
    (a : Aiom) × (Aiom.make addresses addresses addresses addresses (pos 0) (negsuc 6) 2
      ≡ ok (some a))
    × Fresh 2 (1 ∷ (2 ∷ [])) a
    × (a.iowait ≡ negsuc 6)
fresh =
    make-Fresh addresses addresses addresses addresses-NoneFails addresses-NoneFails
      addresses-NoneFails addresses (negsuc 6) 2 addresses-NoneFails addresses-Distinct
      (omega arith)

pub made :
    (a : Aiom) × (Aiom.make addresses addresses addresses addresses (pos 0) (negsuc 6) 2
      ≡ ok (some a))
    × Owned opt (1 ∷ (2 ∷ [])) a (1 ∷ (2 ∷ []))
made =
    (fresh.0, fresh.1, Fresh-Owned opt (codes "f") 2 (1 ∷ (2 ∷ [])) fresh.0 first_path refl fresh.2)

queued :
    (pool' : ResPool) × (a' : Aiom) × (ResPool.pop made.0.cbpool ≡ ok (1, pool'))
    × (prep opt do_read 3 (pos 0) 1 (pos 4096) (pos 8192) 50 (record made.0 { cbpool = pool' })
        ≡ ok a')
    × Owned opt (1 ∷ (2 ∷ [])) a' (2 ∷ [])
queued = prep-Owned opt (1 ∷ (2 ∷ [])) do_read 3 (pos 0) (pos 4096) (pos 8192) 50 first_path made.2

submit-Owned_example :
    (a' : Aiom) × (submit opt 60 (pos queued.1.nr_pending) queued.1 ≡ ok a')
    × Owned opt (1 ∷ (2 ∷ [])) a' (2 ∷ [])
    × (a'.nr_pending ≡ 0)
    × (a'.nr_inflight ≡ queued.1.nr_inflight + queued.1.nr_pending)
submit-Owned_example = submit-Owned opt (1 ∷ (2 ∷ [])) 60 queued.4

submitted :
    (a' : Aiom) × (submit opt 60 (pos queued.1.nr_pending) queued.1 ≡ ok a')
    × Owned opt (1 ∷ (2 ∷ [])) a' (2 ∷ [])
    × (a'.nr_pending ≡ 0)
    × (a'.nr_inflight ≡ queued.1.nr_inflight + queued.1.nr_pending)
submitted = submit-Owned opt (1 ∷ (2 ∷ [])) 60 queued.4

-- the kernel hands back all that it holds
abbrev pub answer_all : List Ptr → List Completion
answer_all [] = []
answer_all (p ∷ ps) = record { obj = p; t1 = 70; now = 71 } ∷ answer_all ps

pub answer_all-Drawn : (ctx : List Ptr) → Drawn (answer_all ctx) ctx
unfolding remove
answer_all-Drawn [] = tt
answer_all-Drawn (p ∷ ps) =
    let same : (p == p) ≡ true = ground arith in
    (omega (arith, count_self p ps), rw same (answer_all-Drawn ps))

pub length-answer_all : (ctx : List Ptr) → length (answer_all ctx) ≡ length ctx
length-answer_all [] = refl
length-answer_all (p ∷ ps) = ap suc (length-answer_all ps)

count-take_zero : (p : Ptr) (n : ℕ) (ps : List Ptr) → n ≡ 0 → count p (take n ps) ≡ 0
count-take_zero p n ps e = rw e refl

first_held : 0 < count 1 submitted.0.context
first_held = omega (
  arith,
  count-take_zero 1 submitted.0.nr_pending submitted.0.pending submitted.3,
  submitted.2.balance 1,
)

abbrev pub no_log : Log
no_log = record { logcount = 0; log_start_usec = 0; lines = [] }

wait-Owned_example :
    (a' : Aiom) × (log' : Log) × (wait opt (handed_back (answer_all (1 ∷ []))) (submitted.0, no_log)
      ≡ ok (1, a', log'))
    × Owned opt (1 ∷ (2 ∷ [])) a' (2 ∷ (1 ∷ []))
    × (a'.nr_inflight + 1 ≡ submitted.0.nr_inflight)
    × (a'.iocount ≡ submitted.0.iocount + 1)
    × (a'.nr_pending ≡ submitted.0.nr_pending)
wait-Owned_example =
    wait-Owned opt (1 ∷ (2 ∷ [])) (answer_all (1 ∷ [])) no_log submitted.2 (first_held, tt)
      (omega arith)

-- a manager over io_uring: one callback, which is in flight
abbrev in_ring : Aiom
in_ring = record {
  context = 1 ∷ [];
  sqes = [];
  cbpool = record {
    nr_elems = 1;
    nr_avail = 0;
    ring = 1;
    head = 1;
    tail = 1;
    cells = λ p. if p == 1 then some (record { elem = 1; next = 1 }) else none;
  };
  nr_events = 1;
  nr_pending = 0;
  nr_inflight = 1;
  handed_over = 0;
  iocount = 0;
  iowait = pos 0;
  pending = 1 ∷ [];
  cbs = λ p. if p == 1 then some (fresh_cb 0) else none;
}

ring_run :
    (n : ℕ) × (a' : Aiom) × (log' : Log) × (wait_for opt_iouring 1 1
        (handed_back (answer_all (1 ∷ [])))
        (in_ring, no_log)
      ≡ ok (n, a', log'))
unfolding wait_for wait_iouring finish_all finish_one load_cb path_of ResPool.push
ring_run = (_, _, _, refl)

wait_for-iouring_example :
    (ring_run.0 ≡ 1) × (ring_run.1.iocount ≡ 0) × (ring_run.1.nr_inflight ≡ 1)
wait_for-iouring_example =
    wait_for-iouring opt_iouring 1 1 (answer_all (1 ∷ [])) in_ring ring_run.1 no_log ring_run.2
      ring_run.0 refl ring_run.3

unfoldable pub rand_at_three : Cursor integers
rand_at_three = record {
  file_idx = 0;
  ofst_list = pos 2 ∷ [];
  ofst_min_list = pos 0 ∷ [];
  ofst_max_list = pos 3 ∷ [];
  seekdist_side_list = 0 ∷ [];
  rand = 7;
  global = 0;
}

at_zero : {A : Type 0} (x y : A) (i : ℕ) → get_elem? (x ∷ []) i ≡ some y → x ≡ y
at_zero x y zero h = cc
at_zero x y (suc zero) h = cc
at_zero x y (suc (suc i)) h = cc

three-InRange : InRange integers 1 rand_at_three
unfolding rand_at_three
three-InRange = record {
  some_file = omega arith;
  ofsts = refl;
  los = refl;
  his = refl;
  has_block = λ i lo hi at_lo at_hi.
      let e = at_zero (pos 0) lo i at_lo in
      let e' = at_zero (pos 3) hi i at_hi in rw (← e, ← e') (omega int_laws);
  above = λ i lo o at_lo at_o.
      let e = at_zero (pos 0) lo i at_lo in
      let e' = at_zero (pos 2) o i at_o in rw (← e, ← e') (omega int_laws);
}

three-ExactRanges : ExactRanges integers rand_at_three
unfolding rand_at_three
three-ExactRanges = record {
  ends = λ i lo hi at_lo at_hi.
      let e = at_zero (pos 0) lo i at_lo in
      let e' = at_zero (pos 3) hi i at_hi in
      rw (← e, ← e')
        ((omega arith, omega arith), (omega arith, omega arith), (omega int_laws, omega int_laws));
}

choose_seq-InRange_example :
    (ofst : ℤ) × (c' : Cursor integers) × (choose_seq integers 1 rand_at_three
      ≡ ok ((rand_at_three.file_idx + 1) % 1, ofst, c'))
    × Within integers 1 rand_at_three ((rand_at_three.file_idx + 1) % 1) ofst (ofst +ℤ pos 1)
    × InRange integers 1 c'
choose_seq-InRange_example = choose_seq-InRange integers 1 rand_at_three three-InRange

choose_rand-InRange_example :
    (idx : ℕ) × (ofst : ℤ) × (c' : Cursor integers) × (choose_rand integers 1 rand_at_three
      ≡ ok (idx, ofst, c'))
    × Within integers 1 rand_at_three idx ofst ofst
    × InRange integers 1 c'
choose_rand-InRange_example =
    choose_rand-InRange integers integers-IsRounding 1 rand_at_three three-InRange three-ExactRanges

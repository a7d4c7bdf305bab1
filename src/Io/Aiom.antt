-- ===== src/Io/Aiom.antt =====
-- Queueing in the AIO manager of src/micbench-io.c (`mb_aiom_*`), for both engines. `aiom_cb_t` is `Cb` and
-- `mb_aiom_t` is `Aiom`; `cbs` is the part of the heap that holds the callbacks. `context` stands for
-- the kernel's side of `context` or `uring`: the requests that it has accepted and not yet handed
-- back, and `handed_over` is how many it has accepted so far; `sqes` are the entries of the io_uring queue that are not submitted. What the system calls
-- return, and the clock, are arguments.
use micbench.Base.{
  ℕ, zero, suc, ◌+◌, Bool, false, Option, none, some, List, [], ◌∷◌, ◌++◌, ltb, ◌==◌, if◌then◌else◌,
  length, set, take, replicate, Outcome, ok, exit_failure, fault, ◌>>=◌, ◌≡◌,
}
use micbench.Base.Int.{ℤ, pos, negsuc}
use micbench.ResPool.{Ptr, null, ResPool}
use micbench.ResPool
use micbench.Rand.{IoMode, do_read}
use micbench.Io.Options.{IoOption, AioEngine, aio_libaio, aio_iouring}

-- What io_prep_pread(3), io_prep_pwrite(3) and their io_uring counterparts fill in.
pub record Iocb : Type 0 where
  pub mode : IoMode
  pub fd : ℕ
  pub iov_len : ℤ
  pub offset : ℤ

pub record Cb : Type 0 where
  pub iocb : Iocb
  pub submit_time : ℕ
  pub queue_time : ℕ
  pub file_idx : ℤ
  pub iovec_idx : ℕ

abbrev pub Cbs : Type 0
Cbs = Ptr → Option Cb

pub record Aiom : Type 0 where
  pub context : List Ptr
  pub handed_over : ℕ
  pub sqes : List Ptr
  pub cbpool : ResPool
  pub nr_events : ℕ
  pub nr_pending : ℕ
  pub nr_inflight : ℕ
  pub iocount : ℕ
  pub iowait : ℤ
  pub pending : List Ptr
  pub cbs : Cbs

unfoldable pub write_cb : Cbs → Ptr → Cb → Cbs
write_cb h p c a = if a == p then some c else h a

unfoldable pub load_cb : Cbs → Ptr → Outcome Cb
load_cb h p = elim (h p) [ none ↦ fault | some c ↦ ok c ]

pub load_cb-some : (h : Cbs) (p : Ptr) {c : Cb} → h p ≡ some c → load_cb h p ≡ ok c
unfolding load_cb
load_cb-some h p e = rw (e, load_cb)

-- a callback as bzero(3) and `mb_aiom_make` leave it
abbrev pub fresh_cb : ℕ → Cb
fresh_cb i = record {
  iocb = record { mode = do_read; fd = 0; iov_len = pos 0; offset = pos 0 };
  submit_time = 0;
  queue_time = 0;
  file_idx = pos 0;
  iovec_idx = i;
}

-- The loop of `mb_aiom_make`, `n` rounds from the round `i` on: `malloc i` is the i-th callback,
-- `memalign i` its buffer.
unfoldable pub make_cbs :
    (malloc memalign : ℕ → Ptr) (n i : ℕ) → ResPool → Cbs → Outcome (ResPool × Cbs)
make_cbs malloc memalign zero i pool h = ok (pool, h)
make_cbs malloc memalign (suc n) i pool h =
    let rest =
      (ResPool.push pool (malloc i) >>= λ (r, pool').
      make_cbs malloc memalign n (i + 1) pool' (write_cb h (malloc i) (fresh_cb i))) in
    if malloc i == null then exit_failure else if memalign i == null then exit_failure else rest

-- The blocks of the manager, of `pending`, of `events` and of `vecs`, in this order. The first is not
-- checked: a store through NULL is a fault.
unfoldable pub take_blocks : (blocks : ℕ → Ptr) → Outcome (Unit {0})
take_blocks blocks =
    if blocks 0 == null
    then fault
    else if blocks 1 == null
    then exit_failure
    else if blocks 2 == null
    then exit_failure
    else if blocks 3 == null
    then exit_failure
    else ok tt

-- `mb_aiom_make`: `blocks` are the addresses of its own blocks, `cells` those of the cells of the pool,
-- `setup` is what io_setup(2) or the calls that make an io_uring return, and `garbage` is what malloc(3)
-- left in `iowait`, which is not set. `none` for NULL.
unfoldable pub make :
    (blocks cells malloc memalign : ℕ → Ptr) (setup : ℤ) (garbage : ℤ) (nr_events : ℕ)
    → Outcome (Option Aiom)
make blocks cells malloc memalign setup garbage nr_events = do
  taken ← take_blocks blocks
  pool ← ResPool.make cells nr_events
  (pool', h) ← make_cbs malloc memalign nr_events 0 pool (λ _. none)
  ok (elim setup [
    | pos zero ↦ some (record {
      context = [];
      handed_over = 0;
      sqes = [];
      cbpool = pool';
      nr_events = nr_events;
      nr_pending = 0;
      nr_inflight = 0;
      iocount = 0;
      iowait = garbage;
      pending = replicate nr_events null;
      cbs = h;
    })
    | _ ↦ none
  ])

-- `mb_aiom_nr_submittable`
unfoldable pub nr_submittable : Aiom → ℕ
nr_submittable a = a.cbpool.nr_avail

-- An io_uring request is also an entry of the submission queue.
abbrev pub with_entry : AioEngine → Ptr → Aiom → List Ptr
with_entry aio_libaio p a = a.sqes
with_entry aio_iouring p a = a.sqes ++ p ∷ []

-- What a submission hands to the kernel: `pending` with libaio, the queue's entries with io_uring.
abbrev pub accepted : AioEngine → Aiom → List Ptr
accepted aio_libaio a = take a.nr_pending a.pending
accepted aio_iouring a = a.sqes

abbrev pub left_over : AioEngine → Aiom → List Ptr
left_over aio_libaio a = a.sqes
left_over aio_iouring a = []

abbrev pub is_count : ℤ → ℕ → Bool
is_count (pos n) k = n == k
is_count (negsuc n) k = false

module _ {D : Type 0} (opt : IoOption D) where
  -- `mb_aiom_prep_pread` and `mb_aiom_prep_pwrite`, by the mode. The length is that of the callback's
  -- buffer, which is the block size; `count` is not looked at.
  unfoldable pub prep :
      IoMode
      → (fd : ℕ) (file_idx : ℤ) → Ptr
      → (count : ℤ) (offset : ℤ) (now : ℕ) → Aiom
      → Outcome Aiom
  prep mode fd file_idx p count offset now a = do
    cb ← load_cb a.cbs p
    let iocb : Iocb = record { mode = mode; fd = fd; iov_len = opt.blk_sz; offset = offset }
    let cb' = record cb { iocb = iocb; queue_time = now; file_idx = file_idx }
    if ltb a.nr_pending (length a.pending)
        then ok (record a {
          sqes = with_entry opt.aio_engine p a;
          cbs = write_cb a.cbs p cb';
          pending = set a.pending a.nr_pending p;
          nr_pending = a.nr_pending + 1;
        })
        else fault

  -- The first loop of `mb_aiom_submit`.
  unfoldable pub stamp : (now : ℕ) → List Ptr → Cbs → Outcome Cbs
  stamp now [] h = ok h
  stamp now (p ∷ ps) h = do
    cb ← load_cb h p
    stamp now ps (write_cb h p (record cb { submit_time = now }))

  -- `mb_aiom_submit`; `ret` is what io_submit(2) or io_uring_submit(3) returns.
  unfoldable pub submit : (now : ℕ) (ret : ℤ) → Aiom → Outcome Aiom
  submit now ret a = if a.nr_pending == 0 then ok a else do
    h ← stamp now (take a.nr_pending a.pending) a.cbs
    if is_count ret a.nr_pending
        then ok (record a {
          cbs = h;
          context = a.context ++ accepted opt.aio_engine a;
          handed_over = a.handed_over + length (accepted opt.aio_engine a);
          sqes = left_over opt.aio_engine a;
          nr_inflight = a.nr_inflight + a.nr_pending;
          nr_pending = 0;
        })
        else exit_failure

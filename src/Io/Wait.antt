-- ===== src/Io/Wait.antt =====
-- The waits of the AIO manager of src/micbench-io.c: `__mb_aiom_wait`, `mb_aiom_wait` and
-- `mb_aiom_waitall`. What the kernel hands back is an argument.
use micbench.Base.{
  ℕ, zero, suc, ◌+◌, ◌-◌, Option, none, some, List, [], ◌∷◌, ltb, ◌==◌, if◌then◌else◌, length, take,
  get_elem?, Outcome, ok, exit_failure, fault, waits, ◌>>=◌,
}
use micbench.Base.Int.{ℤ, pos, negsuc, ◌+ℤ◌, ◌-ℤ◌}
use micbench.Base.Text.{Text, codes}
use micbench.ResPool.{Ptr}
use micbench.ResPool
use micbench.Io.Options.{IoOption, AioEngine, aio_libaio, aio_iouring}
use micbench.Io.Log.{Log, log_io_activity}
use micbench.Io.Aiom.{Aiom, load_cb}

-- A request that the kernel hands back, with the two times that are read while it is accounted for.
-- (Its result is only compared, for a message.)
pub record Completion : Type 0 where
  pub obj : Ptr
  pub t1 : ℕ
  pub now : ℕ

-- What io_getevents(2) returns, or the calls of io_uring_wait_cqe(3) in turn.
pub data Reply : Type 0 where
  failed : Reply
  handed_back : List Completion → Reply

-- The kernel's requests without one that is handed back.
unfoldable pub remove : Ptr → List Ptr → List Ptr
remove p [] = []
remove p (q ∷ qs) = if q == p then qs else q ∷ remove p qs

unfoldable pub remove_all : List Completion → List Ptr → List Ptr
remove_all [] ctx = ctx
remove_all (c ∷ cs) ctx = remove_all cs (remove c.obj ctx)

-- `file_path_list[idx]`, or `(null)` for -1
unfoldable pub path_of : Option (List Text) → ℤ → Outcome Text
path_of paths (negsuc zero) = ok (codes "(null)")
path_of paths (negsuc (suc n)) = fault
path_of none (pos n) = fault
path_of (some ps) (pos n) = elim (get_elem? ps n) [ none ↦ fault | some p ↦ ok p ]

-- `switch(option.aio_engine)`
abbrev pub by_engine {ℓ} : {A : Type ℓ} → AioEngine → A → A → A
by_engine aio_libaio x y = x
by_engine aio_iouring x y = y

module _ {D : Type 0} (opt : IoOption D) where
  -- The body of the loop over the completions.
  unfoldable pub finish_one : Completion → Aiom × Log → Outcome (Aiom × Log)
  finish_one c (a, log) = do
    cb ← load_cb a.cbs c.obj
    path ← path_of opt.file_path_list cb.file_idx
    (r, pool) ← ResPool.push a.cbpool c.obj
    ok (
      record a { iowait = a.iowait +ℤ (pos c.now -ℤ pos cb.submit_time); cbpool = pool },
      log_io_activity opt.logfile cb.submit_time c.t1 path cb.iocb.offset opt.blk_sz log,
    )

  unfoldable pub finish_all : List Completion → Aiom × Log → Outcome (Aiom × Log)
  finish_all [] s = ok s
  finish_all (c ∷ cs) s = do s' ← finish_one c s; finish_all cs s'

  -- The case of libaio: the kernel hands back `min_nr` requests or more, and at most `nr`, which is
  -- the room of `events`.
  unfoldable pub wait_libaio :
      (min_nr nr : ℕ) → List Completion → Aiom × Log → Outcome (ℕ × Aiom × Log)
  wait_libaio min_nr nr cs (a, log) =
      let counted = record a {
        context = remove_all cs a.context;
        nr_inflight = a.nr_inflight - length cs;
        iocount = a.iocount + length cs;
      } in
      if ltb (length cs) min_nr
      then waits
      else if ltb nr (length cs)
      then fault
      else do (a', log') ← finish_all cs (counted, log); ok (length cs, a', log')

  -- The case of io_uring: the loop waits for `min_nr` completions, one by one.
  unfoldable pub wait_iouring :
      (min_nr : ℕ) → List Completion → Aiom × Log → Outcome (ℕ × Aiom × Log)
  wait_iouring min_nr cs (a, log) =
      let seen = take min_nr cs in
      let kept = record a { context = remove_all seen a.context } in
      if ltb (length cs) min_nr
      then waits
      else do (a', log') ← finish_all seen (kept, log); ok (min_nr, a', log')

  -- `__mb_aiom_wait` with no timeout.
  unfoldable pub wait_for : (min_nr nr : ℕ) → Reply → Aiom × Log → Outcome (ℕ × Aiom × Log)
  wait_for min_nr nr failed s = exit_failure
  wait_for min_nr nr (handed_back cs) s =
      by_engine opt.aio_engine (wait_libaio min_nr nr cs s) (wait_iouring min_nr cs s)

  -- `mb_aiom_wait`
  unfoldable pub wait : Reply → Aiom × Log → Outcome (ℕ × Aiom × Log)
  wait r (a, log) = wait_for 1 a.nr_inflight r (a, log)

  -- `mb_aiom_waitall`
  unfoldable pub waitall : Reply → Aiom × Log → Outcome (ℕ × Aiom × Log)
  waitall r (a, log) = wait_for a.nr_inflight a.nr_inflight r (a, log)

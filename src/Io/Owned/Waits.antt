-- ===== src/Io/Owned/Waits.antt =====
-- The invariant behind `mb_aiom_wait` and `mb_aiom_waitall`, and the counters with io_uring.
use mathlib.Core.List.{append_assoc, append-nil}
use micbench.Base.{
  ℕ, suc, ◌+◌, ◌-◌, ◌≤◌, ◌<◌, ◌≡◌, refl, List, [], ◌∷◌, ◌++◌, arith, length, take, ok, >>=-eq-ok,
  take, length-append, ap, ◌∙◌, sym, ltb, false, ◌==◌, Bool-cases, inl, inr, if◌then◌else◌,
}
use micbench.Base.Int.{ℤ, pos, ◌+ℤ◌, ◌-ℤ◌}
use micbench.ResPool.{Ptr, ResPool, push}
use micbench.ResPool.Ring.{Holds}
use micbench.ResPool.Fifo.{put_newest, push_refines}
use micbench.Io.Options.{IoOption, aio_iouring}
use micbench.Io.Log.{Log, log_io_activity}
use micbench.Io.Count.{count, count-append, count_self}
use micbench.Io.Aiom.{Aiom, load_cb, load_cb-some}
use micbench.Io.Wait.{
  Completion, handed_back, remove, remove_all, path_of, finish_one, finish_all, by_engine,
  wait_libaio, wait_iouring, wait_for, wait, waitall,
}
use micbench.Io.Owned.{Known, Owned}

abbrev pub objs : List Completion → List Ptr
objs [] = []
objs (c ∷ cs) = c.obj ∷ objs cs

-- What the kernel hands back is what it held, each request once.
abbrev pub Drawn : List Completion → List Ptr → Type 0
Drawn [] ctx = Unit {0}
Drawn (c ∷ cs) ctx = (0 < count c.obj ctx) × Drawn cs (remove c.obj ctx)

count-remove :
    (p q : Ptr) (ctx : List Ptr)
    → 0 < count q ctx
    → count p ctx ≡ (if q == p then 1 else 0) + count p (remove q ctx)
unfolding remove
count-remove p q [] h = absurd (omega arith)
count-remove p q (x ∷ ctx) h = elim (Bool-cases (x == q)) [
  | inl same ↦ let e : x ≡ q = ground arith in rw (same, e)
  | inr other ↦ let ih = count-remove p q ctx (ground arith) in rw other (omega arith)
]

length-remove :
    (q : Ptr) (ctx : List Ptr) → 0 < count q ctx → length ctx ≡ suc (length (remove q ctx))
unfolding remove
length-remove q [] h = absurd (omega arith)
length-remove q (x ∷ ctx) h = elim (Bool-cases (x == q)) [
  | inl same ↦ rw same
  | inr other ↦ rw other (ap suc (length-remove q ctx (ground arith)))
]

count-remove_all :
    (p : Ptr) (cs : List Completion) (ctx : List Ptr)
    → Drawn cs ctx
    → count p ctx ≡ count p (objs cs) + count p (remove_all cs ctx)
unfolding remove_all
count-remove_all p [] ctx d = omega arith
count-remove_all p (c ∷ cs) ctx (here, d) =
    omega (arith, count-remove p c.obj ctx here, count-remove_all p cs (remove c.obj ctx) d)

length-remove_all :
    (cs : List Completion) (ctx : List Ptr)
    → Drawn cs ctx
    → length ctx ≡ length cs + length (remove_all cs ctx)
unfolding remove_all
length-remove_all [] ctx d = omega arith
length-remove_all (c ∷ cs) ctx (here, d) =
    omega (arith, length-remove c.obj ctx here, length-remove_all cs (remove c.obj ctx) d)

length-objs : (cs : List Completion) → length (objs cs) ≡ length cs
length-objs [] = refl
length-objs (c ∷ cs) = ap suc (length-objs cs)

module _ {D : Type 0} (opt : IoOption D) (all : List Ptr) where
  finish_all-ok :
      (cs : List Completion) (a : Aiom) (log : Log) (cap : ℕ) (pool : List Ptr)
      → Known opt all a.cbs
      → Holds a.cbpool cap pool
      → length pool + length cs ≤ cap
      → ((p : Ptr) → 0 < count p (objs cs) → 0 < count p all)
      → (w : ℤ) × (pool' : ResPool) × (log' : Log) × (finish_all opt cs (a, log)
          ≡ ok (record a { iowait = w; cbpool = pool' }, log'))
        × Holds pool' cap (pool ++ objs cs)
  unfolding finish_all finish_one put_newest
  finish_all-ok [] a log cap pool k v fits mine = (a.iowait, a.cbpool, log, refl, rw append-nil v)
  finish_all-ok (c ∷ cs) a log cap pool k v fits mine =
      let (cb, at) = k.there c.obj (mine c.obj (omega (arith, count_self c.obj (objs cs)))) in
      let (path, e) = k.has_path c.obj cb at in
      let (pool₁, pushed, v₁) = push_refines c.obj v in
      let room : (length pool == cap) ≡ false = ground arith in
      let v₂ : Holds pool₁ cap (pool ++ c.obj ∷ []) = rw room at v₁ in
      let a₁ : Aiom = record a {
        iowait = a.iowait +ℤ (pos c.now -ℤ pos cb.submit_time);
        cbpool = pool₁;
      } in
      let log₁ =
        log_io_activity opt.logfile cb.submit_time c.t1 path cb.iocb.offset opt.blk_sz log in
      let (w, pool', log', run, v') =
        finish_all-ok cs a₁ log₁ cap (pool ++ c.obj ∷ []) k v₂
          (omega (arith, length-append pool (c.obj ∷ []))) (λ p some_p. mine p (omega arith)) in
      (w, pool', log', rw (load_cb-some a.cbs c.obj at, e, pushed) run, rw append_assoc at v')

  wait_for-Owned :
      (min_nr : ℕ) (cs : List Completion) {a : Aiom} {pool : List Ptr} (log : Log)
      → Owned opt all a pool
      → Drawn cs a.context
      → min_nr ≤ length cs
      → (a' : Aiom) × (log' : Log) × (wait_for opt min_nr a.nr_inflight (handed_back cs) (a, log)
          ≡ ok (length cs, a', log'))
        × Owned opt all a' (pool ++ objs cs)
        × (a'.nr_inflight + length cs ≡ a.nr_inflight)
        × (a'.iocount ≡ a.iocount + length cs)
        × (a'.nr_pending ≡ a.nr_pending)
  unfolding wait_for wait_libaio
  wait_for-Owned min_nr cs {a} {pool} log v drawn enough =
      let gone = length-remove_all cs a.context drawn in
      let counted : Aiom = record a {
        context = remove_all cs a.context;
        nr_inflight = a.nr_inflight - length cs;
        iocount = a.iocount + length cs;
      } in
      let few : ltb (length cs) min_nr ≡ false = ground arith in
      let fits : ltb a.nr_inflight (length cs) ≡ false = ground (arith, v.inflight, gone) in
      let (w, pool', log', run, holds) =
        finish_all-ok cs counted log a.nr_events pool v.known v.holds
          (omega (arith, v.sizes, v.inflight, gone))
          (λ p h. omega (arith, v.balance p, count-remove_all p cs a.context drawn)) in
      (
        record counted { iowait = w; cbpool = pool' },
        log',
        ap
              (λ e.
                by_engine e (wait_libaio opt min_nr a.nr_inflight cs (a, log))
                  (wait_iouring opt min_nr cs (a, log)))
              v.engine
            ∙ rw (few, fits, run),
        record {
          events = v.events;
          engine = v.engine;
          holds = holds;
          room = v.room;
          counted = omega (arith, v.counted, v.inflight, gone);
          inflight = omega (arith, v.inflight, gone);
          sizes =
              omega
                (arith, v.sizes, v.inflight, gone, length-append pool (objs cs), length-objs cs);
          balance = λ p. omega (
            arith,
            v.balance p,
            count-append p pool (objs cs),
            count-remove_all p cs a.context drawn,
          );
          known = v.known;
        },
        omega (arith, v.inflight, gone),
        refl,
        refl,
      )

  -- When the kernel hands back at least one request, each of them one that it held,
  -- `mb_aiom_wait` returns their number, puts their callbacks back into the pool, and counts them out
  -- of the requests in flight and into the finished ones.
  pub wait-Owned :
      (cs : List Completion) {a : Aiom} {pool : List Ptr} (log : Log)
      → Owned opt all a pool
      → Drawn cs a.context
      → 1 ≤ length cs
      → (a' : Aiom) × (log' : Log) × (wait opt (handed_back cs) (a, log) ≡ ok (length cs, a', log'))
        × Owned opt all a' (pool ++ objs cs)
        × (a'.nr_inflight + length cs ≡ a.nr_inflight)
        × (a'.iocount ≡ a.iocount + length cs)
        × (a'.nr_pending ≡ a.nr_pending)
  unfolding wait
  wait-Owned cs log v drawn some_event = wait_for-Owned 1 cs log v drawn some_event

  -- When the kernel hands back all that it holds, `mb_aiom_waitall` returns with no request in flight
  -- and counts every one.
  pub waitall-Owned :
      (cs : List Completion) {a : Aiom} {pool : List Ptr} (log : Log)
      → Owned opt all a pool
      → Drawn cs a.context
      → length cs ≡ length a.context
      → (a' : Aiom) × (log' : Log) × (waitall opt (handed_back cs) (a, log)
          ≡ ok (a.nr_inflight, a', log'))
        × Owned opt all a' (pool ++ objs cs)
        × (a'.nr_inflight ≡ 0)
        × (a'.iocount ≡ a.iocount + a.nr_inflight)
        × (a'.nr_pending ≡ a.nr_pending)
  unfolding waitall
  waitall-Owned cs {a} log v drawn every =
      let e : length cs ≡ a.nr_inflight = omega (arith, v.inflight) in
      let (a', log', run, v', fewer, more, same) =
        wait_for-Owned a.nr_inflight cs log v drawn (omega arith) in
      (a', log', run ∙ ap (λ n. ok (n, a', log')) e, v', omega arith, omega arith, same)

module _ {D : Type 0} (opt : IoOption D) where
  abbrev SameCounts : Aiom → Aiom → Type 0
  SameCounts a a' = (a'.iocount ≡ a.iocount) × (a'.nr_inflight ≡ a.nr_inflight)

  finish_one-counts :
      (c : Completion) (a a' : Aiom) (log log' : Log)
      → finish_one opt c (a, log) ≡ ok (a', log')
      → SameCounts a a'
  unfolding finish_one
  finish_one-counts c a a' log log' h =
      let (cb, _, h₁) = >>=-eq-ok (load_cb a.cbs c.obj) _ h in
      let (path, _, h₂) = >>=-eq-ok (path_of opt.file_path_list cb.file_idx) _ h₁ in
      let (r, _, h₃) = >>=-eq-ok (push a.cbpool c.obj) _ h₂ in ground arith

  finish_all-counts :
      (cs : List Completion) (a a' : Aiom) (log log' : Log)
      → finish_all opt cs (a, log) ≡ ok (a', log')
      → SameCounts a a'
  unfolding finish_all
  finish_all-counts [] a a' log log' h = ground arith
  finish_all-counts (c ∷ cs) a a' log log' h =
      let ((a₁, log₁), one, h₁) = >>=-eq-ok (finish_one opt c (a, log)) (finish_all opt cs) h in
      ground (arith, finish_one-counts c a a₁ log log₁ one, finish_all-counts cs a₁ a' log₁ log' h₁)

  -- With io_uring a wait that succeeds leaves the number of finished requests, and that of the
  -- requests in flight, as they were, whatever number it waited for.
  pub wait_for-iouring :
      (min_nr nr : ℕ) (cs : List Completion) (a a' : Aiom) (log log' : Log) (n : ℕ)
      → opt.aio_engine ≡ aio_iouring
      → wait_for opt min_nr nr (handed_back cs) (a, log) ≡ ok (n, a', log')
      → (n ≡ min_nr) × (a'.iocount ≡ a.iocount) × (a'.nr_inflight ≡ a.nr_inflight)
  unfolding wait_for wait_iouring
  wait_for-iouring min_nr nr cs a a' log log' n e h =
      let x = wait_libaio opt min_nr nr cs (a, log) in
      let y = wait_iouring opt min_nr cs (a, log) in
      let h₁ : y ≡ ok (n, a', log') = sym (ap (λ g. by_engine g x y) e) ∙ h in
      let seen = take min_nr cs in
      let kept : Aiom = record a { context = remove_all seen a.context } in
      elim (Bool-cases (ltb (length cs) min_nr)) [
        | inl few ↦ cc (rw few at h₁)
        | inr enough ↦
            let h₂ = rw enough at h₁ in
            let ((a₁, log₁), run, h₃) = >>=-eq-ok (finish_all opt seen (kept, log)) _ h₂ in
            ground (arith, finish_all-counts seen kept a₁ log log₁ run)
      ]

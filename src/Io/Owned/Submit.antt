-- ===== src/Io/Owned/Submit.antt =====
-- The invariant behind `mb_aiom_prep_pread`, `mb_aiom_prep_pwrite` and `mb_aiom_submit`.
use micbench.Base.{
  ℕ, ◌+◌, ◌<◌, ◌≡◌, refl, List, [], ◌∷◌, ◌++◌, arith, length, take, set, ok, length-set,
  length-take, length-append, ◌∙◌, ltb, true, false, ◌==◌, ℕ_discrete,
}
use native.Mathlib.Numerals.{add-one}
use micbench.Base.Int.{ℤ, pos}
use micbench.Base.Text.{Text}
use micbench.ResPool.{Ptr, null}
use micbench.ResPool
use micbench.ResPool.Fifo.{take_oldest, pop_refines}
use micbench.Rand.{IoMode}
use micbench.Io.Options.{IoOption}
use micbench.Io.Count.{count, count-append, count_self, take-set}
use micbench.Io.Aiom.{Cb, Cbs, Aiom, Iocb, load_cb-some, write_cb, prep, stamp, submit}
use micbench.Io.Wait.{path_of}
use micbench.Io.Owned.{Known, Owned}

module _ {D : Type 0} (opt : IoOption D) (all : List Ptr) where
  -- Rewriting a callback keeps them known, if its file has a path.
  pub Known-write :
      (h : Cbs) (p : Ptr) (c : Cb) {path : Text}
      → path_of opt.file_path_list c.file_idx ≡ ok path
      → Known opt all h
      → Known opt all (write_cb h p c)
  unfolding write_cb
  Known-write h p c {path} e k = record {
    there = λ q held. elim (ℕ_discrete q p) [
      | yes same ↦ (c, ground arith)
      | no other ↦ let (d, at) = k.there q held in (d, ground arith)
    ];
    has_path = λ q d at. elim (ℕ_discrete q p) [
      | yes same ↦ let got : c ≡ d = ground arith in (path, rw (← got) e)
      | no other ↦ k.has_path q d (ground arith)
    ];
  }

  -- Queueing the callback that comes next from the pool: nothing faults, and the callback is then
  -- pending.
  pub prep-Owned :
      (mode : IoMode) (fd : ℕ) (file_idx : ℤ) (len : ℤ) (offset : ℤ) (now : ℕ) {a : Aiom} {p : Ptr}
      {q : List Ptr} {path : Text}
      → path_of opt.file_path_list file_idx ≡ ok path
      → Owned opt all a (p ∷ q)
      → (pool' : ResPool.ResPool) × (a' : Aiom) × (ResPool.pop a.cbpool ≡ ok (p, pool'))
        × (prep opt mode fd file_idx p len offset now (record a { cbpool = pool' }) ≡ ok a')
        × Owned opt all a' q
  unfolding prep take_oldest
  prep-Owned mode fd file_idx len offset now {a} {p} {q} e v =
      let (pool', popped, holds') = pop_refines v.holds in
      let (cb, at) = v.known.there p (omega (arith, v.balance p, count_self p q)) in
      let space : ltb a.nr_pending (length a.pending) ≡ true = ground (arith, v.sizes, v.room) in
      let iocb : Iocb = record { mode = mode; fd = fd; iov_len = opt.blk_sz; offset = offset } in
      let cb' : Cb = record cb { iocb = iocb; queue_time = now; file_idx = file_idx } in
      let extended = take-set a.nr_pending a.pending p (omega (arith, v.sizes, v.room)) in
      (
        pool',
        record a {
          cbpool = pool';
          cbs = write_cb a.cbs p cb';
          pending = set a.pending a.nr_pending p;
          nr_pending = a.nr_pending + 1;
        },
        popped,
        rw (load_cb-some a.cbs p at, space, v.engine),
        record {
          events = v.events;
          engine = v.engine;
          holds = holds';
          room = length-set a.pending a.nr_pending p ∙ v.room;
          counted = v.counted;
          inflight = v.inflight;
          sizes = omega (arith, v.sizes);
          balance = λ x.
              rw (add-one, extended)
                (omega (arith, v.balance x, count-append x (take a.nr_pending a.pending) (p ∷ [])));
          known = Known-write a.cbs p cb' e v.known;
        },
      )

  stamp-Known :
      (now : ℕ) (ps : List Ptr) (h : Cbs)
      → ((p : Ptr) → 0 < count p ps → 0 < count p all)
      → Known opt all h
      → (h' : Cbs) × (stamp opt now ps h ≡ ok h') × Known opt all h'
  unfolding stamp
  stamp-Known now [] h mine k = (h, refl, k)
  stamp-Known now (p ∷ ps) h mine k =
      let (cb, at) = k.there p (mine p (omega (arith, count_self p ps))) in
      let (path, e) = k.has_path p cb at in
      let h₁ = write_cb h p (record cb { submit_time = now }) in
      let (h', run, k') =
        stamp-Known now ps h₁ (λ q held. mine q (omega (arith, held))) (Known-write h p _ e k) in
      (h', rw (load_cb-some h p at) run, k')

  -- If the kernel accepts every pending request, `mb_aiom_submit` returns, nothing is pending after
  -- it, and the kernel holds what was pending besides what it held.
  pub submit-Owned :
      (now : ℕ) {a : Aiom} {pool : List Ptr}
      → Owned opt all a pool
      → (a' : Aiom) × (submit opt now (pos a.nr_pending) a ≡ ok a')
        × Owned opt all a' pool
        × (a'.nr_pending ≡ 0)
        × (a'.nr_inflight ≡ a.nr_inflight + a.nr_pending)
  unfolding submit
  submit-Owned now {a} {pool} v = elim (ℕ_discrete a.nr_pending 0) [
    | yes none_pending ↦
        let test : (a.nr_pending == 0) ≡ true = ground arith in
        (a, rw test, v, none_pending, omega arith)
    | no some_pending ↦
        let test : (a.nr_pending == 0) ≡ false = ground arith in
        let same : (a.nr_pending == a.nr_pending) ≡ true = ground arith in
        let queued = take a.nr_pending a.pending in
        let (h, stamped, k) =
          stamp-Known now queued a.cbs (λ p some_p. omega (arith, v.balance p)) v.known in
        (
          record a {
            cbs = h;
            context = a.context ++ queued;
            handed_over = a.handed_over + length queued;
            nr_inflight = a.nr_inflight + a.nr_pending;
            nr_pending = 0;
          },
          rw (test, stamped, same, v.engine),
          record {
            events = v.events;
            engine = v.engine;
            holds = v.holds;
            room = v.room;
            counted = omega (arith, v.counted, v.sizes, v.room, length-take a.nr_pending a.pending);
            inflight = omega (
              arith,
              v.inflight,
              v.sizes,
              v.room,
              length-append a.context queued,
              length-take a.nr_pending a.pending,
            );
            sizes = omega (arith, v.sizes);
            balance = λ p. omega (arith, v.balance p, count-append p a.context queued);
            known = k;
          },
          refl,
          refl,
        )
  ]

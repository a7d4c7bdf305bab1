-- ===== src/Io/Owned/Make.antt =====
-- The invariant of the manager behind `mb_aiom_make`.
use mathlib.Core.List.{append_assoc, append-nil}
use native.Mathlib.Numerals.{add-one}
use micbench.Base.{
  ℕ, zero, suc, ◌+◌, ◌≤◌, ◌<◌, ◌≡◌, refl, none, some, List, [], ◌∷◌, ◌++◌, arith, length, ok,
  replicate, length-append, length-replicate, ◌==◌, false, ℕ_discrete, ap, sym, ◌∙◌,
}
use micbench.Base.Int.{ℤ, pos}
use micbench.Base.Text.{Text}
use micbench.ResPool.{Ptr, null, ResPool}
use micbench.ResPool.Ring.{Holds, walk}
use micbench.ResPool.Fifo.{put_newest, push_refines}
use micbench.ResPool.Make.{Distinct, NoneFails, make-Holds}
use micbench.Io.Options.{IoOption, aio_libaio}
use micbench.Io.Count.{count, count-append, count-take_none}
use micbench.Io.Aiom.{Cb, Cbs, Aiom, fresh_cb, write_cb, make_cbs, take_blocks, make}
use micbench.Io.Wait.{path_of}
use micbench.Io.Owned.{Owned}

length-walk : (spot : ℕ → Ptr) (i n : ℕ) → length (walk spot i n) ≡ n
length-walk spot i zero = refl
length-walk spot i (suc n) = ap suc (length-walk spot (suc i) n)

-- The callbacks `all` are there, and each callback is as `mb_aiom_make` leaves it.
pub record Blank (all : List Ptr) (h : Cbs) : Type 0 where
  pub there : (p : Ptr) → 0 < count p all → (i : ℕ) × (h p ≡ some (fresh_cb i))
  pub blank : (p : Ptr) (c : Cb) → h p ≡ some c → (i : ℕ) × (c ≡ fresh_cb i)

-- A manager of `n` events with the callbacks `all`, which are all in the pool; nothing is pending or
-- in flight.
pub record Fresh (n : ℕ) (all : List Ptr) (a : Aiom) : Type 0 where
  pub events : a.nr_events ≡ n
  pub every : length all ≡ n
  pub holds : Holds a.cbpool n all
  pub cleared : Blank all a.cbs
  pub room : a.pending ≡ replicate n null
  pub none_pending : a.nr_pending ≡ 0
  pub none_inflight : a.nr_inflight ≡ 0
  pub none_held : a.context ≡ []
  pub none_handed : a.handed_over ≡ 0
  pub none_counted : a.iocount ≡ 0

Blank-write :
    (all : List Ptr) (h : Cbs) (p : Ptr) (i : ℕ)
    → Blank all h
    → Blank (all ++ p ∷ []) (write_cb h p (fresh_cb i))
unfolding write_cb
Blank-write all h p i k = record {
  there = λ q held. elim (ℕ_discrete q p) [
    | yes same ↦ (i, ground arith)
    | no other ↦
        let (j, at) = k.there q (ground (arith, count-append q all (p ∷ []))) in (j, ground arith)
  ];
  blank = λ q d at. elim (ℕ_discrete q p) [
    | yes same ↦ let got : d ≡ fresh_cb i = ground arith in (i, got)
    | no other ↦ k.blank q d (ground arith)
  ];
}

module _ (blocks malloc memalign : ℕ → Ptr) (taken : NoneFails blocks) (live : NoneFails malloc)
    (aligned : NoneFails memalign) where
  make_cbs-ok :
      (n i : ℕ) (pool : ResPool) (h : Cbs) (cap : ℕ) (q : List Ptr)
      → Holds pool cap q
      → Blank q h
      → length q + n ≤ cap
      → (pool' : ResPool) × (h' : Cbs) × (make_cbs malloc memalign n i pool h ≡ ok (pool', h'))
        × Holds pool' cap (q ++ walk malloc i n)
        × Blank (q ++ walk malloc i n) h'
  unfolding make_cbs put_newest
  make_cbs-ok zero i pool h cap q v k fits = (pool, h, refl, rw append-nil v, rw append-nil k)
  make_cbs-ok (suc n) i pool h cap q v k fits =
      let (pool₁, pushed, v₁) = push_refines (malloc i) v in
      let room : (length q == cap) ≡ false = ground arith in
      let v₂ : Holds pool₁ cap (q ++ malloc i ∷ []) = rw room at v₁ in
      let h₁ = write_cb h (malloc i) (fresh_cb i) in
      let (pool', h', run, v', k') =
        make_cbs-ok n (suc i) pool₁ h₁ cap (q ++ malloc i ∷ []) v₂ (Blank-write q h (malloc i) i k)
          (omega (arith, length-append q (malloc i ∷ []))) in
      let got : (malloc i == null) ≡ false = ground (arith, live i) in
      let buffer : (memalign i == null) ≡ false = ground (arith, aligned i) in
      (
        pool',
        h',
        rw (got, buffer, pushed, add-one) run,
        rw append_assoc at v',
        rw append_assoc at k',
      )

  blocks-ok : take_blocks blocks ≡ ok tt
  unfolding take_blocks
  blocks-ok = ground (arith, taken 0, taken 1, taken 2, taken 3)

  -- If no allocation fails, the cells of the pool are at distinct addresses and the context of libaio or
  -- the io_uring is made, `mb_aiom_make` of one event or more returns a manager of which every callback
  -- is in the pool and blank, and nothing is pending or in flight. Only `iowait` begins as the memory
  -- was.
  pub make-Fresh :
      (cells : ℕ → Ptr) (garbage : ℤ) (nr_events : ℕ)
      → NoneFails cells
      → Distinct cells
      → 0 < nr_events
      → (a : Aiom) × (make blocks cells malloc memalign (pos 0) garbage nr_events ≡ ok (some a))
        × Fresh nr_events (walk malloc 0 nr_events) a
        × (a.iowait ≡ garbage)
  unfolding make
  make-Fresh cells garbage nr_events good apart some_event =
      let (pool, made, v) = make-Holds cells good apart nr_events some_event in
      let none_yet : Blank [] (λ _. none) = record {
        there = λ p h. absurd (omega arith);
        blank = λ p c h. cc;
      } in
      let (pool', h, run, v', k) =
        make_cbs-ok nr_events 0 pool (λ _. none) nr_events [] v none_yet (omega arith) in
      (
        record {
          context = [];
          handed_over = 0;
          sqes = [];
          cbpool = pool';
          nr_events = nr_events;
          nr_pending = 0;
          nr_inflight = 0;
          iocount = 0;
          iowait = garbage;
          pending = replicate nr_events null;
          cbs = h;
        },
        rw (blocks-ok, made, run),
        record {
          events = refl;
          every = length-walk malloc 0 nr_events;
          holds = v';
          cleared = k;
          room = refl;
          none_pending = refl;
          none_inflight = refl;
          none_held = refl;
          none_handed = refl;
          none_counted = refl;
        },
        refl,
      )

-- Over libaio, where there is a first file, such a manager owns its callbacks.
pub Fresh-Owned :
    {D : Type 0} (opt : IoOption D) (path : Text) (n : ℕ) (all : List Ptr) (a : Aiom)
    → path_of opt.file_path_list (pos 0) ≡ ok path
    → opt.aio_engine ≡ aio_libaio
    → Fresh n all a
    → Owned opt all a all
Fresh-Owned opt path n all a first_file libaio f = record {
  events = f.every ∙ sym f.events;
  engine = libaio;
  holds = rw f.events f.holds;
  room = ap length f.room ∙ length-replicate n null ∙ sym f.events;
  counted = omega (arith, f.none_handed, f.none_counted, f.none_inflight);
  inflight = f.none_inflight ∙ sym (ap length f.none_held);
  sizes = omega (arith, f.every, f.events, f.none_pending, f.none_inflight);
  balance = λ p.
      omega
        (arith, count-take_none p a.nr_pending a.pending f.none_pending, ap (count p) f.none_held);
  known = record {
    there = λ p held. let (i, at) = f.cleared.there p held in (fresh_cb i, at);
    has_path = λ p c at. let (i, e) = f.cleared.blank p c at in (path, rw e first_file);
  };
}

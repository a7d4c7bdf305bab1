-- ===== src/ResPool/Fifo.antt =====
-- The queue that a pool (`mb_res_pool_push`, `mb_res_pool_pop`) stands for, of at most `nr_elems` elements.
use micbench.Base.{
  ℕ, zero, suc, ℕ_discrete, ◌+◌, ◌-◌, ◌≡◌, ◌≢◌, refl, some, false, true, ◌∙◌, ap, List, [], ◌∷◌,
  ◌++◌, arith, ok, Outcome, subst, ◌==◌, if◌then◌else◌, length, ◌>>=◌,
}
use native.Mathlib.Numerals.{add-one}
use micbench.Base.Int.{ℤ, pos, negsuc}
use micbench.ResPool.{Ptr, Cells, Cell, write, null, ResPool, push, pop}
use micbench.ResPool.Ring.{Holds, window, elem_at, load-spot, IsRing-write, window-push}

abbrev pub Queue : Type 0
Queue = List Ptr

-- The result of `mb_res_pool_pop`: the oldest element, NULL if there is none.
unfoldable pub take_oldest : Queue → Ptr × Queue
take_oldest [] = (null, [])
take_oldest (x ∷ q) = (x, q)

-- The result of `mb_res_pool_push`, at `cap` elements at most.
unfoldable pub put_newest : ℕ → Queue → Ptr → ℤ × Queue
put_newest cap q x = if length q == cap then (negsuc 0, q) else (pos 0, q ++ x ∷ [])

length-window : (h : Cells) (spot : ℕ → Ptr) (i n : ℕ) → length (window h spot i n) ≡ n
length-window h spot i zero = refl
length-window h spot i (suc n) = ap suc (length-window h spot (suc i) n)

pub length-Holds :
    {pool : ResPool} {cap : ℕ} {q : Queue} → Holds pool cap q → length q ≡ pool.nr_avail
length-Holds {pool} v = rw (← v.contents) (length-window pool.cells v.spot v.home pool.nr_avail)

module _ {pool : ResPool} {cap : ℕ} {q : Queue} (v : Holds pool cap q) where
  push-full : (x : Ptr) → length q ≡ cap → push pool x ≡ ok (negsuc 0, pool)
  unfolding push
  push-full x full = ground (arith, v.size, length-Holds v)

  push-room :
      (x : Ptr)
      → length q ≢ cap
      → (pool' : ResPool) × (push pool x ≡ ok (pos 0, pool')) × Holds pool' cap (q ++ x ∷ [])
  unfolding push
  push-room x room =
      let e = length-Holds v in
      let k = v.home + pool.nr_avail in
      let cell : Cell = record { elem = x; next = v.spot (suc k) } in
      let test : (pool.nr_avail == pool.nr_elems) ≡ false = ground (arith, v.size) in
      (
        record pool {
          tail = v.spot k;
          cells = write pool.cells (v.spot k) (some cell);
          nr_avail = pool.nr_avail + 1;
        },
        rw (test, v.tail_lem, load-spot v.is_ring v.back, v.back_lem, load-spot v.is_ring k),
        record {
          size = v.size;
          spot = v.spot;
          home = v.home;
          is_ring = IsRing-write v.is_ring k x;
          gate = v.gate;
          ring_lem = v.ring_lem;
          head_lem = v.head_lem;
          back = k;
          tail_lem = refl;
          back_lem = ap v.spot (omega arith);
          fits = omega (arith, v.size, v.fits);
          contents = rw (
            add-one,
            window-push v.is_ring pool.nr_avail v.home k x refl (omega arith),
            v.contents,
          );
        },
      )

-- On a pool that holds the queue `q`, `mb_res_pool_push` follows no bad pointer, returns what a
-- bounded queue returns, and leaves the pool holding that queue's new content.
pub push_refines :
    {pool : ResPool} {cap : ℕ} {q : Queue} (x : Ptr)
    → Holds pool cap q
    → (pool' : ResPool) × (push pool x ≡ ok ((put_newest cap q x).0, pool'))
      × Holds pool' cap (put_newest cap q x).1
unfolding put_newest
push_refines {pool} {cap} {q} x v = elim (ℕ_discrete (length q) cap) [
  | yes full ↦
      let test : (length q == cap) ≡ true = ground arith in rw test (pool, push-full v x full, v)
  | no room ↦ let test : (length q == cap) ≡ false = ground arith in rw test (push-room v x room)
]

-- On a pool that holds the queue `q`, `mb_res_pool_pop` follows no bad pointer, returns the oldest
-- element, or NULL if there is none, and leaves the pool holding the rest.
pub pop_refines :
    {pool : ResPool} {cap : ℕ} {q : Queue}
    → Holds pool cap q
    → (pool' : ResPool) × (pop pool ≡ ok ((take_oldest q).0, pool'))
      × Holds pool' cap (take_oldest q).1
unfolding pop take_oldest
pop_refines {pool} {q = []} v = let e = length-Holds v in (pool, ground arith, v)
pop_refines {pool} {cap} {q = x ∷ q} v =
    let e = length-Holds v in
    let test : (pool.nr_avail == 0) ≡ false = ground arith in
    let count : pool.nr_avail ≡ suc (length q) = omega arith in
    let split : window pool.cells v.spot v.home (suc (length q)) ≡ x ∷ q =
      subst (λ m. window pool.cells v.spot v.home m ≡ x ∷ q) count v.contents in
    let oldest : elem_at pool.cells (v.spot v.home) ≡ x = cc split in
    (
      record pool { head = v.spot (suc v.home); nr_avail = pool.nr_avail - 1 },
      rw (test, v.head_lem, load-spot v.is_ring v.home, oldest),
      record {
        size = v.size;
        spot = v.spot;
        home = suc v.home;
        is_ring = v.is_ring;
        gate = v.gate;
        ring_lem = v.ring_lem;
        head_lem = refl;
        back = v.back;
        tail_lem = v.tail_lem;
        back_lem = v.back_lem ∙ ap v.spot (omega arith);
        fits = omega (arith, v.fits);
        contents = let left : pool.nr_avail - 1 ≡ length q = omega arith in rw left (cc split);
      },
    )

-- Any sequence of calls on a pool.
pub data Call : Type 0 where
  pushes : Ptr → Call
  pops : Call

-- What a call shows its caller.
pub data Reply : Type 0 where
  status : ℤ → Reply
  element : Ptr → Reply

unfoldable pub run : ResPool → List Call → Outcome (List Reply)
run pool [] = ok []
run pool (pushes x ∷ cs) = do (r, pool') ← push pool x; rest ← run pool' cs; ok (status r ∷ rest)
run pool (pops ∷ cs) = do (x, pool') ← pop pool; rest ← run pool' cs; ok (element x ∷ rest)

-- The same calls on the bounded queue.
unfoldable pub run_queue : ℕ → Queue → List Call → List Reply
run_queue cap q [] = []
run_queue cap q (pushes x ∷ cs) = let (r, q') = put_newest cap q x in status r ∷ run_queue cap q' cs
run_queue cap q (pops ∷ cs) = let (x, q') = take_oldest q in element x ∷ run_queue cap q' cs

-- On a pool that holds a queue, no sequence of pushes and pops follows a bad pointer, and each call
-- returns what it returns on the bounded queue.
pub run_refines :
    (cs : List Call) {pool : ResPool} {cap : ℕ} {q : Queue}
    → Holds pool cap q
    → run pool cs ≡ ok (run_queue cap q cs)
unfolding run run_queue
run_refines [] v = refl
run_refines (pushes x ∷ cs) v = let (pool', e, v') = push_refines x v in rw (e, run_refines cs v')
run_refines (pops ∷ cs) v = let (pool', e, v') = pop_refines v in rw (e, run_refines cs v')

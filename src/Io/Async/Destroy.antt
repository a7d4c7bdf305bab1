-- ===== src/Io/Async/Destroy.antt =====
-- What `mb_aiom_destroy` frees.
use micbench.Base.{
  ℕ, zero, suc, ◌<◌, ◌≡◌, ◌≢◌, refl, false, some, List, [], ◌∷◌, length, arith, ok, ◌==◌,
}
use micbench.ResPool.{Ptr, null, ResPool}
use micbench.ResPool.Ring.{Holds}
use micbench.ResPool.Fifo.{take_oldest, pop_refines}
use micbench.ResPool.Destroy.{destroy-frees}
use micbench.Io.Options.{IoOption}
use micbench.Io.Aiom.{Aiom}
use micbench.Io.Owned.{Owned}
use micbench.Io.Async.{drain, destroy}

-- No address of the list is NULL.
abbrev pub NoneNull : List Ptr → Type 0
NoneNull [] = Unit {0}
NoneNull (p ∷ q) = (p ≢ null) × NoneNull q

drain-frees :
    (fuel : ℕ) {pool : ResPool} {cap : ℕ} (q : List Ptr)
    → Holds pool cap q
    → NoneNull q
    → length q < fuel
    → (pool' : ResPool) × (drain fuel pool ≡ some (ok (q, pool'))) × Holds pool' cap []
unfolding drain take_oldest
drain-frees zero q v live enough = absurd (omega arith)
drain-frees (suc fuel) [] v live enough =
    let (pool', popped, v') = pop_refines v in (pool', rw popped refl, v')
drain-frees (suc fuel) (p ∷ q) v (here, live) enough =
    let (pool₁, popped, v₁) = pop_refines v in
    let (pool', rest, v') = drain-frees fuel q v₁ live (omega arith) in
    let test : (p == null) ≡ false = ground arith in (pool', rw (popped, test, rest) refl, v')

-- With fuel for one step more than there are events, `mb_aiom_destroy` returns and follows no bad
-- pointer. It frees the callbacks that are in the pool, each once, and as many cells as there are
-- events; callbacks that are pending or in flight are not among those freed.
pub destroy-Owned :
    {D : Type 0} (opt : IoOption D) (all : List Ptr) (fuel : ℕ) {a : Aiom} (q : List Ptr)
    → Owned opt all a q
    → NoneNull q
    → a.nr_events < fuel
    → (freed : List Ptr) × (destroy fuel a ≡ some (ok (q, freed))) × (length freed ≡ a.nr_events)
unfolding destroy
destroy-Owned opt all fuel {a} q v live enough =
    let (pool, drained, v') = drain-frees fuel q v.holds live (omega (arith, v.sizes)) in
    let (h, freed, run, len, gone) = destroy-frees fuel v' (omega arith) in
    (freed, rw (drained, run) refl, len)

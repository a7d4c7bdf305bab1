-- ===== src/ResPool/Destroy.antt =====
-- The cells that `mb_res_pool_destroy` frees.
use micbench.Base.{
  ℕ, zero, suc, ◌+◌, ◌≤◌, ◌<◌, ◌≡◌, refl, sym, subst, ◌-◌, ap, none, some, List, ok, arith, length,
  ◌==◌, true, false, ◌∙◌, ℕ_discrete,
}
use micbench.ResPool.{Ptr, Cells, ResPool, load, write, destroy_loop, destroy}
use micbench.ResPool.Ring.{IsRing, Holds, elem_at, walk, load-spot, write_self, write_ne}

length-walk : (spot : ℕ → Ptr) (i n : ℕ) → length (walk spot i n) ≡ n
length-walk spot i zero = refl
length-walk spot i (suc n) = ap suc (length-walk spot (suc i) n)

module _ {cells : Cells} {n : ℕ} {spot : ℕ → Ptr} (r : IsRing cells n spot) (gate : ℕ) where
  -- The spots before `i` are freed, those from `i` on are as they were.
  record Freed (h : Cells) (i : ℕ) : Type 0 where
    gone : (j : ℕ) → gate ≤ j → j < i → h (spot j) ≡ none
    left : (j : ℕ) → i ≤ j → j < n + gate → h (spot j) ≡ cells (spot j)

  Freed-write :
      (h : Cells) (i : ℕ)
      → gate ≤ i
      → i < n + gate
      → Freed h i
      → Freed (write h (spot i) none) (suc i)
  Freed-write h i above below f = record {
    gone = λ j lo hi. elim (ℕ_discrete j i) [
      | yes e ↦ rw e (write_self h (spot i) none)
      | no ne ↦
          write_ne h none (r.distinct j i (omega arith) (omega arith)) ∙ f.gone j lo (omega arith)
    ];
    left = λ j lo hi.
        write_ne h none (λ e. r.distinct i j (omega arith) (omega arith) (sym e))
        ∙ f.left j (omega arith) hi;
  }

  load-left :
      (i : ℕ) {h : Cells}
      → Freed h i
      → i < n + gate
      → load h (spot i) ≡ ok (record { elem = elem_at cells (spot i); next = spot (suc i) })
  load-left i f lt = rw (f.left i (omega arith) lt) (load-spot r i)

  destroy_loop-ok :
      (m fuel i : ℕ) (h : Cells)
      → m < fuel
      → i + suc m ≡ n + gate
      → gate ≤ i
      → Freed h i
      → (h' : Cells) × (destroy_loop fuel (spot gate) (spot i) h
          ≡ some (ok (h', walk spot i (suc m))))
        × Freed h' (n + gate)
  unfolding destroy_loop
  destroy_loop-ok m zero i h lt end above f = absurd (omega arith)
  destroy_loop-ok zero (suc fuel) i h lt end above f =
      let next_i : spot (suc i) ≡ spot gate = ap spot (omega arith) ∙ r.period gate in
      let test : (spot (suc i) == spot gate) ≡ true = ground arith in
      (
        write h (spot i) none,
        rw (load-left i f (omega arith), destroy_loop, test),
        let e : suc i ≡ n + gate = omega arith in
            subst (Freed (write h (spot i) none)) e (Freed-write h i above (omega arith) f),
      )
  destroy_loop-ok (suc m) (suc fuel) i h lt end above f =
      let apart = r.distinct gate (suc i) (omega arith) (omega arith) in
      let test : (spot (suc i) == spot gate) ≡ false = ground arith in
      let (h', run, f') =
        destroy_loop-ok m fuel (suc i) (write h (spot i) none) (omega arith) (omega arith)
          (omega arith) (Freed-write h i above (omega arith) f) in
      (h', rw (load-left i f (omega arith), destroy_loop, test, run), f')

-- With fuel for each cell, `mb_res_pool_destroy` returns, follows no pointer into a freed cell, and
-- gives free(3) as many cells as the pool has room for; no cell of the ring is left after it.
pub destroy-frees :
    {pool : ResPool} {cap : ℕ} {q : List Ptr} (fuel : ℕ) (v : Holds pool cap q)
    → cap ≤ fuel
    → (h' : Cells) × (freed : List Ptr) × (destroy fuel pool ≡ some (ok (h', freed)))
      × (length freed ≡ cap)
      × ((j : ℕ) → j < cap → h' (v.spot (v.gate + j)) ≡ none)
unfolding destroy
destroy-frees {pool} {cap} fuel v enough =
    let r = v.is_ring in
    let (h', run, f) =
      destroy_loop-ok r v.gate (cap - 1) fuel v.gate pool.cells (omega (arith, r.nonempty))
        (omega (arith, r.nonempty)) (omega arith)
        (record { gone = λ j lo hi. absurd (omega arith); left = λ j lo hi. refl }) in
    let e : suc (cap - 1) ≡ cap = omega (arith, r.nonempty) in
    (
      h',
      walk v.spot v.gate (suc (cap - 1)),
      rw v.ring_lem run,
      rw length-walk e,
      λ j lt. f.gone (v.gate + j) (omega arith) (omega arith),
    )

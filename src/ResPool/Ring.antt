-- ===== src/ResPool/Ring.antt =====
-- The shape of a pool: `spot` walks round the ring of cells, and the elements are those at the
-- `nr_avail` spots from `home` on.
use micbench.Base.{
  ℕ, zero, suc, ◌+◌, ◌≤◌, ◌<◌, ◌≡◌, ◌≢◌, ap, ap₂, ℕ_discrete, none, some, List, [], ◌∷◌, ◌++◌,
  arith, ok, Option,
}
use micbench.ResPool.{Ptr, null, Cell, Cells, ResPool, load, write}

pub write_self : (h : Cells) (p : Ptr) (c : Option Cell) → write h p c p ≡ c
unfolding write
write_self h p c = ground arith

pub write_ne : (h : Cells) {p a : Ptr} (c : Option Cell) → a ≢ p → write h p c a ≡ h a
unfolding write
write_ne h c ne = ground arith

abbrev pub elem_of : Option Cell → Ptr
elem_of none = null
elem_of (some c) = c.elem

-- the element of the cell at `p`
abbrev pub elem_at : Cells → Ptr → Ptr
elem_at h p = elem_of (h p)

-- the elements at `n` spots from the spot `i` on
abbrev pub window : Cells → (ℕ → Ptr) → ℕ → ℕ → List Ptr
window h spot i zero = []
window h spot i (suc n) = elem_at h (spot i) ∷ window h spot (suc i) n

-- the `n` spots from the spot `i` on
abbrev pub walk : (ℕ → Ptr) → ℕ → ℕ → List Ptr
walk spot i zero = []
walk spot i (suc n) = spot i ∷ walk spot (suc i) n

-- `spot` walks round a ring of `n` distinct cells of `h`.
pub record IsRing (h : Cells) (n : ℕ) (spot : ℕ → Ptr) : Type 0 where
  pub nonempty : 0 < n
  pub ne_null : (i : ℕ) → spot i ≢ null
  pub linked : (i : ℕ) → (e : Ptr) × (h (spot i) ≡ some (record { elem = e; next = spot (suc i) }))
  pub period : (i : ℕ) → spot (n + i) ≡ spot i
  pub distinct : (i j : ℕ) → i < j → j < n + i → spot i ≢ spot j

-- `pool` has room for `cap` elements and holds `elems`, oldest first.
pub record Holds (pool : ResPool) (cap : ℕ) (elems : List Ptr) : Type 0 where
  pub size : pool.nr_elems ≡ cap
  pub spot : ℕ → Ptr
  pub home : ℕ
  pub is_ring : IsRing pool.cells cap spot
  pub gate : ℕ
  pub ring_lem : pool.ring ≡ spot gate
  pub head_lem : pool.head ≡ spot home
  pub back : ℕ
  pub tail_lem : pool.tail ≡ spot back
  pub back_lem : spot (suc back) ≡ spot (home + pool.nr_avail)
  pub fits : pool.nr_avail ≤ cap
  pub contents : window pool.cells spot home pool.nr_avail ≡ elems

module _ {h : Cells} {n : ℕ} {spot : ℕ → Ptr} (r : IsRing h n spot) where
  -- A walk reaches a cell at every spot.
  pub load-spot :
      (i : ℕ) → load h (spot i) ≡ ok (record { elem = elem_at h (spot i); next = spot (suc i) })
  load-spot i = let (e, at_spot) = r.linked i in ground (arith, r.ne_null i)

  -- One cell has one successor.
  next_agree : {i k : ℕ} → spot i ≡ spot k → spot (suc i) ≡ spot (suc k)
  next_agree {i} {k} same =
      let (e, at_spot) = r.linked i in let (d, here) = r.linked k in ground (arith, ap h same)

  -- Writing the element at a spot keeps the ring.
  pub IsRing-write :
      (k : ℕ) (v : Ptr)
      → IsRing (write h (spot k) (some (record { elem = v; next = spot (suc k) }))) n spot
  IsRing-write k v = record {
    nonempty = r.nonempty;
    ne_null = r.ne_null;
    linked = λ i.
        let (e, at_spot) = r.linked i in
        let (d, here) = r.linked k in
        elim (ℕ_discrete (spot i) (spot k)) [
          | yes same ↦ (v, rw (same, write_self) (ground (arith, next_agree same)))
          | no other ↦ (e, rw (write_ne h (some _) other) at_spot)
        ];
    period = r.period;
    distinct = r.distinct;
  }

  -- Writing at a spot ahead changes no element at the spots before it.
  elem_at-write :
      (i k : ℕ) (v : Ptr)
      → i < k
      → k < n + i
      → elem_at (write h (spot k) (some (record { elem = v; next = spot (suc k) }))) (spot i)
        ≡ elem_at h (spot i)
  elem_at-write i k v lt near = ap elem_of (write_ne h _ (r.distinct i k lt near))

  -- The window grows by the element written just behind it.
  pub window-push :
      (m i k : ℕ) (v : Ptr)
      → i + m ≡ k
      → m < n
      → window (write h (spot k) (some (record { elem = v; next = spot (suc k) }))) spot i (suc m)
        ≡ window h spot i m ++ v ∷ []
  window-push zero i k v e lt =
      let e' : i ≡ k = omega arith in rw e' (ap (λ c. elem_of c ∷ []) (write_self h (spot k) _))
  window-push (suc m) i k v e lt =
      ap₂ ◌∷◌ (elem_at-write i k v (omega arith) (omega arith))
        (window-push m (suc i) k v (omega arith) (omega arith))

-- ===== src/ResPool.antt =====
-- The resource pool of src/micbench-io.c (`mb_res_pool_*`): a ring of cells linked by pointers, in
-- which `nr_avail` elements stand from `head` on. `mb_res_pool_cell_t` is `Cell` and
-- `mb_res_pool_t` is `ResPool`; `cells` is the part of the heap that holds the cells. A pointer is a
-- number, and NULL is 0. An access through a pointer to no cell is a `fault`.
pub mod Ring
pub mod Make
pub mod Destroy
pub mod Fifo
mod Tests
use micbench.Base.{
  ℕ, zero, suc, ◌+◌, ◌-◌, ◌==◌, if◌then◌else◌, Option, none, some, Outcome, ok, exit_failure, fault,
  waits, ◌>>=◌, List, [], ◌∷◌, true, false,
}
use micbench.Base.Int.{ℤ, pos, negsuc}

abbrev pub Ptr : Type 0
Ptr = ℕ

abbrev pub null : Ptr
null = 0

-- `data` is `elem` here.
pub record Cell : Type 0 where
  pub elem : Ptr
  pub next : Ptr

abbrev pub Cells : Type 0
Cells = Ptr → Option Cell

pub record ResPool : Type 0 where
  pub nr_elems : ℕ
  pub nr_avail : ℕ
  pub ring : Ptr
  pub head : Ptr
  pub tail : Ptr
  pub cells : Cells

pub write : Cells → Ptr → Option Cell → Cells
write h p c a = if a == p then c else h a

-- `*p`: NULL and an address that holds no cell are faults.
abbrev pub load : Cells → Ptr → Outcome Cell
load h p = if p == null then fault else elim (h p) [ none ↦ fault | some c ↦ ok c ]

-- Returns the element, or NULL if there is none.
pub pop : ResPool → Outcome (Ptr × ResPool)
pop pool = if pool.nr_avail == 0 then ok (null, pool) else do
  c ← load pool.cells pool.head
  ok (c.elem, record pool { head = c.next; nr_avail = pool.nr_avail - 1 })

-- Returns 0, or -1 if the pool is full.
unfoldable pub push : ResPool → Ptr → Outcome (ℤ × ResPool)
push pool elem = if pool.nr_avail == pool.nr_elems then ok (negsuc 0, pool) else do
  c ← load pool.cells pool.tail
  d ← load pool.cells c.next
  ok (
    pos 0,
    record pool {
      tail = c.next;
      cells = write pool.cells c.next (some (record d { elem = elem }));
      nr_avail = pool.nr_avail + 1;
    },
  )

-- The loop of `mb_res_pool_make`, `n` rounds from the round `i` on. `malloc i` is what the i-th call
-- of malloc(3) returns.
pub make_loop : (malloc : ℕ → Ptr) (n i : ℕ) (cell tail : Ptr) → Cells → Outcome (Ptr × Ptr × Cells)
make_loop malloc zero i cell tail h = ok (cell, tail, h)
make_loop malloc (suc n) i cell tail h =
    let p = malloc i in
    let rest =
      make_loop malloc n (i + 1) p (if tail == null then p else tail)
        (write h p (some (record { elem = null; next = cell }))) in
    if p == null then exit_failure else rest

-- `mb_res_pool_make`. The first cell made becomes the tail, the last one the head.
pub make : (malloc : ℕ → Ptr) → ℕ → Outcome ResPool
make malloc nr_elems = do
  (cell, tail, h) ← make_loop malloc nr_elems 0 null null (λ _. none)
  t ← load h tail
  ok (record {
    nr_elems = nr_elems;
    nr_avail = 0;
    ring = cell;
    head = cell;
    tail = tail;
    cells = write h tail (some (record t { next = cell }));
  })

-- The loop of `mb_res_pool_destroy` at the cell `cell`, with fuel: what is left of the cells, and
-- the addresses given to free(3), in order. `none` means that the fuel ran out.
pub destroy_loop : (fuel : ℕ) (ring cell : Ptr) → Cells → Option (Outcome (Cells × List Ptr))
destroy_loop zero ring cell h = none
destroy_loop (suc fuel) ring cell h = elim (load h cell) [
  | exit_failure ↦ some exit_failure
  | fault ↦ some fault
  | waits ↦ some waits
  | ok c ↦ elim (c.next == ring) [
    | true ↦ some (ok (write h cell none, cell ∷ []))
    | false ↦ elim (destroy_loop fuel ring c.next (write h cell none)) [
      | none ↦ none
      | some exit_failure ↦ some exit_failure
      | some fault ↦ some fault
      | some waits ↦ some waits
      | some (ok (h', freed)) ↦ some (ok (h', cell ∷ freed))
    ]
  ]
]

-- `mb_res_pool_destroy`.
pub destroy : ℕ → ResPool → Option (Outcome (Cells × List Ptr))
destroy fuel pool = destroy_loop fuel pool.ring pool.ring pool.cells

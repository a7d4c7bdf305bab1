-- ===== src/Mem/Lines.antt =====
-- The ring of cache lines that `do_memory_stress_rand` of src/micbench-mem.c builds, shuffles and
-- checks. The working area is an array of `size` longs, and a pointer into it is the index of the long
-- that it points at; an access outside the area is a `fault`.
pub mod Swap
pub mod Cycle
pub mod Ring
pub mod Shuffle
use micbench.Base.{
  ℕ, zero, suc, ◌+◌, ◌*◌, ◌-◌, ◌/◌, Bool, true, false, ◌||◌, Option, none, some, ltb, ◌==◌,
  if◌then◌else◌, resume, resume_loop, Outcome, ok, exit_failure, fault, ◌>>=◌,
}
use micbench.Base.Int.{to_ulong}
use micbench.Rand.{Machine, rand_range_ulong}

abbrev pub Longs : Type 0
Longs = ℕ → ℕ

unfoldable pub write : Longs → (p v : ℕ) → Longs
write h p v a = if a == p then v else h a

-- What the check makes of the count.
pub accept : ℕ → Option (Outcome ℕ) → Option (Outcome ℕ)
accept n none = none
accept n (some r) = some (r >>= λ counter. if counter == n then ok counter else exit_failure)

module _ (size : ℕ) where
  pub load : Longs → ℕ → Outcome ℕ
  load h p = if ltb p size then ok (h p) else fault

  pub store : Longs → (p v : ℕ) → Outcome Longs
  store h p v = if ltb p size then ok (write h p v) else fault

  -- The loop that links each cache line of 64 bytes to the one behind it, `n` rounds from `ptr` on.
  pub link : (n : ℕ) (ptr : ℕ) → Longs → Outcome Longs
  link zero ptr h = ok h
  link (suc n) ptr h = do h' ← store h ptr (ptr + 8); link n (ptr + 8) h'

  -- The loop and the link of the last line back to the first, on an area of `working_size` bytes.
  pub make_ring : (working_size : ℕ) → Longs → Outcome Longs
  make_ring working_size h = do
    h' ← link ((working_size / 8 + 7) / 8) 0 h
    if ltb (working_size / 8) 8 then fault else store h' (working_size / 8 - 8) 0

  -- `swap_long`
  pub swap_long : Longs → (ptr1 ptr2 : ℕ) → Outcome Longs
  swap_long h ptr1 ptr2 =
      if ptr1 == ptr2
      then ok h
      else do tmp ← load h ptr1; v ← load h ptr2; h' ← store h ptr1 v; store h' ptr2 tmp

  -- The exchange of the successors of two lines, in the body of the shuffle.
  pub exchange : Longs → (ptr1 ptr1_succ ptr2 ptr2_succ : ℕ) → Outcome Longs
  exchange h ptr1 ptr1_succ ptr2 ptr2_succ =
      if ptr1_succ == ptr2
      then (do
        h₁ ← store h ptr1 ptr2_succ
        v ← load h₁ ptr2_succ
        h₂ ← store h₁ ptr1_succ v
        store h₂ ptr2_succ ptr1_succ)
      else (do
        h₁ ← store h ptr1 ptr2_succ
        h₂ ← store h₁ ptr2 ptr1_succ
        swap_long h₂ ptr1_succ ptr2_succ)

  -- The body of the shuffle between two random numbers: the new area, and whether to try again.
  pub attempt : Longs → (ptr1 ptr2 : ℕ) → Outcome (Longs × Bool)
  attempt h ptr1 ptr2 = do
    ptr1_succ ← load h ptr1
    ptr2_succ ← load h ptr2
    h' ← exchange h ptr1 ptr1_succ ptr2 ptr2_succ
    v₁ ← load h' ptr1
    v₂ ← load h' ptr2
    v₃ ← load h' ptr2_succ
    ok (h', ptr1 == v₁ || ptr2 == v₂ || ptr2_succ == v₃)

  -- The loop of the shuffle, with fuel for each try, from the line `i` on. `none` means that the fuel
  -- ran out.
  pub shuffle : (m : Machine) (num_cacheline fuel i : ℕ) → m.Seed → Longs → Option (Outcome Longs)
  shuffle m num_cacheline zero i rand h = none
  shuffle m num_cacheline (suc fuel) i rand h =
      let drawn = rand_range_ulong m rand 0 (num_cacheline - i) in
      let more =
        resume (attempt h (i * 8) ((i + to_ulong drawn.0) * 8))
          λ r. shuffle m num_cacheline fuel (if r.1 then i else i + 1) drawn.1 r.0 in
      if ltb i num_cacheline then more else some (ok h)

  -- The loop that counts the lines, with fuel, at the pointer `ptr`.
  pub count_lines : (fuel : ℕ) → Longs → (ptr counter : ℕ) → Option (Outcome ℕ)
  count_lines zero h ptr counter = none
  count_lines (suc fuel) h ptr counter =
      let more = resume (load h ptr) λ ptr'. count_lines fuel h ptr' (counter + 1) in
      if ptr == 0 then some (ok counter) else more

  -- Once round the ring from the first line on.
  pub lap : (fuel : ℕ) → Longs → Option (Outcome ℕ)
  lap fuel h = resume (load h 0) λ ptr. count_lines fuel h ptr 1

  -- The check of the ring: the process exits if the count is not the number of lines.
  pub check_ring : (num_cacheline fuel : ℕ) → Longs → Option (Outcome ℕ)
  check_ring num_cacheline fuel h = accept num_cacheline (lap fuel h)

-- The ring of `do_memory_stress_rand` as the shuffle leaves it, on a working area of `working_size`
-- bytes; `fuel` is given to each of the loops that may not end.
pub arrange : (m : Machine) (working_size fuel : ℕ) → m.Seed → Longs → Option (Outcome Longs)
arrange m working_size fuel rand h =
    resume (make_ring (working_size / 8) working_size h)
      λ h₁. shuffle (working_size / 8) m (working_size / 64) fuel 0 rand h₁

-- The same up to the check.
pub prepare : (m : Machine) (working_size fuel : ℕ) → m.Seed → Longs → Option (Outcome ℕ)
prepare m working_size fuel rand h =
    resume_loop (arrange m working_size fuel rand h)
      λ h'. check_ring (working_size / 8) (working_size / 64) fuel h'

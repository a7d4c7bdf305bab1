-- ===== src/Mem/Areas.antt =====
-- The working areas of src/micbench-mem.c: `main` from the files and the mappings to their release.
-- What open(2), mmap(2) and mbind(2) answer is an argument, and an area is its address.
pub mod Release
use micbench.Base.{
  ℕ, zero, suc, ◌+◌, Bool, true, false, ◌||◌, Option, none, some, List, [], ◌∷◌, ◌++◌,
  if◌then◌else◌, Outcome, ok, exit_failure, fault, ◌>>=◌, map,
}
use micbench.Base.Int.{ℤ, pos, negsuc, pos_part}
use micbench.Affinity.{Affinity, Bits}
use micbench.Affinity.Arguments.{thread_affinities}
use micbench.Mem.Args.{MemOption}

abbrev pub Address : Type 0
Address = ℕ

-- The answers to the calls for the thread `i`, or for the area of all with `i` 0: open(2), mmap(2),
-- nothing for MAP_FAILED, and whether mbind(2) succeeds. (Without NUMA_ARCH it is not called.)
pub record Kernel : Type 0 where
  pub open_file : (i : ℕ) → ℤ
  pub map_area : (i : ℕ) (fd : ℤ) → Option Address
  pub bind_area : (i : ℕ) → Bool

-- What `main` sets in an entry of `args`, and the variables `fd` and `working_area`.
pub record Area : Type 0 where
  pub working_area : Address
  pub fd : ℤ

pub record Areas : Type 0 where
  pub args : List Area
  pub fd : ℤ

abbrev no_file : ℤ
no_file = negsuc 0

-- What the process holds: the descriptors that open(2) has given, and the areas from mmap(2).
pub record Held : Type 0 where
  pub opened : List ℤ
  pub mapped : List Address

-- `option.hugetlbfile` opened, or -1 without one
unfoldable pub open_hugetlb : MemOption → Kernel → ℕ → Held → Outcome (ℤ × Held)
open_hugetlb opt k i h = elim opt.hugetlbfile [
  | none ↦ ok (no_file, h)
  | some path ↦ elim (k.open_file i) [
    | pos fd ↦ ok (pos fd, record h { opened = h.opened ++ pos fd ∷ [] })
    | negsuc n ↦ exit_failure
  ]
]

unfoldable pub map_file : Kernel → (i : ℕ) (fd : ℤ) → Held → Outcome (Address × Held)
map_file k i fd h = elim (k.map_area i fd) [
  | none ↦ exit_failure
  | some area ↦ ok (area, record h { mapped = h.mapped ++ area ∷ [] })
]

-- whether one of the bits below `n` is set
unfoldable pub some_bit : (n : ℕ) → Bits → Bool
some_bit zero mask = false
some_bit (suc n) mask = mask n || some_bit n mask

-- mbind(2) of an area when the affinity has a node.
unfoldable pub bind_nodes : Kernel → (i : ℕ) → Option Affinity → Outcome (Unit {0})
bind_nodes k i none = ok tt
bind_nodes k i (some a) =
    if some_bit 64 a.nodemask then (if k.bind_area i then ok tt else exit_failure) else ok tt

-- The loop with `-L`: each of the threads, from the thread `i` on, gets an area of its own.
unfoldable pub map_each :
    MemOption → Kernel → List (Option Affinity) → (i : ℕ) → Held → Outcome (List Area × Held)
map_each opt k [] i h = ok ([], h)
map_each opt k (aff ∷ affs) i h = do
  (fd, h₁) ← open_hugetlb opt k i h
  (area, h₂) ← map_file k i fd h₁
  bound ← bind_nodes k i aff
  (rest, h₃) ← map_each opt k affs (i + 1) h₂
  ok (record { working_area = area; fd = fd } ∷ rest, h₃)

unfoldable pub map_local :
    MemOption → Kernel → List (Option Affinity) → Held → Outcome (Areas × Held)
map_local opt k affs h = do
  (args, h') ← map_each opt k affs 0 h
  ok (record { args = args; fd = no_file }, h')

-- `args[0].affinity`, which is read outside `args` if there is no thread
unfoldable pub first_affinity : List (Option Affinity) → Outcome (Option Affinity)
first_affinity [] = fault
first_affinity (aff ∷ affs) = ok aff

-- Without it, one area is that of all threads.
unfoldable pub map_shared :
    MemOption → Kernel → List (Option Affinity) → Held → Outcome (Areas × Held)
map_shared opt k affs h = do
  (fd, h₁) ← open_hugetlb opt k 0 h
  (area, h₂) ← map_file k 0 fd h₁
  aff ← first_affinity affs
  bound ← bind_nodes k 0 aff
  let one : Area = record { working_area = area; fd = no_file }
  ok (record { args = map (λ _. one) affs; fd = fd }, h₂)

-- `main` behind `parse_args`, up to the threads.
unfoldable pub allocate : MemOption → Kernel → Held → Outcome (Areas × Held)
allocate opt k h = do
  affs ← thread_affinities opt.affinities (pos_part opt.multi) 0
  if opt.local then map_local opt k affs h else map_shared opt k affs h

-- close(2) of a descriptor that is not -1
pub close_file : ℤ → List ℤ
close_file (pos fd) = pos fd ∷ []
close_file (negsuc zero) = []
close_file (negsuc (suc n)) = negsuc (suc n) ∷ []

pub close_each : List Area → List ℤ
close_each [] = []
close_each (a ∷ rest) = close_file a.fd ++ close_each rest

pub unmap_each : List Area → List Address
unmap_each [] = []
unmap_each (a ∷ rest) = a.working_area ∷ unmap_each rest

-- `munmap(args[0].working_area, mmap_size)`
pub unmap_first : List Area → Outcome (List Address)
unmap_first [] = fault
unmap_first (a ∷ rest) = ok (a.working_area ∷ [])

-- `main` behind the threads: the areas given to munmap(2), and the descriptors given to close(2).
pub release : MemOption → Areas → Outcome (List Address × List ℤ)
release opt s = do
  unmapped ← if opt.local then ok (unmap_each s.args) else unmap_first s.args
  ok (unmapped, close_file s.fd ++ close_each s.args)

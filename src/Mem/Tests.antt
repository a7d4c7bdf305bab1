-- ===== src/Mem/Tests.antt =====
-- src/micbench-mem.c on small areas.
use micbench.Base.{
  ◌==◌, ℕ, ◌+◌, ◌*◌, ◌%◌, ◌^◌, ◌≡◌, refl, true, none, some, List, [], ◌∷◌, get_elem?, ok, arith,
}
use micbench.Base.Int.{ℤ, pos, ◌*ℤ◌}
use micbench.Rand.Tests.{integers, integers-DrawsBelow}
use micbench.Base.Text.{codes}
use micbench.Affinity.Arguments.{thread_affinity, thread_affinities}
use micbench.Mem.Areas.{
  Kernel, Areas, Held, allocate, release, map_local, map_each, open_hugetlb, map_file, bind_nodes,
  some_bit,
}
use micbench.Mem.Areas.Release.{nothing, release-allocate}
use micbench.Clock.{Expires}
use micbench.Mem.Args.{MemOption, defaults}
use micbench.Mem.Lines.{Longs, arrange, prepare}
use micbench.Mem.Lines.Shuffle.{prepare-count, prepare-one_line}
use micbench.Mem.Stress.{InnerLoop, Clocks, Stress, mapped_size, stress_seq}
use micbench.Mem.Stress.Within.{Inside, stress_seq-Inside}
use micbench.Mem.Chase.{chase}
use micbench.Mem.Chase.Laps.{chase-lines}
use micbench.Mem.Main.{Build, Worker, Totals, summary}
use micbench.Mem.Main.Summary.{Expiring, no_worker, next_worker, total, summary-random}

abbrev zeros : Longs
zeros p = 0

prepare-count_example : prepare integers (3 * 64) 4 7 zeros ≡ some (ok 3)
prepare-count_example =
    prepare-count integers integers-DrawsBelow 3 4 7 zeros (omega arith) (omega arith) (omega arith)

prepare-one_line_example : prepare integers 64 1000 7 zeros ≡ none
prepare-one_line_example = prepare-one_line integers integers-DrawsBelow 1000 7 zeros

chase-lines_example :
    (h' : Longs) × (ps : List ℕ) × (i : ℕ) × (arrange integers (3 * 64) 4 7 zeros ≡ some (ok h'))
    × (chase (3 * 8) 5 h' 0 ≡ ok ps)
    × (get_elem? ps i ≡ some (2 * 8))
chase-lines_example =
    chase-lines integers integers-DrawsBelow 3 4 5 7 zeros 2 (omega arith) (omega arith)
      (omega arith) (omega arith) (omega arith)

-- a second goes by between two looks
abbrev elapsed : ℕ → ℤ
elapsed i = pos (i * 1000000)

abbrev clocks : Clocks
clocks = record { elapsed = elapsed; t0 = λ i. 100 * i; t1 = λ i. 100 * i + 50 }

abbrev short_loop : InnerLoop
short_loop = record { num_ops = 64; region_size = 64 }

abbrev long_loop : InnerLoop
long_loop = record { num_ops = 64; region_size = 1024 }

-- The area of 1500 bytes is no whole number of regions.
stress_seq-Inside_example :
    (mapped : ℕ) × (s : Stress) × (mapped_size 1500 4096 ≡ ok mapped)
    × (stress_seq short_loop long_loop 1500 (pos 2000000) clocks 2000 3 ≡ some (ok s))
    × Inside 1024 mapped s.touched
stress_seq-Inside_example =
    stress_seq-Inside short_loop long_loop 1500 4096 64 4 (pos 2000000) clocks 2000 3 2
      (omega arith) (omega arith) (omega arith) (omega arith) (omega arith) refl refl (omega arith)
      (omega arith) (λ j lt. ground arith) refl

abbrev opt : MemOption
opt = record defaults { timeout = pos 2 }

pub clocks-Expires : Expires (pos 2) elapsed 2
unfolding ◌*ℤ◌
clocks-Expires = record { before = λ j lt. ground arith; at = refl }

abbrev pub worker : Worker integers
worker = record { clocks = clocks; seed = 7; working_area = zeros }

abbrev pub build : Build
build = record {
  short = short_loop;
  long = long_loop;
  num_ops_rand = 256;
  area_fuel = 2000;
  fuel = 3;
}

two-Expiring : Expiring {m = integers} (pos 2) 3 (worker ∷ worker ∷ []) (2 ∷ 2 ∷ [])
two-Expiring =
    next_worker clocks-Expires (omega arith) (next_worker clocks-Expires (omega arith) no_worker)

summary-random_example :
    (t : Totals) × (summary integers build
        (record opt { rand = true })
        (3 * 64)
        (worker ∷ worker ∷ [])
      ≡ some (ok t))
    × (t.ops ≡ total (2 ∷ 2 ∷ []) * (1024 * 256) % 2 ^ 64)
summary-random_example =
    summary-random integers integers-DrawsBelow build (record opt { rand = true }) 3
      (worker ∷ worker ∷ []) (2 ∷ 2 ∷ []) refl (omega arith) (omega arith) (omega arith)
      two-Expiring

-- two threads with an area of a file of huge pages each, the first bound to a node
abbrev local_options : MemOption
local_options = record defaults {
  multi = pos 2;
  local = true;
  hugetlbfile = some (codes "/huge");
  affinities = some (
      some (record { tid = pos 0; cpumask = λ i. i == 0; nodemask = λ i. i == 0; optarg = none })
      ∷ (none ∷ []));
}

abbrev pub kernel : Kernel
kernel = record {
  open_file = λ i. pos (3 + i);
  map_area = λ i fd. some (4096 * (i + 1));
  bind_area = λ i. true;
}

local_areas : (s : Areas) × (h : Held) × (allocate local_options kernel nothing ≡ ok (s, h))
unfolding allocate thread_affinities map_local map_each open_hugetlb map_file bind_nodes some_bit
    thread_affinity
local_areas = (_, _, refl)

release-allocate_example :
    release local_options local_areas.0 ≡ ok (local_areas.1.mapped, local_areas.1.opened)
release-allocate_example =
    release-allocate local_options kernel local_areas.0 local_areas.1 local_areas.2

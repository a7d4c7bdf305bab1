-- ===== src/Affinity/Tests.antt =====
-- The affinities of src/micbench-utils.c on small masks.
use micbench.Base.{
  ℕ, ◌≡◌, true, false, Bool, Option, none, some, [], ◌∷◌, ◌++◌, arith, ok, ltb, ◌&&◌, List, ◌<◌,
  ◌≤◌, ◌+◌, refl,
}
use micbench.Base.Int.{pos}
use micbench.Base.Text.{
  Text, codes, show_nat, show_int, show_digits, strtol, skip_space, is_digit, scan_digits, to_int,
  signed_at, number_at,
}
use micbench.Affinity.{
  Affinity, parse_affinity, parse_masks, parse_nodes, parse_cpumask, parse_nodemask, make_affinity,
  cpu_set, no_bits, scan_bit, scan_bits, print_run, append_item, any_bit, bits_in_buf, nodes_in_buf,
  affinity_to_string, bits_to_string, cpu_setsize,
}
use micbench.Affinity.Parse.{parse_affinity-print, mask_text, nth}
use micbench.Affinity.Ranges.{bits_to_string-runs, bits_to_string-last_run, join_runs, covered}

abbrev three_bits : List Bool
three_bits = true ∷ (false ∷ (true ∷ []))

parse_affinity-print_example :
    parse_affinity (show_nat 2 ++ (b':' ∷ (mask_text three_bits ++ b':' ∷ mask_text (true ∷ []))))
    ≡ ok (
        some (record {
          tid = pos 2;
          cpumask = λ i. ltb i cpu_setsize && nth three_bits i;
          nodemask = nth (true ∷ []);
          optarg = none;
        }))
parse_affinity-print_example =
    parse_affinity-print 2 three_bits (true ∷ []) (omega arith) (omega arith)

bits_to_string-runs_example :
    (rs : List (ℕ × ℕ)) × (bits_to_string (nth three_bits) 4 ≡ join_runs [] rs)
    × ((j : ℕ) → covered rs j ≡ (ltb j 4 && nth three_bits j))
bits_to_string-runs_example = bits_to_string-runs (nth three_bits) 4 refl

all_set : (j : ℕ) → 2 ≤ j → j < 2 + 1 → nth three_bits j ≡ true
all_set j lo hi = let e : j ≡ 2 = omega arith in rw e refl

bits_to_string-last_run_example :
    bits_to_string (nth three_bits) 3 ≡ bits_to_string (nth three_bits) 2
bits_to_string-last_run_example = bits_to_string-last_run (nth three_bits) 2 1 all_set

-- A thread that keeps to the processors 0 and 2.
abbrev pub two_processors : Affinity
two_processors = record {
  tid = pos 1;
  cpumask = cpu_set 2 (cpu_set 0 no_bits);
  nodemask = no_bits;
  optarg = none;
}

pub two_processors_read : parse_affinity (codes "1:1010:") ≡ ok (some two_processors)
unfolding parse_affinity parse_masks parse_nodes parse_cpumask parse_nodemask make_affinity strtol
    skip_space is_digit scan_digits to_int signed_at number_at
two_processors_read = refl

pub two_processors_shown :
    (o : Option Text)
    → affinity_to_string (record two_processors { optarg = o }) ≡ ok (codes "1:0,2")
unfolding affinity_to_string bits_in_buf nodes_in_buf bits_to_string any_bit scan_bits scan_bit
    cpu_set print_run append_item show_nat show_int show_digits
two_processors_shown o = refl

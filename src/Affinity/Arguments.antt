-- ===== src/Affinity/Arguments.antt =====
-- The option `-a` of the programs (`parse_args` of src/micbench-io.c, src/micbench-mem.c,
-- src/micbench-lock.c and src/micbench-proto.c), which fills an array of affinities, one for each thread.
use micbench.Base.{
  ℕ, zero, suc, ◌+◌, ◌>>=◌, Bool, false, ◌||◌, Option, none, some, List, [], ◌∷◌, ltb,
  if◌then◌else◌, length, replicate, set, get_elem?, Outcome, ok, exit_failure, fault,
}
use micbench.Base.Int.{ℤ, pos, negsuc}
use micbench.Base.Text.{Text, codes, text_eq, strtol, to_int}
use micbench.Affinity.{Affinity, parse_affinity}

-- A result of getopt(3): the option, its argument, and `argv` from `optind` on.
pub record Opt : Type 0 where
  pub optchar : ℕ
  pub optarg : Text
  pub following : List Text

abbrev pub long_arg : Text → ℤ
long_arg s = (strtol s).0

abbrev pub int_arg : Text → ℤ
int_arg s = to_int (strtol s).0

abbrev pub mentions_m : List Text → Bool
mentions_m [] = false
mentions_m (a ∷ rest) = text_eq (codes "-m") a || mentions_m rest

-- The array of affinities, made at the first `-a` with room for `multi` of them.
abbrev pub affinity_array : ℤ → Option (List (Option Affinity)) → Option (List (Option Affinity))
affinity_array multi (some affs) = some affs
affinity_array (pos n) none = some (replicate n none)
affinity_array (negsuc n) none = none

-- `affinities[tid] = aff`: a crash outside the array.
abbrev pub store_affinity : List (Option Affinity) → ℤ → Affinity → Option (List (Option Affinity))
store_affinity affs (pos tid) aff =
    if ltb tid (length affs) then some (set affs tid (some aff)) else none
store_affinity affs (negsuc n) aff = none

-- The case of `-a` where an error ends the process (micbench-mem, micbench-lock, micbench-proto).
unfoldable pub add_affinity :
    Opt → (multi : ℤ) → Option (List (Option Affinity)) → Outcome (List (Option Affinity))
add_affinity o multi affinities =
    if mentions_m o.following then exit_failure else elim (affinity_array multi affinities) [
      | none ↦ fault
      | some affs ↦ elim (parse_affinity o.optarg) [
        | ok none ↦ exit_failure
        | ok (some aff) ↦
            elim (store_affinity affs aff.tid (record aff { optarg = some o.optarg })) [
              | none ↦ fault
              | some affs' ↦ ok affs'
            ]
        | _ ↦ fault
      ]
    ]

-- `option.affinities[i]`, or NULL if there is no array
unfoldable pub thread_affinity : Option (List (Option Affinity)) → ℕ → Outcome (Option Affinity)
thread_affinity none i = ok none
thread_affinity (some affs) i = elim (get_elem? affs i) [ none ↦ fault | some aff ↦ ok aff ]

-- `args[i].affinity` of `n` threads from the thread `i` on, as each `main` sets it.
unfoldable pub thread_affinities :
    Option (List (Option Affinity)) → (n i : ℕ) → Outcome (List (Option Affinity))
thread_affinities affinities zero i = ok []
thread_affinities affinities (suc n) i = do
  aff ← thread_affinity affinities i
  rest ← thread_affinities affinities n (i + 1)
  ok (aff ∷ rest)

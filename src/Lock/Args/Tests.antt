-- ===== src/Lock/Args/Tests.antt =====
-- The options of src/micbench-lock.c on `-C 5 -m 2`, and on `-m 2 -a 1:1010:`.
use micbench.Base.{List, Option, none, some, [], ◌∷◌, ◌≡◌, refl, ok}
use micbench.Base.Int.{pos}
use micbench.Base.Text.{codes, strtol, skip_space, is_digit, scan_digits, to_int}
use micbench.Affinity.{Affinity}
use micbench.Affinity.Tests.{two_processors, two_processors_read}
use micbench.Affinity.Arguments.{Opt, add_affinity}
use micbench.Lock.Args.{LockOption, defaults, job_size, set_option, set_options, parse_args}
use micbench.Lock.Args.Sizes.{Sizes, parse_args-Sizes}

abbrev pub two_threads : List Opt
two_threads =
    record { optchar = b'C'; optarg = codes "5"; following = codes "-m" ∷ (codes "2" ∷ []) }
    ∷ (record { optchar = b'm'; optarg = codes "2"; following = [] } ∷ [])

abbrev pub short_job : LockOption
short_job = record defaults { multi = pos 2; critical_job_size = pos 5 }

pub two_threads_run : parse_args two_threads ≡ ok short_job
unfolding parse_args set_options set_option job_size strtol skip_space is_digit scan_digits to_int
two_threads_run = refl

-- The second thread keeps to two processors.
abbrev pub bound_thread : List Opt
bound_thread =
    record { optchar = b'm'; optarg = codes "2"; following = [] }
    ∷ (record { optchar = b'a'; optarg = codes "1:1010:"; following = [] } ∷ [])

abbrev pub affinities : List (Option Affinity)
affinities = none ∷ (some (record two_processors { optarg = some (codes "1:1010:") }) ∷ [])

abbrev pub second_bound : LockOption
second_bound = record defaults { multi = pos 2; affinities = some affinities }

pub bound_thread_run : parse_args bound_thread ≡ ok second_bound
unfolding parse_args set_options set_option add_affinity strtol skip_space is_digit scan_digits
    to_int
bound_thread_run = rw two_processors_read refl

parse_args-Sizes_example : Sizes short_job
parse_args-Sizes_example = parse_args-Sizes two_threads short_job two_threads_run

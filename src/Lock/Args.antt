-- ===== src/Lock/Args.antt =====
-- The options of src/micbench-lock.c and its `parse_args`. getopt(3) is a parameter, as in
-- `Affinity.Arguments`; an error ends the process.
pub mod Sizes
pub mod Tests
use micbench.Base.{
  ℕ, suc, Bool, true, false, Option, none, some, List, [], ◌∷◌, ◌==◌, if◌then◌else◌, Outcome, ok,
  exit_failure, fault, waits, ◌>>=◌,
}
use micbench.Base.Int.{ℤ, pos, negsuc}
use micbench.Base.Text.{Text, codes, text_eq}
use micbench.Affinity.{Affinity}
use micbench.Affinity.Arguments.{Opt, long_arg, int_arg, add_affinity}

-- `mb_testmode_t`
pub data TestMode : Type 0 where
  test_spinlock test_mutex test_mfence : TestMode

pub record LockOption : Type 0 where
  pub multi : ℤ
  pub affinities : Option (List (Option Affinity))
  pub count : ℤ
  pub critical_job_size : ℤ
  pub noncritical_job_size : ℤ
  pub mode : TestMode
  pub verbose : Bool

abbrev pub defaults : LockOption
defaults = record {
  multi = pos 1;
  affinities = none;
  count = pos 2097152;
  critical_job_size = pos 10;
  noncritical_job_size = pos 1000;
  mode = test_spinlock;
  verbose = false;
}

-- The case of `-M`.
pub test_mode : Text → Outcome TestMode
test_mode arg =
    if text_eq (codes "spinlock") arg
    then ok test_spinlock
    else if text_eq (codes "mutex") arg
    then ok test_mutex
    else if text_eq (codes "mfence") arg
    then ok test_mfence
    else exit_failure

-- The test of the sizes of the jobs: not above 0 is an error.
pub job_size : ℤ → Outcome ℤ
job_size (pos (suc n)) = ok (pos (suc n))
job_size _ = exit_failure

-- The switch on the option's letter.
pub set_option : Opt → LockOption → Outcome LockOption
set_option o opt =
    let c = o.optchar in
    let arg = o.optarg in
    if c == b'm'
    then ok (record opt { multi = int_arg arg })
    else if c == b'a'
    then (add_affinity o opt.multi opt.affinities >>= λ affs.
        ok (record opt { affinities = some affs }))
    else if c == b'M'
    then (test_mode arg >>= λ mode. ok (record opt { mode = mode }))
    else if c == b'C'
    then (job_size (long_arg arg) >>= λ size. ok (record opt { critical_job_size = size }))
    else if c == b'N'
    then (job_size (long_arg arg) >>= λ size. ok (record opt { noncritical_job_size = size }))
    else if c == b'c'
    then ok (record opt { count = long_arg arg })
    else if c == b'v'
    then ok (record opt { verbose = true })
    else exit_failure

pub set_options : List Opt → LockOption → Outcome LockOption
set_options [] opt = ok opt
set_options (o ∷ os) opt = set_option o opt >>= set_options os

-- `parse_args`
pub parse_args : List Opt → Outcome LockOption
parse_args opts = set_options opts defaults

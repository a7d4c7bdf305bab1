-- ===== src/Mem/Args.antt =====
-- The options of src/micbench-mem.c and its `parse_args`. getopt(3) is a parameter, as in
-- `Affinity.Arguments`; an error ends the process.
pub mod Patterns
use micbench.Base.{
  ℕ, Bool, true, false, Option, none, some, List, [], ◌∷◌, ◌==◌, if◌then◌else◌, Outcome, ok,
  exit_failure, fault, waits, ◌>>=◌,
}
use micbench.Base.Int.{ℤ, pos}
use micbench.Base.Text.{Text}
use micbench.Affinity.{Affinity}
use micbench.Affinity.Arguments.{Opt, long_arg, int_arg, add_affinity}

pub record MemOption : Type 0 where
  pub multi : ℤ
  pub affinities : Option (List (Option Affinity))
  pub seq : Bool
  pub rand : Bool
  pub local : Bool
  pub timeout : ℤ
  pub size : ℤ
  pub hugetlbfile : Option Text
  pub hugepage_size : ℤ
  pub verbose : Bool

abbrev pub defaults : MemOption
defaults = record {
  multi = pos 1;
  affinities = none;
  seq = true;
  rand = false;
  local = false;
  timeout = pos 10;
  size = pos 1048576;
  hugetlbfile = none;
  hugepage_size = pos 2097152;
  verbose = false;
}

-- The switch on the option's letter.
unfoldable pub set_option : Opt → MemOption → Outcome MemOption
set_option o opt =
    let c = o.optchar in
    let arg = o.optarg in
    if c == b'm'
    then ok (record opt { multi = int_arg arg })
    else if c == b't'
    then ok (record opt { timeout = int_arg arg })
    else if c == b'S'
    then ok (record opt { seq = true; rand = false })
    else if c == b'R'
    then ok (record opt { seq = false; rand = true })
    else if c == b'L'
    then ok (record opt { local = true })
    else if c == b'a'
    then (add_affinity o opt.multi opt.affinities >>= λ affs.
        ok (record opt { affinities = some affs }))
    else if c == b's'
    then ok (record opt { size = long_arg arg })
    else if c == b'H'
    then ok (record opt { hugetlbfile = some arg })
    else if c == b'z'
    then ok (record opt { hugepage_size = long_arg arg })
    else if c == b'v'
    then ok (record opt { verbose = true })
    else exit_failure

unfoldable pub set_options : List Opt → MemOption → Outcome MemOption
set_options [] opt = ok opt
set_options (o ∷ os) opt = set_option o opt >>= set_options os

-- `parse_args`
unfoldable pub parse_args : List Opt → Outcome MemOption
parse_args opts = set_options opts defaults

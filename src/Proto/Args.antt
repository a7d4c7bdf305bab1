-- ===== src/Proto/Args.antt =====
-- The options of src/micbench-proto.c and its `parse_args`. getopt(3) is a parameter, as in
-- `Affinity.Arguments`; an error ends the process.
use micbench.Base.{
  Bool, true, false, Option, none, some, List, [], ◌∷◌, ◌==◌, if◌then◌else◌, Outcome, ok,
  exit_failure, ◌>>=◌,
}
use micbench.Base.Int.{ℤ, pos}
use micbench.Affinity.{Affinity}
use micbench.Affinity.Arguments.{Opt, long_arg, int_arg, add_affinity}

pub record ProtoOption : Type 0 where
  pub multi : ℤ
  pub affinities : Option (List (Option Affinity))
  pub timeout : ℤ
  pub count : ℤ
  pub verbose : Bool

abbrev pub defaults : ProtoOption
defaults = record {
  multi = pos 1;
  affinities = none;
  timeout = pos 10;
  count = pos 134217728;
  verbose = false;
}

-- The switch on the option's letter.
pub set_option : Opt → ProtoOption → Outcome ProtoOption
set_option o opt =
    let c = o.optchar in
    let arg = o.optarg in
    if c == b'm'
    then ok (record opt { multi = int_arg arg })
    else if c == b't'
    then ok (record opt { timeout = int_arg arg })
    else if c == b'a'
    then (add_affinity o opt.multi opt.affinities >>= λ affs.
        ok (record opt { affinities = some affs }))
    else if c == b'c'
    then ok (record opt { count = long_arg arg })
    else if c == b'v'
    then ok (record opt { verbose = true })
    else exit_failure

pub set_options : List Opt → ProtoOption → Outcome ProtoOption
set_options [] opt = ok opt
set_options (o ∷ os) opt = set_option o opt >>= set_options os

-- `parse_args`
pub parse_args : List Opt → Outcome ProtoOption
parse_args opts = set_options opts defaults

-- ===== src/Io/Args.antt =====
-- `parse_args` of src/micbench-io.c. getopt(3) is a parameter: its results come as a list, each with
-- the arguments that follow it, and the operands that are left at its end. The functions of the C
-- library that it calls are in `Base.Text`, those of the file system in `FileSize`.
pub mod Accepts
pub mod Tests
use micbench.Base.{
  ℕ, zero, suc, ◌+◌, ◌*◌, ◌/◌, ◌%◌, ◌^◌, Bool, true, false, ◌&&◌, ◌||◌, not, Option, none, some,
  List, [], ◌∷◌, ◌++◌, ltb, leb, ◌==◌, if◌then◌else◌, length, replicate, set, Outcome, ok, fault,
  Step, next, goto_error, crash, and_then, ◌>>=◌,
}
use micbench.Base.Int.{wrap64, ℤ, pos, negsuc, ◌*ℤ◌, ltb_ℤ, pos_part, neg_part}
use micbench.Base.Text.{Text, codes, text_eq, strtol, to_int, to_unsigned}
use micbench.Affinity.Arguments.{Opt, long_arg, int_arg, mentions_m, affinity_array, store_affinity}
use micbench.Affinity.{Affinity, parse_affinity}
use micbench.FileSize.{FileSystem, OpenMode, o_rdonly, o_wronly, o_rdwr, getsize}
use micbench.Rand.{Machine}
use micbench.Io.Options.{
  IoOption, Pattern, pattern_seq, pattern_rand, pattern_seekdist, pattern_seekincr, aio_libaio,
  aio_iouring,
}

-- Where the process runs: its files, whether it is root, and whether io_uring is built in.
pub record Host : Type 0 where
  pub fs : FileSystem
  pub is_root : Bool
  pub have_io_uring : Bool

-- The body of the loop over the files: the file's size, the error label, or a division by zero.
pub data FileCheck : Type 0 where
  size : ℤ → FileCheck
  refused dies : FileCheck

pub data FilesCheck : Type 0 where
  sizes : List ℤ → FilesCheck
  some_refused some_dies : FilesCheck

pub cons_size : FileCheck → FilesCheck → FilesCheck
cons_size refused rest = some_refused
cons_size dies rest = some_dies
cons_size (size s) some_refused = some_refused
cons_size (size s) some_dies = some_dies
cons_size (size s) (sizes ss) = sizes (s ∷ ss)

abbrev pub is_some {ℓ} : {A : Type ℓ} → Option A → Bool
is_some none = false
is_some (some x) = true

-- the size of a number without its sign
abbrev pub size_of : ℤ → ℕ
size_of z = pos_part z + neg_part z

module _ (m : Machine) where
  open m use {Double, of_long, lt, strtod}

  abbrev pub Options : Type 0
  Options = IoOption Double

  -- The defaults. The number of files has none.
  abbrev pub defaults : ℕ → Options
  defaults nr_files = record {
    noop = false;
    multi = pos 1;
    affinities = none;
    timeout = pos 60;
    bogus_comp = pos 0;
    iosleep = 0;
    read = true;
    write = false;
    rwmix = of_long (pos 0);
    pattern = pattern_seq;
    direct = false;
    aio = false;
    aio_engine = aio_libaio;
    aio_nr_events = pos 64;
    aio_tracefile = none;
    blk_sz = pos 4096;
    seekdist_stride = pos 16384;
    ofst_start = negsuc 0;
    ofst_end = negsuc 0;
    misalign = pos 0;
    continue_on_error = false;
    logfile = false;
    logfile_path = none;
    json = false;
    verbose = false;
    nr_files = nr_files;
    file_path_list = none;
    file_size_list = none;
  }

  -- The case of `-a`.
  pub set_affinity : Opt → Options → Step Options
  set_affinity o opt =
      if mentions_m o.following
      then goto_error opt
      else elim (affinity_array opt.multi opt.affinities) [
        | none ↦ crash
        | some affs ↦ elim (parse_affinity o.optarg) [
          | ok none ↦ goto_error (record opt { affinities = some affs })
          | ok (some aff) ↦
              elim (store_affinity affs aff.tid (record aff { optarg = some o.optarg })) [
                | none ↦ crash
                | some affs' ↦ next (record opt { affinities = some affs' })
              ]
          | _ ↦ crash
        ]
      ]

  -- The case of `-g`.
  pub set_engine : Bool → Text → Options → Step Options
  set_engine have_io_uring arg opt =
      if text_eq arg (codes "libaio")
      then next (record opt { aio_engine = aio_libaio })
      else if text_eq arg (codes "io_uring")
      then (if have_io_uring
          then next (record opt { aio_engine = aio_iouring })
          else goto_error opt)
      else goto_error opt

  -- held within 0 and 1
  pub clamp_rwmix : Double → Double
  clamp_rwmix x =
      let low = if lt x (of_long (pos 0)) then of_long (pos 0) else x in
      if lt (of_long (pos 1)) low then of_long (pos 1) else low

  -- The rest of the switch: the numbers and the flags of the report.
  set_number : Opt → Options → Step Options
  set_number o opt =
      let c = o.optchar in
      let arg = o.optarg in
      if c == b'b'
      then next (record opt { blk_sz = int_arg arg })
      else if c == b's'
      then next (record opt { ofst_start = long_arg arg })
      else if c == b'e'
      then next (record opt { ofst_end = long_arg arg })
      else if c == b'B'
      then next (record opt { seekdist_stride = long_arg arg })
      else if c == b'z'
      then next (record opt { misalign = long_arg arg })
      else if c == b'c'
      then next (record opt { bogus_comp = long_arg arg })
      else if c == b'i'
      then next (record opt { iosleep = to_unsigned (long_arg arg) })
      else if c == b'C'
      then next (record opt { continue_on_error = true })
      else if c == b'l'
      then next (record opt { logfile_path = some arg })
      else if c == b'j'
      then next (record opt { json = true })
      else if c == b'v'
      then next (record opt { verbose = true })
      else goto_error opt

  -- The switch on the option's letter.
  pub set_option : Host → Opt → Options → Step Options
  set_option host o opt =
      let c = o.optchar in
      let arg = o.optarg in
      if c == b'N'
      then next (record opt { noop = true })
      else if c == b'm'
      then next (record opt { multi = int_arg arg })
      else if c == b'a'
      then set_affinity o opt
      else if c == b't'
      then next (record opt { timeout = int_arg arg })
      else if c == b'R'
      then next (record opt { pattern = pattern_rand })
      else if c == b'S'
      then next (record opt { pattern = pattern_seq })
      else if c == b'D'
      then next (record opt { pattern = pattern_seekdist })
      else if c == b'I'
      then next (record opt { pattern = pattern_seekincr })
      else if c == b'd'
      then next (record opt { direct = true })
      else if c == b'A'
      then next (record opt { aio = true })
      else if c == b'g'
      then set_engine host.have_io_uring arg opt
      else if c == b'E'
      then next (record opt { aio_nr_events = int_arg arg })
      else if c == b'T'
      then next (record opt { aio_tracefile = some arg })
      else if c == b'W'
      then next (record opt { write = true; read = false })
      else if c == b'M'
      then next (record opt { rwmix = clamp_rwmix (strtod arg); read = false; write = false })
      else set_number o opt

  -- The loop over the results of getopt(3).
  pub set_options : Host → List Opt → Options → Step Options
  set_options host [] opt = next opt
  set_options host (o ∷ os) opt = and_then (set_option host o opt) (set_options host os)

  -- how a file is opened for the mode of the run
  abbrev pub open_mode : Options → OpenMode
  open_mode opt = if opt.read then o_rdonly else if opt.write then o_wronly else o_rdwr

  -- The body of the loop over the files. The message for an offset that is too big divides by the
  -- block size, so a block size of 0 crashes there. The products of an int and an int64_t wrap around.
  pub check_file : Host → Options → Text → FileCheck
  check_file host opt path =
      let path_sz = getsize host.fs path in
      let too_big = if size_of opt.blk_sz == 0 then dies else refused in
      if not opt.noop && not (host.fs.open_ok (open_mode opt) path)
      then refused
      else if ltb_ℤ path_sz (wrap64 (opt.blk_sz *ℤ opt.ofst_start))
      then too_big
      else if ltb_ℤ path_sz (wrap64 (opt.blk_sz *ℤ opt.ofst_end))
      then too_big
      else size path_sz

  -- The loop over the files, which stops at the first that is refused.
  pub check_files : Host → Options → List Text → FilesCheck
  check_files host opt [] = sizes []
  check_files host opt (path ∷ paths) =
      cons_size (check_file host opt path) (check_files host opt paths)

  -- The lists that the loop over the files has filled.
  pub with_sizes : List Text → Options → FilesCheck → Step Options
  with_sizes paths opt some_refused = goto_error opt
  with_sizes paths opt some_dies = crash
  with_sizes paths opt (sizes ss) =
      next (record opt { file_path_list = some paths; file_size_list = some ss })

  pub take_files : Host → List Text → Options → Step Options
  take_files host [] opt = goto_error opt
  take_files host (path ∷ paths) opt =
      let opt' = record opt { nr_files = length (path ∷ paths) } in
      with_sizes (path ∷ paths) opt' (check_files host opt' (path ∷ paths))

  pub open_log : Host → Option Text → Options → Step Options
  open_log host none opt = next opt
  open_log host (some path) opt =
      if host.fs.create_ok path then next (record opt { logfile = true }) else goto_error opt

  -- The checks of `-d`, `-T` and `-l`.
  pub check_modes : Host → Options → Step Options
  check_modes host opt =
      if opt.direct && not (size_of opt.blk_sz % 512 == 0)
      then goto_error opt
      else if opt.direct && not host.is_root
      then goto_error opt
      else if is_some opt.aio_tracefile && not opt.aio
      then goto_error opt
      else open_log host opt.logfile_path opt

  -- The return value, and what the error label frees.
  pub finish : Step Options → Outcome (ℕ × Options)
  finish (next opt) = ok (0, opt)
  finish (goto_error opt) = ok (1, record opt { file_path_list = none; file_size_list = none })
  finish crash = fault

  -- `parse_args`; `nr_files` is what the record held before.
  pub parse_args : Host → (nr_files : ℕ) → List Opt → (operands : List Text) → Outcome (ℕ × Options)
  parse_args host nr_files opts operands = finish (
      and_then (set_options host opts (defaults nr_files))
        λ opt. and_then (take_files host operands opt) (check_modes host))

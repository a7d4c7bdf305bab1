-- ===== src/Io/Args/Tests.antt =====
-- `parse_args` of src/micbench-io.c on `-W -b 1024` and a file of 4096 bytes.
use micbench.Base.{ℕ, ◌≡◌, refl, true, false, some, List, [], ◌∷◌, ok}
use micbench.Base.Int.{wrap64, ℤ, pos, ◌*ℤ◌}
use micbench.Base.Text.{codes, to_int, strtol, skip_space, is_digit, scan_digits}
use micbench.FileSize.{regular, getsize}
use micbench.Rand.Tests.{integers}
use micbench.Io.Options.{IoOption}
use micbench.Affinity.Arguments.{Opt}
use micbench.Io.Args.{
  Host, defaults, parse_args, set_options, set_option, set_number, take_files, check_files,
  check_file, cons_size, with_sizes, check_modes, open_log, finish,
}
use micbench.Io.Args.Accepts.{FilesOk, ModesOk, parse_args-accepts}

-- a host with files of one size
abbrev pub file_of : ℕ → Host
file_of n = record {
  fs = record {
    open_ok = λ mode path. true;
    fstat = λ path. some (regular n);
    create_ok = λ path. true;
  };
  is_root = false;
  have_io_uring = false;
}

abbrev arguments : List Opt
arguments =
    record { optchar = b'W'; optarg = []; following = [] }
    ∷ (record { optchar = b'b'; optarg = codes "1024"; following = [] } ∷ [])

abbrev accepted : IoOption ℤ
accepted = record (defaults integers 1) {
  write = true;
  read = false;
  blk_sz = pos 1024;
  file_path_list = some (codes "f" ∷ []);
  file_size_list = some (pos 4096 ∷ []);
}

parse_args_run : parse_args integers (file_of 4096) 0 arguments (codes "f" ∷ []) ≡ ok (0, accepted)
unfolding parse_args set_options set_option set_number take_files check_files check_file cons_size
    with_sizes check_modes open_log finish getsize wrap64 ◌*ℤ◌ to_int strtol skip_space is_digit
    scan_digits
parse_args_run = refl

parse_args-accepts_example :
    FilesOk integers (file_of 4096) (codes "f" ∷ []) accepted
    × ModesOk integers (file_of 4096) accepted
parse_args-accepts_example =
    parse_args-accepts integers (file_of 4096) 0 arguments (codes "f" ∷ []) accepted parse_args_run

-- `-m 2 -b 1 -j` and a file of 3 bytes
abbrev pub json_arguments : List Opt
json_arguments =
    record { optchar = b'm'; optarg = codes "2"; following = [] }
    ∷ (record { optchar = b'b'; optarg = codes "1"; following = [] }
        ∷ (record { optchar = b'j'; optarg = []; following = [] } ∷ []))

abbrev pub json_accepted : IoOption ℤ
json_accepted = record (defaults integers 1) {
  multi = pos 2;
  blk_sz = pos 1;
  json = true;
  file_path_list = some (codes "f" ∷ []);
  file_size_list = some (pos 3 ∷ []);
}

pub json_arguments_accepted :
    parse_args integers (file_of 3) 0 json_arguments (codes "f" ∷ []) ≡ ok (0, json_accepted)
unfolding parse_args set_options set_option set_number take_files check_files check_file cons_size
    with_sizes check_modes open_log finish getsize wrap64 ◌*ℤ◌ to_int strtol skip_space is_digit
    scan_digits
json_arguments_accepted = refl

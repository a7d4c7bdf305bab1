-- ===== src/Btreplay/Tests.antt =====
-- src/micbench-btreplay.c on a dump of two records, the second right behind the first.
use micbench.Base.{none, List, ◌≡◌, refl, true, false, some, [], ◌∷◌, arith, ok}
use micbench.Btreplay.{Trace, stop, trace, fill_queue, do_thread_job, no_endpos}
use micbench.Base.Int.{pos}
use micbench.Base.Text.{codes, strtol, skip_space, is_digit, scan_digits, to_int}
use micbench.Btreplay.{
  Options, Opt, defaults, set_options, set_option, set_paths, finish, parse_args,
}
use micbench.Btreplay.Accepts.{PathsOk, parse_args-PathsOk}
use micbench.Btreplay.Replay.{performed, issued, do_thread_job-issued}
use micbench.Btreplay.Dump.{Entry, IsEntry, dump, fill_queue-dump}

abbrev read_record : Trace
read_record = record {
  magic = 1700885511;
  sequence = 1;
  time = 1000;
  sector = 8;
  bytes = 4096;
  action = 65543;
  pid = 10;
  device = 8388608;
  cpu = 0;
  error = 0;
  pdu_len = 2;
}

abbrev write_record : Trace
write_record = record read_record { sector = 16; action = 131079; pdu_len = 0 }

abbrev read_entry : Entry
read_entry = record { record_of = read_record; pdu = 1 ∷ (2 ∷ []) }

abbrev write_entry : Entry
write_entry = record { record_of = write_record; pdu = [] }

read_entry-IsEntry : IsEntry read_entry
read_entry-IsEntry = record {
  magic = omega arith;
  sequence = omega arith;
  time = omega arith;
  sector = omega arith;
  bytes = omega arith;
  action = omega arith;
  pid = omega arith;
  device = omega arith;
  cpu = omega arith;
  error = omega arith;
  pdu_len = omega arith;
  magic_lem = refl;
  len = refl;
  fits = omega arith;
}

write_entry-IsEntry : IsEntry write_entry
write_entry-IsEntry = record {
  magic = omega arith;
  sequence = omega arith;
  time = omega arith;
  sector = omega arith;
  bytes = omega arith;
  action = omega arith;
  pid = omega arith;
  device = omega arith;
  cpu = omega arith;
  error = omega arith;
  pdu_len = omega arith;
  magic_lem = refl;
  len = refl;
  fits = omega arith;
}

fill_queue-dump_example :
    fill_queue 3 2 (dump (read_entry ∷ (write_entry ∷ [])))
    ≡ some (ok (trace read_record ∷ (trace write_record ∷ (stop ∷ (stop ∷ [])))))
fill_queue-dump_example =
    fill_queue-dump 3 2 (read_entry ∷ (write_entry ∷ []))
      (read_entry-IsEntry, (write_entry-IsEntry, tt)) (omega arith)

do_thread_job-issued_example :
    performed 0 (do_thread_job no_endpos (trace read_record ∷ (trace write_record ∷ (stop ∷ []))))
    ≡ (false, 4096, 4096) ∷ ((true, 8192, 4096) ∷ [])
unfolding issued
do_thread_job-issued_example =
    do_thread_job-issued (trace read_record ∷ (trace write_record ∷ (stop ∷ []))) 0

-- `-m 2 dump disk`
abbrev two_threads : Options
two_threads = record (defaults none) {
  multi = pos 2;
  btdump_path = some (codes "dump");
  target_path = some (codes "disk");
}

abbrev two_threads_args : List Opt
two_threads_args = record { optchar = b'm'; optarg = codes "2" } ∷ []

two_threads_run :
    parse_args none two_threads_args (codes "dump" ∷ (codes "disk" ∷ [])) ≡ (pos 0, two_threads)
unfolding parse_args set_options set_option set_paths finish strtol skip_space is_digit scan_digits
    to_int
two_threads_run = refl

parse_args-PathsOk_example : PathsOk (codes "dump" ∷ (codes "disk" ∷ [])) two_threads
parse_args-PathsOk_example =
    parse_args-PathsOk none two_threads_args (codes "dump" ∷ (codes "disk" ∷ [])) two_threads
      two_threads_run

-- ===== src/Btreplay.antt =====
-- src/micbench-btreplay.c, which replays a dump of blktrace(8) on a file or device: its options, the
-- records of the dump (`struct blk_io_trace` of src/blktrace_api.h, on a little-endian machine), the
-- queue that `mb_btreplay_main` fills, and the threads' `do_thread_job`. The queue (GAsyncQueue) is a
-- list of the requests, and the system calls that a thread makes are its result.
pub mod Replay
pub mod Dump
pub mod Accepts
pub mod Threads
mod Tests
use micbench.Base.{
  ℕ, zero, suc, ◌+◌, ◌*◌, ◌-◌, ◌/◌, ◌%◌, ◌^◌, Bool, true, false, ◌&&◌, not, Option, none, some,
  List, [], ◌∷◌, ◌++◌, ltb, ◌==◌, if◌then◌else◌, drop, length, min, replicate, Outcome, ok,
  exit_failure, fault, Step, next, goto_error, crash, and_then,
}
use micbench.Base.Int.{ℤ, pos, negsuc}
use micbench.Base.Text.{Text, strtol, to_int}

-- `mb_btreplay_option_t`
pub record Options : Type 0 where
  pub verbose : Bool
  pub vverbose : Bool
  pub direct : Bool
  pub multi : ℤ
  pub timeout : ℤ
  pub repeat : Bool
  pub btdump_path : Option Text
  pub target_path : Option Text

-- A result of getopt(3): the option and its argument.
pub record Opt : Type 0 where
  pub optchar : ℕ
  pub optarg : Text

-- The defaults. The target has none.
abbrev pub defaults : Option Text → Options
defaults target_path = record {
  verbose = false;
  vverbose = false;
  direct = false;
  multi = pos 1;
  timeout = pos 0;
  repeat = false;
  btdump_path = none;
  target_path = target_path;
}

-- The switch on the option's letter.
pub set_option : Opt → Options → Step Options
set_option o opt =
    let c = o.optchar in
    if c == b'v'
    then next (record opt { verbose = true })
    else if c == b'V'
    then next (record opt { verbose = true; vverbose = true })
    else if c == b'm'
    then next (record opt { multi = to_int (strtol o.optarg).0 })
    else if c == b'd'
    then next (record opt { direct = true })
    else if c == b't'
    then next (record opt { timeout = to_int (strtol o.optarg).0 })
    else if c == b'r'
    then next (record opt { repeat = true })
    else goto_error opt

pub set_options : List Opt → Options → Step Options
set_options [] opt = next opt
set_options (o ∷ os) opt = and_then (set_option o opt) (set_options os)

abbrev pub is_zero : ℤ → Bool
is_zero (pos n) = n == 0
is_zero (negsuc n) = false

-- The two operands, and the check of `-r`. (Operands behind the second are not looked at.)
pub set_paths : List Text → Options → Step Options
set_paths (btdump ∷ (target ∷ rest)) opt =
    let opt' = record opt { btdump_path = some btdump; target_path = some target } in
    if opt'.repeat && is_zero opt'.timeout then goto_error opt' else next opt'
set_paths _ opt = goto_error opt

pub finish : Step Options → ℤ × Options
finish (next opt) = (pos 0, opt)
finish (goto_error opt) = (negsuc 0, opt)
finish crash = (negsuc 0, defaults none)

-- `mb_btreplay_parse_args`; `target_path` is what the record held before.
pub parse_args : (target_path : Option Text) → List Opt → (operands : List Text) → ℤ × Options
parse_args target_path opts operands =
    finish (and_then (set_options opts (defaults target_path)) (set_paths operands))

-- `struct blk_io_trace`
pub record Trace : Type 0 where
  pub magic : ℕ
  pub sequence : ℕ
  pub time : ℕ
  pub sector : ℕ
  pub bytes : ℕ
  pub action : ℕ
  pub pid : ℕ
  pub device : ℕ
  pub cpu : ℕ
  pub error : ℕ
  pub pdu_len : ℕ

-- a number of `n` bytes, the lowest first
pub word : ℕ → Text → Option (ℕ × Text)
word zero s = some (0, s)
word (suc n) [] = none
word (suc n) (b ∷ s) = elim (word n s) [ none ↦ none | some (w, rest) ↦ some (b + 256 * w, rest) ]

abbrev pub bind {ℓ} : {A B : Type ℓ} → Option A → (A → Option B) → Option B
bind none f = none
bind (some x) f = f x

-- fread(3) of one record
pub read_trace : Text → Option (Trace × Text)
read_trace s = bind (word 4 s) λ magic. bind (word 4 magic.1) λ sequence.
    bind (word 8 sequence.1) λ time. bind (word 8 time.1) λ sector. bind (word 4 sector.1) λ bytes.
      bind (word 4 bytes.1) λ action. bind (word 4 action.1) λ pid. bind (word 4 pid.1) λ device.
        bind (word 4 device.1) λ cpu. bind (word 2 cpu.1) λ error. bind (word 2 error.1) λ pdu_len.
          some (
            record {
              magic = magic.0;
              sequence = sequence.0;
              time = time.0;
              sector = sector.0;
              bytes = bytes.0;
              action = action.0;
              pid = pid.0;
              device = device.0;
              cpu = cpu.0;
              error = error.0;
              pdu_len = pdu_len.0;
            },
            pdu_len.1,
          )

-- BLK_IO_TRACE_MAGIC: the magic number of a record, with 0 for its version
abbrev pub blk_io_trace_magic : ℕ
blk_io_trace_magic = 1700885504

-- `mb_fetch_blk_io_trace` on what is left of the dump: `none` for its result 1. The data behind the
-- record go into a buffer of 1024 bytes, past whose end they crash the program.
pub fetch : Text → Outcome (Option (Trace × Text))
fetch s = elim (read_trace s) [
  | none ↦ ok none
  | some (t, rest) ↦
      if not (256 * (t.magic / 256) == blk_io_trace_magic)
      then ok none
      else if ltb 1024 (min t.pdu_len (length rest))
      then fault
      else ok (some (t, drop t.pdu_len rest))
]

-- A request in the queue: a record of the dump, or the sign to stop.
pub data Ioreq : Type 0 where
  stop : Ioreq
  trace : Trace → Ioreq

-- The loop of `mb_btreplay_main` that fills the queue, with fuel, and the signs for the `multi`
-- threads behind it. `none` means that the fuel ran out.
pub fill_queue : (fuel multi : ℕ) → Text → Option (Outcome (List Ioreq))
fill_queue zero multi s = none
fill_queue (suc fuel) multi s = elim (fetch s) [
  | ok none ↦ some (ok (replicate multi stop))
  | ok (some (t, rest)) ↦ elim (fill_queue fuel multi rest) [
    | some (ok q) ↦ some (ok (trace t ∷ q))
    | other ↦ other
  ]
  | exit_failure ↦ some exit_failure
  | _ ↦ some fault
]

-- A system call of a thread: lseek64(2) to an offset, or a whole transfer of `mb_readall` or
-- `mb_writeall` at the file's position.
pub data Call : Type 0 where
  lseek64 : (ofst : ℕ) → Call
  readall : (sz : ℕ) → Call
  writeall : (sz : ℕ) → Call

abbrev pub blk_ta_issue : ℕ
blk_ta_issue = 7

abbrev pub is_issue : Trace → Bool
is_issue t = t.action % 2 ^ 16 == blk_ta_issue

-- the bit BLK_TC_WRITE of the action
abbrev pub is_write : Trace → Bool
is_write t = t.action / 2 ^ 17 % 2 == 1

abbrev pub ofst_of : Trace → ℕ
ofst_of t = t.sector * 512 % 2 ^ 64

abbrev pub transfer_call : Trace → Call
transfer_call t = if is_write t then writeall t.bytes else readall t.bytes

-- The loop of `do_thread_job` on the requests that the thread takes from the queue, with `endpos` as
-- a number of 64 bits. It ends at the first sign to stop; without one the thread waits.
pub do_thread_job : (endpos : ℕ) → List Ioreq → List Call
do_thread_job endpos [] = []
do_thread_job endpos (stop ∷ q) = []
do_thread_job endpos (trace t ∷ q) =
    let rest = do_thread_job ((ofst_of t + t.bytes) % 2 ^ 64) q in
    let calls = transfer_call t ∷ rest in
    let skipped = do_thread_job endpos q in
    if not (is_issue t)
    then skipped
    else if not (ofst_of t == endpos)
    then lseek64 (ofst_of t) ∷ calls
    else calls

-- -1, with which the loop begins
abbrev pub no_endpos : ℕ
no_endpos = 2 ^ 64 - 1

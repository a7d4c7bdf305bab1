-- ===== src/Io/Log.antt =====
-- `mb_log_io_activity` of src/micbench-io.c. Times are in microseconds, and so is the response time,
-- which the source prints in seconds.
use micbench.Base.{
  ℕ, suc, ◌==◌, Bool, if◌then◌else◌, not, List, [], ◌∷◌, ◌++◌, true, false, length, length-append,
  ◌≡◌, ◌+◌, arith,
}
use micbench.Base.Int.{ℤ, pos, ◌-ℤ◌}
use micbench.Base.Text.{Text}

pub record LogLine : Type 0 where
  pub issue_usec : ℕ
  pub complete_usec : ℕ
  pub since_start : ℤ
  pub rt : ℤ
  pub file : Text
  pub blockaddr : ℤ
  pub blocksz : ℤ

-- `logcount`, `log_start_usec` and the lines of the log file
pub record Log : Type 0 where
  pub logcount : ℕ
  pub log_start_usec : ℕ
  pub lines : List LogLine

abbrev pub log_line : (start issue complete : ℕ) → Text → ℤ → ℤ → LogLine
log_line start issue complete file blockaddr blocksz = record {
  issue_usec = issue;
  complete_usec = complete;
  since_start = pos issue -ℤ pos start;
  rt = pos complete -ℤ pos issue;
  file = file;
  blockaddr = blockaddr;
  blocksz = blocksz;
}

unfoldable pub log_io_activity :
    (logfile : Bool) (issue complete : ℕ) → Text → (blockaddr blocksz : ℤ) → Log → Log
log_io_activity logfile issue complete file blockaddr blocksz log =
    let start = if log.logcount == 0 then issue else log.log_start_usec in
    if not logfile then log else record {
      logcount = suc log.logcount;
      log_start_usec = start;
      lines = log.lines ++ log_line start issue complete file blockaddr blocksz ∷ [];
    }

length-snoc {ℓ} : {A : Type ℓ} (xs : List A) (x : A) → length (xs ++ x ∷ []) ≡ length xs + 1
length-snoc xs x = omega (arith, length-append xs (x ∷ []))

-- One line is written if there is a log file, and none if there is not.
pub length-log_io_activity :
    (logfile : Bool) (issue complete : ℕ) (file : Text) (addr sz : ℤ) (log : Log)
    → length (log_io_activity logfile issue complete file addr sz log).lines
      ≡ length log.lines + (if logfile then 1 else 0)
unfolding log_io_activity
length-log_io_activity false issue complete file addr sz log = omega arith
length-log_io_activity true issue complete file addr sz log = length-snoc log.lines _

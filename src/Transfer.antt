-- ===== src/Transfer.antt =====
-- The transfers of src/micbench-utils.h: `mb_readall`, `mb_writeall`, `mb_preadall` and
-- `mb_pwriteall`. What each system call returns is an argument, in the order of the calls.
pub mod Reads
pub mod Writes
mod Tests
use micbench.Base.{
  ℕ, ◌+◌, ◌-◌, ◌^◌, Bool, true, false, not, ◌&&◌, List, [], ◌∷◌, ◌++◌, ltb, if◌then◌else◌, length,
  take, drop, Outcome, ok, exit_failure,
}
use micbench.Base.Text.{Text}

-- What read(2) returns: -1, or the bytes that it stored.
pub data Read : Type 0 where
  failed : Read
  got : Text → Read

-- What write(2) returns: -1, or the number of bytes that it took.
pub data Write : Type 0 where
  failed : Write
  took : ℕ → Write

-- A loop over system calls: it has returned, it has called exit(3), or it goes on after the calls
-- that were given, with `left` bytes to go.
pub data Progress : Type 0 where
  returned : Text → Progress
  exited : Progress
  running : (left : ℕ) → Text → Progress

-- The returned ssize_t as the comparison with a size_t reads it: -1 is the largest size_t.
abbrev pub read_size : Read → ℕ
read_size failed = 2 ^ 64 - 1
read_size (got bs) = length bs

abbrev pub stored : Read → Text
stored failed = []
stored (got bs) = bs

abbrev pub read_failed : Read → Bool
read_failed failed = true
read_failed (got bs) = false

-- `mb_readall` with `sz` bytes to go and `buf` stored so far. A call that has failed and whose error
-- is passed over counts as a large one and ends the loop.
unfoldable pub readall : (continue_on_error : Bool) (sz : ℕ) (buf : Text) → List Read → Progress
readall continue_on_error sz buf [] = running sz buf
readall continue_on_error sz buf (r ∷ rs) =
    let again = readall continue_on_error (sz - read_size r) (buf ++ stored r) rs in
    let rest = if ltb (read_size r) sz then again else returned (buf ++ stored r) in
    if read_failed r then (if not continue_on_error then exited else rest) else rest

abbrev pub write_size : Write → ℕ
write_size Write.failed = 2 ^ 64 - 1
write_size (took n) = n

abbrev pub write_failed : Write → Bool
write_failed Write.failed = true
write_failed (took n) = false

-- what a call takes of the bytes it is given
abbrev pub taken : Write → Text → Text
taken Write.failed bs = []
taken (took n) bs = take n bs

-- `mb_writeall` with the bytes `buf` to go and the bytes `out` taken so far.
pub writeall : (continue_on_error : Bool) (buf out : Text) → List Write → Progress
writeall continue_on_error buf out [] = running (length buf) out
writeall continue_on_error buf out (r ∷ rs) =
    let again = writeall continue_on_error (drop (write_size r) buf) (out ++ taken r buf) rs in
    let rest = if ltb (write_size r) (length buf) then again else returned (out ++ taken r buf) in
    if write_failed r then (if not continue_on_error then exited else rest) else rest

-- `mb_preadall` makes one call: a short transfer is reported and counts as a full one.
unfoldable pub preadall : (continue_on_error : Bool) (size : ℕ) → Read → Outcome ℕ
preadall continue_on_error size r =
    if read_failed r && not continue_on_error then exit_failure else ok size

-- `mb_pwriteall`
unfoldable pub pwriteall : (continue_on_error : Bool) (size : ℕ) → Write → Outcome ℕ
pwriteall continue_on_error size r =
    if write_failed r && not continue_on_error then exit_failure else ok size

-- ===== src/Io/Async/Whole.antt =====
-- `do_async_io` from its start to its end, over libaio.
use micbench.Base.{ℕ, suc, ◌≤◌, ◌<◌, ◌≡◌, true, some, List, length, ok, ◌||◌}
use micbench.Base.Int.{ℤ, pos, pos_part}
use micbench.Base.Text.{Text}
use micbench.ResPool.{Ptr}
use micbench.Rand.{Machine}
use micbench.Io.Options.{IoOption}
use micbench.Io.Offsets.Entries.{Entries}
use micbench.Io.Log.{Log}
use micbench.Io.Aiom.{Aiom}
use micbench.Io.Wait.{Completion, handed_back}
use micbench.Io.Owned.{Owned}
use micbench.Io.Owned.Waits.{Drawn}
use micbench.Io.Sync.{Meter}
use micbench.Io.Async.{AsyncSurroundings, AsyncState, turns, close_turns, destroy}
use micbench.Io.Count.{count}
use micbench.Io.Async.Fill.{Ready}

-- The kernel accepts every request that is submitted, hands back one or more of those that it holds in
-- each turn, and all of them at the end.
pub record Serves (env : AsyncSurroundings) : Type 0 where
  pub accepts : (i n : ℕ) → (env.turns i).submitted n ≡ pos n
  pub answers :
      (i : ℕ) (held : List Ptr)
      → 0 < length held
      → (cs : List Completion) × ((env.turns i).reply held ≡ handed_back cs)
        × Drawn cs held
        × (1 ≤ length cs)
  pub finishes :
      (held : List Ptr)
      → (cs : List Completion) × (env.last_reply held ≡ handed_back cs)
        × Drawn cs held
        × (length cs ≡ length held)

module _ (m : Machine) (opt : IoOption m.Double) (fds : List ℕ) (all : List Ptr) where
  -- The options of an asynchronous run: every file has a size, there is a thread or more, and it reads or
  -- writes blocks of one byte or more.
  pub record Runs (paths : List Text) (sizes : List ℤ) : Type 0 where
    pub ready : Ready m opt fds all paths
    pub sizes_of : opt.file_size_list ≡ some sizes
    pub same_length : length sizes ≡ opt.nr_files
    pub some_file : 0 < opt.nr_files
    pub block : 0 < pos_part opt.blk_sz
    pub threads : ℕ
    pub threads_lem : opt.multi ≡ pos (suc threads)
    pub transfers : (opt.read || opt.write) ≡ true

  -- What a run of `do_async_io` on the manager `a₀` comes to: it leaves `meter`, which counts every
  -- request that the kernel has accepted, and frees every callback as often as it was allocated.
  pub record Ends (env : AsyncSurroundings) (fuel : ℕ) (s₀ : AsyncState m opt fds)
      (meter : Meter m opt) : Type 0 where
    pub last : AsyncState m opt fds
    pub closed : Aiom
    pub freed : List Ptr
    pub cells : List Ptr
    pub looped : turns m opt fds env (suc s₀.aiom.nr_events) fuel 0 s₀ ≡ some (ok last)
    pub waited : close_turns m opt fds env last ≡ ok (meter, closed)
    pub destroyed : destroy (suc closed.nr_events) closed ≡ some (ok (freed, cells))
    pub every_request : meter.count ≡ closed.handed_over
    pub every_callback : (p : Ptr) → count p freed ≡ count p all

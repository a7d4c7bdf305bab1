-- ===== src/Io/Owned.antt =====
-- The invariant of an AIO manager over libaio: every callback is in exactly one place, and the
-- counters are right.
pub mod Make
pub mod Submit
pub mod Waits
use micbench.Base.{
  ℕ, zero, suc, ◌+◌, ◌-◌, ◌≤◌, ◌<◌, ◌≡◌, ◌≢◌, refl, Option, none, some, List, [], ◌∷◌, ◌++◌, arith,
  length, take, ok, Outcome,
}
use micbench.Base.Int.{ℤ}
use micbench.Base.Text.{Text}
use micbench.ResPool.{Ptr, null}
use micbench.ResPool.Ring.{Holds}
use micbench.Io.Options.{IoOption, aio_libaio}
use micbench.Io.Count.{count}
use micbench.Io.Aiom.{Cb, Cbs, Aiom}
use micbench.Io.Wait.{path_of}

-- The callbacks `all` are there, and the file of each has a path.
pub record Known {D : Type 0} (opt : IoOption D) (all : List Ptr) (h : Cbs) : Type 0 where
  pub there : (p : Ptr) → 0 < count p all → (c : Cb) × (h p ≡ some c)
  pub has_path :
      (p : Ptr) (c : Cb)
      → h p ≡ some c
      → (path : Text) × (path_of opt.file_path_list c.file_idx ≡ ok path)

-- Of the callbacks `all`, those in `pool` are free, those in `pending` are queued and those in
-- `context` are the kernel's, and none is anywhere else or in two places.
pub record Owned {D : Type 0} (opt : IoOption D) (all : List Ptr) (a : Aiom) (pool : List Ptr)
    : Type 0 where
  pub events : length all ≡ a.nr_events
  pub engine : opt.aio_engine ≡ aio_libaio
  pub holds : Holds a.cbpool a.nr_events pool
  pub room : length a.pending ≡ a.nr_events
  pub counted : a.handed_over ≡ a.iocount + a.nr_inflight
  pub inflight : a.nr_inflight ≡ length a.context
  pub sizes : length pool + a.nr_pending + a.nr_inflight ≡ a.nr_events
  pub balance :
      (p : Ptr)
      → count p pool + count p (take a.nr_pending a.pending) + count p a.context ≡ count p all
  pub known : Known opt all a.cbs

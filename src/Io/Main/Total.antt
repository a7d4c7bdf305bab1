-- ===== src/Io/Main/Total.antt =====
-- The whole of a run without asynchronous I/O.
use micbench.Base.{ℕ, zero, suc, ◌+◌, ◌≡◌, true, false, List, [], ◌∷◌, length, ok}
use micbench.Base.Int.{ℤ, pos_part}
use micbench.Base.Text.{Text}
use micbench.Rand.{Machine}
use micbench.Clock.{Expires}
use micbench.Io.Options.{IoOption}
use micbench.Io.Sync.Requests.{Asks, Works}
use micbench.Io.Sync.Whole.{Sizes}
use micbench.Io.Main.{World, ThreadEnd, opened}

-- the looks of `n` threads from the thread `id` on
abbrev pub total_looks : (ℕ → ℕ) → (n id : ℕ) → ℕ
total_looks looks zero id = 0
total_looks looks (suc n) id = looks id + total_looks looks n (id + 1)

module _ (m : Machine) (opt : IoOption m.Double) where
  -- Every system call of the thread succeeds, its buffer is one block, and its clock reaches the timeout at the look `k`.
  pub record Fine (w : World m) (k : ℕ) : Type 0 where
    pub opens : (i : ℕ) → (fd : ℕ) × (opened (w.opens i) ≡ ok fd)
    pub closes : (i : ℕ) → w.closes i ≡ true
    pub buffer : length w.buf ≡ pos_part opt.blk_sz
    pub works : (i : ℕ) → Works m opt (w.sync.answers i)
    pub ends : Expires opt.timeout w.sync.elapsed k

  module _ (paths : List Text) (sizes : List ℤ) (asks : Asks m opt paths)
      (stored : Sizes m opt paths sizes) (in_sync : opt.aio ≡ false) where
    abbrev counts_of : List (ThreadEnd m opt) → ℕ
    counts_of [] = 0
    counts_of (t ∷ ts) = t.meter.count + counts_of ts

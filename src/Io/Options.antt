-- ===== src/Io/Options.antt =====
-- The options of src/micbench-io.h (`micbench_io_option_t`). A file or device is its path; `logfile`
-- says whether the log file is open. `D` is the type of floating-point numbers.
use micbench.Base.{ℕ, Bool, Option, List}
use micbench.Base.Int.{ℤ}
use micbench.Base.Text.{Text}
use micbench.Affinity.{Affinity}

-- `mb_io_pattern_t`
pub data Pattern : Type 0 where
  pattern_seq pattern_rand pattern_seekdist pattern_seekincr : Pattern

-- `mb_aio_engine_t`, where io_uring is built in
pub data AioEngine : Type 0 where
  aio_libaio aio_iouring : AioEngine

pub record IoOption (D : Type 0) : Type 0 where
  pub noop : Bool
  pub multi : ℤ
  pub affinities : Option (List (Option Affinity))
  pub timeout : ℤ
  pub bogus_comp : ℤ
  pub iosleep : ℕ
  pub read : Bool
  pub write : Bool
  pub rwmix : D
  pub pattern : Pattern
  pub direct : Bool
  pub aio : Bool
  pub aio_engine : AioEngine
  pub aio_nr_events : ℤ
  pub aio_tracefile : Option Text
  pub blk_sz : ℤ
  pub seekdist_stride : ℤ
  pub ofst_start : ℤ
  pub ofst_end : ℤ
  pub misalign : ℤ
  pub continue_on_error : Bool
  pub logfile : Bool
  pub logfile_path : Option Text
  pub json : Bool
  pub verbose : Bool
  pub nr_files : ℕ
  pub file_path_list : Option (List Text)
  pub file_size_list : Option (List ℤ)

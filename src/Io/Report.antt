-- ===== src/Io/Report.antt =====
-- The reports of src/micbench-io.c: `print_option`, `print_result` and `print_result_json`. A text is
-- what printf(3) is to write; that of a double (`%lf`) is a parameter, and so are the products and
-- quotients of doubles.
pub mod Files
pub mod Store
pub mod Grow
pub mod Names
pub mod Meaning
pub mod Tests
use micbench.Base.{
  ℕ, Bool, true, false, Option, none, some, List, [], ◌∷◌, ◌++◌, if◌then◌else◌, Outcome, ok, fault,
  resume_loop,
}
use micbench.Base.Int.{ℤ, pos}
use micbench.Base.Text.{Text, codes, show_int, signed32}
use micbench.Io.Options.{
  IoOption, Pattern, pattern_seq, pattern_rand, pattern_seekdist, pattern_seekincr, AioEngine,
  aio_libaio, aio_iouring,
}
use micbench.Io.Report.Files.{Allocator, files_str}

abbrev pub concat : List Text → Text
concat [] = []
concat (t ∷ ts) = t ++ concat ts

-- `%lf`, `x / MEBI` and `x * 1000.0`
pub record Doubles (D : Type 0) : Type 0 where
  pub show : D → Text
  pub over_mebi : D → D
  pub thousandfold : D → D

-- `result_t`; its `count` is never set and never read.
pub record ResultT (D : Type 0) : Type 0 where
  pub io_count : ℤ
  pub io_bytes : ℤ
  pub start_time : D
  pub exec_time : D
  pub iowait_time : D
  pub response_time : D
  pub iops : D
  pub bandwidth : D

-- `pattern_str`
unfoldable pub pattern_str : Pattern → Text
pattern_str pattern_seq = codes "sequential"
pattern_str pattern_rand = codes "random"
pattern_str pattern_seekdist = codes "seekdist"
pattern_str pattern_seekincr = codes "seekincr"

unfoldable pub mode_str : (read write : Bool) → Text
mode_str read write = if read then codes "read" else if write then codes "write" else codes "mix"

unfoldable pub bool_str : Bool → Text
bool_str true = codes "true"
bool_str false = codes "false"

unfoldable pub engine_str : AioEngine → Text
engine_str aio_libaio = codes "libaio"
engine_str aio_iouring = codes "io_uring"

module _ {D : Type 0} (opt : IoOption D) where
  -- `print_option`
  unfoldable pub print_option : Text
  print_option = concat (
      codes "{\n  \"params\": {\n    \"threads\": "
      ∷ show_int opt.multi
      ∷ codes ",\n    \"mode\": \""
      ∷ mode_str opt.read opt.write
      ∷ codes "\",\n    \"pattern\": \""
      ∷ pattern_str opt.pattern
      ∷ codes "\",\n    \"blocksize_byte\": "
      ∷ show_int opt.blk_sz
      ∷ codes ",\n    \"offset_start_blk\": "
      ∷ show_int opt.ofst_start
      ∷ codes ",\n    \"offset_end_blk\": "
      ∷ show_int opt.ofst_end
      ∷ codes ",\n    \"direct\": "
      ∷ bool_str opt.direct
      ∷ codes ",\n    \"aio\": "
      ∷ bool_str opt.aio
      ∷ codes ",\n    \"timeout_sec\": "
      ∷ show_int opt.timeout
      ∷ codes ",\n    \"bogus_comp\": "
      ∷ show_int opt.bogus_comp
      ∷ codes ",\n    \"iosleep\": "
      ∷ show_int (signed32 opt.iosleep)
      ∷ codes "\n  }\n}\n"
      ∷ [])

  -- `print_result`
  unfoldable pub print_result : Doubles D → ResultT D → Text
  print_result f r = concat (
      codes "== result ==\nexec_time     "
      ∷ f.show r.exec_time
      ∷ codes " [sec]\niops          "
      ∷ f.show r.iops
      ∷ codes " [blocks/sec]\nresponse_time "
      ∷ f.show r.response_time
      ∷ codes " [sec]\ntransfer_rate "
      ∷ f.show (f.over_mebi r.bandwidth)
      ∷ codes " [MiB/sec]\naccum_io_time "
      ∷ f.show r.iowait_time
      ∷ codes " [sec]\n"
      ∷ [])

  -- The first printf(3) of `print_result_json`: its format and its arguments in turn.
  unfoldable pub params_pieces : (files_str : Text) → List Text
  params_pieces files_str =
      codes "{\n  \"params\": {\n    \"threads\": "
      ∷ show_int opt.multi
      ∷ codes ",\n    \"mode\": \""
      ∷ mode_str opt.read opt.write
      ∷ codes "\",\n    \"pattern\": \""
      ∷ pattern_str opt.pattern
      ∷ codes "\",\n    \"blocksize_byte\": "
      ∷ show_int opt.blk_sz
      ∷ codes ",\n    \"offset_start_blk\": "
      ∷ show_int opt.ofst_start
      ∷ codes ",\n    \"offset_end_blk\": "
      ∷ show_int opt.ofst_end
      ∷ codes ",\n    \"direct\": "
      ∷ bool_str opt.direct
      ∷ codes ",\n    \"aio\": "
      ∷ bool_str opt.aio
      ∷ codes ",\n    \"aio_nr_events\": "
      ∷ show_int opt.aio_nr_events
      ∷ codes ",\n    \"aio_engine\": \""
      ∷ engine_str opt.aio_engine
      ∷ codes "\",\n    \"timeout_sec\": "
      ∷ show_int opt.timeout
      ∷ codes ",\n    \"bogus_comp\": "
      ∷ show_int opt.bogus_comp
      ∷ codes ",\n    \"iosleep\": "
      ∷ show_int (signed32 opt.iosleep)
      ∷ codes ",\n    \"files\": "
      ∷ files_str
      ∷ codes "\n  }"
      ∷ []

  -- The last printf(3) of `print_result_json`.
  unfoldable pub counters_pieces : Doubles D → ResultT D → List Text
  counters_pieces f r =
      codes ",\n  \"counters\": {\n    \"io_count\": "
      ∷ show_int r.io_count
      ∷ codes ",\n    \"io_bytes\": "
      ∷ show_int r.io_bytes
      ∷ codes "\n  },\n  \"metrics\": {\n    \"start_time_unix\": "
      ∷ f.show r.start_time
      ∷ codes ",\n    \"exec_time_sec\": "
      ∷ f.show r.exec_time
      ∷ codes ",\n    \"iops\": "
      ∷ f.show r.iops
      ∷ codes ",\n    \"transfer_rate_mbps\": "
      ∷ f.show (f.over_mebi r.bandwidth)
      ∷ codes ",\n    \"response_time_msec\": "
      ∷ f.show (f.thousandfold r.response_time)
      ∷ codes ",\n    \"accum_io_time_sec\": "
      ∷ f.show r.iowait_time
      ∷ codes "\n  }\n}\n"
      ∷ []

  -- `print_result_json`; no result is `only_params`. (Its `result` is NULL then, and else given.) The
  -- fuel is that of the loop over the names.
  unfoldable pub print_result_json :
      Allocator → Doubles D → (fuel : ℕ) → Option (ResultT D) → Option (Outcome Text)
  print_result_json heap f fuel result = resume_loop (files_str opt heap fuel) λ names.
      elim result [
        | none ↦ some (ok (concat (params_pieces names) ++ codes "\n}\n"))
        | some r ↦ some (ok (concat (params_pieces names) ++ concat (counters_pieces f r)))
      ]

-- ===== src/Io/Report/Meaning.antt =====
-- What the report of `print_result_json` means, read as JSON.
use micbench.Base.{Bool, true, ◌&&◌, Option, none, some, List, [], ◌∷◌, ◌++◌}
use micbench.Base.Text.{Text, codes, show_int, signed32}
use micbench.Base.Json.{
  Json, Items, Members, number, string, boolean, array, object, no_item, item, no_member, member,
  is_plain,
}
use micbench.Base.Json.RoundTrip.{AllPlain, Numeral}
use micbench.Io.Options.{IoOption}
use micbench.Io.Report.{Doubles, ResultT, pattern_str, mode_str, engine_str}

abbrev pub strings : List Text → Items
strings [] = no_item
strings (t ∷ ts) = item (string t) (strings ts)

abbrev pub members : List (Text × Json) → Members
members [] = no_member
members (kv ∷ ms) = member kv.0 kv.1 (members ms)

module _ {D : Type 0} (opt : IoOption D) where
  unfoldable pub params : (paths : List Text) → Json
  params paths = object (
      members (
        (codes "threads", number (show_int opt.multi))
        ∷ (codes "mode", string (mode_str opt.read opt.write))
        ∷ (codes "pattern", string (pattern_str opt.pattern))
        ∷ (codes "blocksize_byte", number (show_int opt.blk_sz))
        ∷ (codes "offset_start_blk", number (show_int opt.ofst_start))
        ∷ (codes "offset_end_blk", number (show_int opt.ofst_end))
        ∷ (codes "direct", boolean opt.direct)
        ∷ (codes "aio", boolean opt.aio)
        ∷ (codes "aio_nr_events", number (show_int opt.aio_nr_events))
        ∷ (codes "aio_engine", string (engine_str opt.aio_engine))
        ∷ (codes "timeout_sec", number (show_int opt.timeout))
        ∷ (codes "bogus_comp", number (show_int opt.bogus_comp))
        ∷ (codes "iosleep", number (show_int (signed32 opt.iosleep)))
        ∷ (codes "files", array (strings paths))
        ∷ []))

  unfoldable pub counters : ResultT D → Json
  counters r = object (
      members (
        (codes "io_count", number (show_int r.io_count))
        ∷ (codes "io_bytes", number (show_int r.io_bytes))
        ∷ []))

  unfoldable pub metrics : Doubles D → ResultT D → Json
  metrics f r = object (
      members (
        (codes "start_time_unix", number (f.show r.start_time))
        ∷ (codes "exec_time_sec", number (f.show r.exec_time))
        ∷ (codes "iops", number (f.show r.iops))
        ∷ (codes "transfer_rate_mbps", number (f.show (f.over_mebi r.bandwidth)))
        ∷ (codes "response_time_msec", number (f.show (f.thousandfold r.response_time)))
        ∷ (codes "accum_io_time_sec", number (f.show r.iowait_time))
        ∷ []))

  -- The report: the options, and what a run has come to.
  unfoldable pub report : (paths : List Text) → Doubles D → Option (ResultT D) → Json
  report paths f none = object (members ((codes "params", params paths) ∷ []))
  report paths f (some r) = object (
      members (
        (codes "params", params paths)
        ∷ (codes "counters", counters r)
        ∷ (codes "metrics", metrics f r)
        ∷ []))

-- Texts one behind another, in front of `r`.
abbrev onto : List Text → Text → Text
onto [] r = r
onto (t ∷ ts) r = t ++ onto ts r

-- A text of plain characters, by its test.
all_plain : Text → Bool
all_plain [] = true
all_plain (c ∷ s) = is_plain c && all_plain s

-- No name has a quote, a backslash or a control character in it.
unfoldable pub PlainNames : List Text → Type 0
PlainNames [] = Unit {0}
PlainNames (p ∷ ps) = AllPlain p × PlainNames ps

-- The doubles of the report are printed as numerals: none of them is infinite or not a number.
pub record Numerals {D : Type 0} (f : Doubles D) (r : ResultT D) : Type 0 where
  pub start_time : Numeral (f.show r.start_time)
  pub exec_time : Numeral (f.show r.exec_time)
  pub iops : Numeral (f.show r.iops)
  pub transfer_rate : Numeral (f.show (f.over_mebi r.bandwidth))
  pub response_time : Numeral (f.show (f.thousandfold r.response_time))
  pub iowait_time : Numeral (f.show r.iowait_time)

abbrev pub NumeralsOf : {D : Type 0} → Doubles D → Option (ResultT D) → Type 0
NumeralsOf f none = Unit {0}
NumeralsOf f (some r) = Numerals f r

-- ===== src/Io/Sync/Whole.antt =====
-- `do_sync_io` from its start to what it leaves in `meter`.
use native.Mathlib.Nat.{zero-add}
use micbench.Base.{
  ℕ, suc, ◌+◌, ◌*◌, ◌<◌, ◌≡◌, ◌≢◌, refl, some, List, length, length-map, map, ok, arith, ◌∙◌, sym,
}
use micbench.Base.Int.{ℤ, pos, pos_part}
use micbench.Base.Text.{Text}
use micbench.Rand.{Machine}
use micbench.Io.Options.{
  IoOption, Pattern, pattern_seq, pattern_rand, pattern_seekdist, pattern_seekincr,
}
use micbench.Io.Offsets.{Cursor, ofst_sync}
use micbench.Io.Offsets.Lengths.{positive, ofst_sync-ends, length-init_offsets}
use micbench.Io.Log.{Log}
use micbench.Clock.{Expires, Expires-unique}
use micbench.Io.Sync.{Surroundings, SyncState, Meter, start_state, rounds, run_pattern, do_sync_io}
use micbench.Io.Offsets.Entries.{Entries}
use micbench.Io.Sync.Count.{rounds-counts}
use micbench.Io.Sync.Requests.{Asks, Works, Fit, rounds-Fit}

module _ (m : Machine) (opt : IoOption m.Double) where
  -- The sizes that `parse_args` has stored, and a thread or more.
  pub record Sizes (paths : List Text) (sizes : List ℤ) : Type 0 where
    pub sizes_of : opt.file_size_list ≡ some sizes
    pub same_length : length sizes ≡ length paths
    pub some_path : 0 < length paths
    pub threads : ℕ
    pub threads_lem : opt.multi ≡ pos (suc threads)

  start_state-Fit :
      (paths : List Text) (sizes : List ℤ)
      → Asks m opt paths
      → Sizes paths sizes
      → (id : ℕ) (rand global : m.Seed) (buf : Text) (log : Log) → length buf ≡ pos_part opt.blk_sz
      → (s : SyncState m opt) × (start_state m opt id rand global buf log sizes ≡ ok s)
        × Fit m opt s
        × (s.io_count ≡ 0)
  unfolding start_state
  start_state-Fit paths sizes a v id rand global buf log full =
      let (block, block_lem) = positive opt.blk_sz a.block in
      let (os, los, his, run, len_os, len_los, len_his) =
        length-init_offsets opt block block_lem (ofst_sync opt id)
          (ofst_sync-ends opt v.threads v.threads_lem id) sizes in
      let n : length sizes ≡ opt.nr_files = v.same_length ∙ sym a.count in
      let cursor : Cursor m = record {
        file_idx = 0;
        ofst_list = os;
        ofst_min_list = los;
        ofst_max_list = his;
        seekdist_side_list = map (λ _. 0) sizes;
        rand = rand;
        global = global;
      } in
      let entries : Entries m opt.nr_files cursor = record {
        some_file = omega (arith, v.some_path, a.count);
        ofsts = len_os ∙ n;
        los = len_los ∙ n;
        his = len_his ∙ n;
        sides = length-map sizes (λ _. 0) ∙ n;
      } in
      (
        record { cursor = cursor; buf = buf; iowait_time = pos 0; io_count = 0; log = log },
        rw run refl,
        record { entries = entries; full = full },
        refl,
      )

  loops :
      (p : Pattern)
      → opt.pattern ≡ p
      → p ≢ pattern_seekincr
      → (env : Surroundings) (fuel : ℕ) (s s' : SyncState m opt)
      → rounds m opt env fuel 0 s ≡ some (ok s')
      → run_pattern m opt env fuel s
        ≡ some (ok (record { iowait = s'.iowait_time; count = s'.io_count }))
  unfolding run_pattern
  loops pattern_seq e moves env fuel s s' run = rw (e, run) refl
  loops pattern_rand e moves env fuel s s' run = rw (e, run) refl
  loops pattern_seekdist e moves env fuel s s' run = rw (e, run) refl
  loops pattern_seekincr e moves env fuel s s' run = absurd (moves refl)

  run_pattern-ends :
      (paths : List Text)
      → Asks m opt paths
      → (env : Surroundings) → ((i : ℕ) → Works m opt (env.answers i))
      → (k fuel : ℕ) (s : SyncState m opt) → Fit m opt s
      → k < fuel
      → Expires opt.timeout env.elapsed k
      → (meter : Meter m opt) × (run_pattern m opt env fuel s ≡ some (ok meter))
        × (meter.count ≡ s.io_count + 100 * k)
  run_pattern-ends paths a env works k fuel s v enough ends =
      let (s', run, v') =
        rounds-Fit m opt paths a env works k fuel 0 s v enough (rw (zero-add k) ends.at) in
      let (l, count, lines, before, last) = rounds-counts m opt env fuel 0 s s' run in
      let same : l ≡ k =
        Expires-unique opt.timeout env.elapsed l k
          ((record {
            before = λ j lt. rw (zero-add j) at (before j lt);
            at = rw (zero-add l) at last;
          }))
          ends in
      (
        record { iowait = s'.iowait_time; count = s'.io_count },
        loops opt.pattern refl a.pattern env fuel s s' run,
        omega (arith, count, same),
      )

  -- With any pattern but seekincr, reading or writing blocks of one byte or more, in one thread or
  -- more, where every file has a path and a size, the buffer is one block, every seek succeeds and
  -- the reads and writes of each request move the bytes asked for, in one call or in several,
  -- `do_sync_io` ends as soon as its clock reaches the timeout, and counts 100 requests for each
  -- look before that.
  pub do_sync_io-ends :
      (paths : List Text) (sizes : List ℤ)
      → Asks m opt paths
      → Sizes paths sizes
      → (env : Surroundings) → ((i : ℕ) → Works m opt (env.answers i))
      → (k fuel id : ℕ) (rand global : m.Seed) (buf : Text) (log : Log)
      → length buf ≡ pos_part opt.blk_sz
      → k < fuel
      → Expires opt.timeout env.elapsed k
      → (meter : Meter m opt) × (do_sync_io m opt env fuel id rand global buf log ≡ some (ok meter))
        × (meter.count ≡ 100 * k)
  unfolding do_sync_io
  do_sync_io-ends paths sizes a v env works k fuel id rand global buf log full enough ends =
      let (s, begun, fit, fresh) = start_state-Fit paths sizes a v id rand global buf log full in
      let (meter, run, count) = run_pattern-ends paths a env works k fuel s fit enough ends in
      (meter, rw (v.sizes_of, begun) run, omega (arith, count, fresh))

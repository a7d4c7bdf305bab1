-- ===== src/Io/Sync/Requests.antt =====
-- `do_sync_io` where every system call succeeds, whatever the pattern, reading or writing.
use micbench.Base.{
  ℕ, zero, suc, ◌+◌, ◌≤◌, ◌<◌, ◌≡◌, ◌≢◌, refl, true, false, some, List, [], length, arith, ok, ◌∙◌,
  drop, length-append, length-drop, ◌⊎◌, inl, inr, Bool-cases,
}
use micbench.Base.Int.{ℤ, pos, ◌*ℤ◌, ◌+ℤ◌, ◌-ℤ◌, ltb_ℤ, pos_part}
use micbench.Base.Text.{Text}
use micbench.Rand.{Machine, rand_buf, read_or_write, IoMode, do_read, do_write}
use micbench.Rand.Buffer.{length-rand_buf}
use micbench.Transfer.{stored, read_failed, write_failed, preadall, pwriteall}
use micbench.Transfer.Reads.{Chunks, readall-returns}
use micbench.Transfer.Writes.{Accepts, writeall-returns}
use micbench.Io.Options.{
  IoOption, Pattern, pattern_seq, pattern_rand, pattern_seekdist, pattern_seekincr,
}
use micbench.Io.Offsets.{Cursor}
use micbench.Io.Offsets.Range.{get_elem?-some, at_index-some}
use micbench.Io.Log.{log_io_activity}
use micbench.Clock.{seconds}
use micbench.Io.Sync.{
  Answers, Surroundings, SyncState, choose, transfer, transfer_on, transfer_at, overwrite, path_at,
  request, requests, rounds,
}
use micbench.Io.Sync.Count.{rounds-end}
use micbench.Io.Offsets.Entries.{
  Entries, choose_seq-Entries, choose_rand-Entries, choose_seekdist-Entries,
}

IoMode-cases : (mode : IoMode) → (mode ≡ do_read) ⊎ (mode ≡ do_write)
IoMode-cases do_read = inl refl
IoMode-cases do_write = inr refl

module _ (m : Machine) (opt : IoOption m.Double) where
  keep-Entries :
      {c : Cursor m} {rand global : m.Seed}
      → Entries m opt.nr_files c
      → Entries m opt.nr_files (record c { rand = rand; global = global })
  keep-Entries v = record {
    some_file = v.some_file;
    ofsts = v.ofsts;
    los = v.los;
    his = v.his;
    sides = v.sides;
  }

  choose-Entries :
      (p : Pattern) (c : Cursor m)
      → p ≢ pattern_seekincr
      → Entries m opt.nr_files c
      → (idx : ℕ) × (ofst : ℤ) × (c' : Cursor m) × (choose m opt p c ≡ ok (idx, ofst, c'))
        × (idx < opt.nr_files)
        × Entries m opt.nr_files c'
  unfolding choose
  choose-Entries pattern_seq c moves v = choose_seq-Entries m opt.nr_files c v
  choose-Entries pattern_rand c moves v = choose_rand-Entries m opt.nr_files c v
  choose-Entries pattern_seekdist c moves v =
      choose_seekdist-Entries m opt.seekdist_stride opt.nr_files c v
  choose-Entries pattern_seekincr c moves v = absurd (moves refl)

  -- The options of a run whose requests can be made.
  pub record Asks (paths : List Text) : Type 0 where
    pub pattern : opt.pattern ≢ pattern_seekincr
    pub mode : (opt.pattern ≡ pattern_rand) ⊎ ((opt.read ≡ true) ⊎ (opt.write ≡ true))
    pub has_paths : opt.file_path_list ≡ some paths
    pub count : opt.nr_files ≡ length paths
    pub block : 0 < pos_part opt.blk_sz

  abbrev size : ℕ
  size = pos_part opt.blk_sz

  -- Every system call of a request moves the bytes asked for, in one call or in several.
  pub record Works (w : Answers) : Type 0 where
    pub seeks : w.lseek_ok ≡ true
    pub chunks : Chunks size w.reads
    pub enough_reads : size ≤ length w.reads
    pub accepts : Accepts size w.writes
    pub enough_writes : size ≤ length w.writes
    pub preads : read_failed w.pread ≡ false
    pub pread_size : length (stored w.pread) ≤ size
    pub pwrites : write_failed w.pwrite ≡ false

  length-overwrite : (t buf : Text) → length t ≤ length buf → length (overwrite t buf) ≡ length buf
  length-overwrite t buf le =
      omega (arith, length-append t (drop (length t) buf), length-drop (length t) buf)

  -- What a transfer leaves: lists as long as before, and a buffer of one block.
  record Moved (c' : Cursor m) (buf' : Text) : Type 0 where
    entries : Entries m opt.nr_files c'
    full : length buf' ≡ size

  on-Moved :
      (w : Answers) (c : Cursor m) (buf : Text)
      → Works w
      → 0 < size
      → (opt.read ≡ true) ⊎ (opt.write ≡ true)
      → Entries m opt.nr_files c
      → length buf ≡ size
      → (c' : Cursor m) × (buf' : Text) × (transfer_on m opt w c buf ≡ ok (c', buf'))
        × Moved c' buf'
  unfolding transfer_on
  on-Moved w c buf works block mode v full = elim (Bool-cases opt.read) [
    | inl reading ↦
        let (t, run, len) =
          readall-returns opt.continue_on_error size [] w.reads block works.chunks
            works.enough_reads in
        (
          c,
          overwrite t buf,
          rw (works.seeks, reading, run) refl,
          record { entries = v; full = length-overwrite t buf (omega arith) ∙ full },
        )
    | inr not_reading ↦
        let writing : opt.write ≡ true = elim mode [ inl reading ↦ cc | inr writing ↦ writing ] in
        let (filled, rand) = rand_buf m c.rand buf size in
        let len = length-rand_buf m c.rand buf size full in
        let takes : Accepts (length filled) w.writes = rw len works.accepts in
        let run =
          writeall-returns opt.continue_on_error filled [] w.writes (omega arith) takes
            (omega (arith, works.enough_writes)) in
        (
          record c { rand = rand },
          filled,
          rw (works.seeks, not_reading, writing, run) refl,
          record { entries = keep-Entries v; full = len },
        )
  ]

  at-Moved :
      (w : Answers) (c : Cursor m) (buf : Text)
      → Works w
      → Entries m opt.nr_files c
      → length buf ≡ size
      → (c' : Cursor m) × (buf' : Text) × (transfer_at m opt w c buf ≡ ok (c', buf'))
        × Moved c' buf'
  unfolding transfer_at preadall pwriteall
  at-Moved w c buf works v full =
      let drawn = read_or_write m opt.read opt.write opt.rwmix c.global in
      let (filled, rand) = rand_buf m c.rand buf size in
      elim (IoMode-cases drawn.0) [
        | inl reading ↦ (
          record c { global = drawn.1 },
          overwrite (stored w.pread) buf,
          rw (transfer_at, reading, works.preads) refl,
          record {
            entries = keep-Entries v;
            full = length-overwrite (stored w.pread) buf (omega (arith, works.pread_size)) ∙ full;
          },
        )
        | inr writing ↦ (
          record c { global = drawn.1; rand = rand },
          filled,
          rw (transfer_at, writing, works.pwrites) refl,
          record { entries = keep-Entries v; full = length-rand_buf m c.rand buf size full },
        )
      ]

  transfer-Moved :
      (paths : List Text)
      → Asks paths
      → (p : Pattern) → opt.pattern ≡ p
      → (w : Answers) (c : Cursor m) (buf : Text) → Works w
      → Entries m opt.nr_files c
      → length buf ≡ size
      → (c' : Cursor m) × (buf' : Text) × (transfer m opt p w c buf ≡ ok (c', buf')) × Moved c' buf'
  unfolding transfer
  transfer-Moved paths a pattern_rand e w c buf works v full = at-Moved w c buf works v full
  transfer-Moved paths a pattern_seq e w c buf works v full =
      on-Moved w c buf works a.block (elim a.mode [ inl r ↦ cc | inr h ↦ h ]) v full
  transfer-Moved paths a pattern_seekdist e w c buf works v full =
      on-Moved w c buf works a.block (elim a.mode [ inl r ↦ cc | inr h ↦ h ]) v full
  transfer-Moved paths a pattern_seekincr e w c buf works v full = absurd (a.pattern e)

  -- The state between two requests.
  pub record Fit (s : SyncState m opt) : Type 0 where
    pub entries : Entries m opt.nr_files s.cursor
    pub full : length s.buf ≡ size

  pub path_at-some :
      (paths : List Text)
      → Asks paths
      → (idx : ℕ) → idx < length paths
      → (path : Text) × (path_at m opt idx ≡ ok path)
  unfolding path_at
  path_at-some paths a idx inside =
      let (path, at_path) = get_elem?-some paths idx inside in
      (path, rw a.has_paths (at_index-some paths idx at_path))

  request-Fit :
      (paths : List Text)
      → Asks paths
      → (w : Answers) → Works w
      → (s : SyncState m opt) → Fit s
      → (s' : SyncState m opt) × (request m opt w s ≡ ok s') × Fit s'
  unfolding request
  request-Fit paths a w works s v =
      let (idx, ofst, c, choice, inside, v₁) =
        choose-Entries opt.pattern s.cursor a.pattern v.entries in
      let (c', buf, transferred, moved) =
        transfer-Moved paths a opt.pattern refl w c s.buf works v₁ v.full in
      let (path, file) = path_at-some paths a idx (omega (arith, inside, a.count)) in
      let addr = ofst *ℤ opt.blk_sz +ℤ opt.misalign in
      let s' : SyncState m opt = record {
        cursor = c';
        buf = buf;
        iowait_time = s.iowait_time +ℤ (pos w.t1 -ℤ pos w.t0);
        io_count = suc s.io_count;
        log = log_io_activity opt.logfile w.t0 w.t1 path addr opt.blk_sz s.log;
      } in
      (
        s',
        rw (choice, transferred, file) refl,
        record { entries = moved.entries; full = moved.full },
      )

  requests-Fit :
      (paths : List Text)
      → Asks paths
      → (env : Surroundings) → ((i : ℕ) → Works (env.answers i))
      → (n : ℕ) (s : SyncState m opt) → Fit s
      → (s' : SyncState m opt) × (requests m opt env n s ≡ ok s') × Fit s'
  unfolding requests
  requests-Fit paths a env works zero s v = (s, refl, v)
  requests-Fit paths a env works (suc n) s v =
      let (s₁, one, v₁) = request-Fit paths a (env.answers s.io_count) (works s.io_count) s v in
      let (s', rest, v') = requests-Fit paths a env works n s₁ v₁ in (s', rw (one, rest) refl, v')

  -- If every request can be made, the loops end as soon as a look at the clock finds the timeout
  -- reached, within as much fuel as there were looks.
  pub rounds-Fit :
      (paths : List Text)
      → Asks paths
      → (env : Surroundings) → ((i : ℕ) → Works (env.answers i))
      → (k fuel i : ℕ) (s : SyncState m opt) → Fit s
      → k < fuel
      → ltb_ℤ (env.elapsed (i + k)) (seconds opt.timeout) ≡ false
      → (s' : SyncState m opt) × (rounds m opt env fuel i s ≡ some (ok s')) × Fit s'
  rounds-Fit paths a env works k fuel i s v enough over =
      rounds-end m opt Fit env (requests-Fit paths a env works 100) k fuel i s v enough over

-- ===== src/Io/Async/Fill.antt =====
-- The inner loop of `do_async_io` over libaio.
use micbench.Base.{
  ℕ, zero, suc, ◌+◌, ◌<◌, ◌≡◌, ◌≢◌, refl, false, true, some, List, [], ◌∷◌, length, arith, ok, ltb,
  ◌==◌,
}
use micbench.Base.Int.{ℤ, pos, ◌+ℤ◌, ◌*ℤ◌}
use micbench.Base.Text.{Text}
use micbench.ResPool.{Ptr, null}
use micbench.ResPool.Fifo.{length-Holds}
use micbench.Rand.{Machine, IoMode, do_read, do_write, read_or_write}
use micbench.Io.Options.{
  IoOption, Pattern, pattern_seq, pattern_rand, pattern_seekdist, pattern_seekincr,
}
use micbench.Io.Count.{count, count_self}
use micbench.Io.Offsets.{Cursor}
use micbench.Io.Offsets.Entries.{Entries, choose_seq-Entries, choose_rand-Entries}
use micbench.Io.Offsets.Range.{get_elem?-some, at_index-some}
use micbench.Io.Aiom.{nr_submittable}
use micbench.Io.Wait.{path_of}
use micbench.Io.Owned.{Owned}
use micbench.Io.Owned.Submit.{prep-Owned}
use micbench.Io.Async.{AsyncState, choose_async, drawn, queue_one, fill}

module _ (m : Machine) (opt : IoOption m.Double) (fds : List ℕ) (all : List Ptr) where
  -- Each file has a path and a descriptor, and no callback is at NULL.
  pub record Ready (paths : List Text) : Type 0 where
    pub paths_lem : opt.file_path_list ≡ some paths
    pub has_path : length paths ≡ opt.nr_files
    pub has_fd : length fds ≡ opt.nr_files
    pub some_cb : (p : Ptr) → 0 < count p all → p ≢ null

  drawn-Entries :
      (mode : IoMode) (n : ℕ) (global : m.Seed) (c : Cursor m)
      → Entries m n c
      → Entries m n (drawn m opt fds mode global c)
  unfolding drawn
  drawn-Entries do_read n global c v = record {
    some_file = v.some_file;
    ofsts = v.ofsts;
    los = v.los;
    his = v.his;
    sides = v.sides;
  }
  drawn-Entries do_write n global c v = record {
    some_file = v.some_file;
    ofsts = v.ofsts;
    los = v.los;
    his = v.his;
    sides = v.sides;
  }

  choose_async-Entries :
      (p : Pattern) (c : Cursor m)
      → Entries m opt.nr_files c
      → (idx : ℕ) × (ofst : ℤ) × (c' : Cursor m) × (choose_async m opt fds p c ≡ ok (idx, ofst, c'))
        × (idx < opt.nr_files)
        × Entries m opt.nr_files c'
  unfolding choose_async
  choose_async-Entries pattern_rand c v = choose_rand-Entries m opt.nr_files c v
  choose_async-Entries pattern_seq c v = choose_seq-Entries m opt.nr_files c v
  choose_async-Entries pattern_seekdist c v = choose_seq-Entries m opt.nr_files c v
  choose_async-Entries pattern_seekincr c v = choose_seq-Entries m opt.nr_files c v

  path_of-some :
      (paths : List Text)
      → Ready paths
      → (idx : ℕ) → idx < opt.nr_files
      → (path : Text) × (path_of opt.file_path_list (pos idx) ≡ ok path)
  unfolding path_of
  path_of-some paths r idx inside =
      let (path, at_path) = get_elem?-some paths idx (omega (arith, inside, r.has_path)) in
      (path, rw (r.paths_lem, path_of, at_path) refl)

  queue_one-Owned :
      (paths : List Text)
      → Ready paths
      → (now : ℕ) (s : AsyncState m opt fds) {p : Ptr} {q : List Ptr} → Owned opt all s.aiom (p ∷ q)
      → Entries m opt.nr_files s.cursor
      → (s' : AsyncState m opt fds) × (queue_one m opt fds now s ≡ ok s')
        × Owned opt all s'.aiom q
        × Entries m opt.nr_files s'.cursor
  unfolding queue_one
  queue_one-Owned paths r now s {p} {q} v entries =
      let (idx, ofst, c, choice, inside, entries') =
        choose_async-Entries opt.pattern s.cursor entries in
      let (path, e) = path_of-some paths r idx inside in
      let (fd, at_fd) = get_elem?-some fds idx (omega (arith, inside, r.has_fd)) in
      let addr = ofst *ℤ opt.blk_sz +ℤ opt.misalign in
      let mode = (read_or_write m opt.read opt.write opt.rwmix c.global).0 in
      let global = (read_or_write m opt.read opt.write opt.rwmix c.global).1 in
      let (pool, a, popped, prepared, v') =
        prep-Owned opt all mode fd (pos idx) opt.blk_sz addr now e v in
      let test : (p == null) ≡ false =
        ground (arith, r.some_cb p (omega (arith, v.balance p, count_self p q))) in
      (
        record s { cursor = drawn m opt fds mode global c; aiom = a },
        rw (choice, popped, test, at_index-some fds idx at_fd, prepared) refl,
        v',
        drawn-Entries mode opt.nr_files global c entries',
      )

  -- With a path and a descriptor for each file, and no callback at NULL, fuel for
  -- one request more than there are free callbacks is enough for the inner loop: it follows no bad
  -- pointer, reads outside no list, and ends with every callback that was free queued
  -- and none left in the pool.
  pub fill-Owned :
      (paths : List Text)
      → Ready paths
      → (now : ℕ → ℕ) (fuel i : ℕ) (s : AsyncState m opt fds) (pool : List Ptr)
      → Owned opt all s.aiom pool
      → Entries m opt.nr_files s.cursor
      → length pool < fuel
      → (s' : AsyncState m opt fds) × (fill m opt fds now fuel i s ≡ some (ok s'))
        × Owned opt all s'.aiom []
        × Entries m opt.nr_files s'.cursor
  unfolding fill nr_submittable
  fill-Owned paths r now zero i s pool v entries enough = absurd (omega arith)
  fill-Owned paths r now (suc fuel) i s [] v entries enough =
      let free = length-Holds v.holds in
      let test : ltb 0 s.aiom.cbpool.nr_avail ≡ false = ground arith in (s, rw test, v, entries)
  fill-Owned paths r now (suc fuel) i s (p ∷ q) v entries enough =
      let free = length-Holds v.holds in
      let test : ltb 0 s.aiom.cbpool.nr_avail ≡ true = ground arith in
      let (s₁, one, v₁, entries₁) = queue_one-Owned paths r (now i) s v entries in
      let (s', rest, v', entries') =
        fill-Owned paths r now fuel (i + 1) s₁ q v₁ entries₁ (omega arith) in
      (s', rw (test, one) rest, v', entries')

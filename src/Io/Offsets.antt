-- ===== src/Io/Offsets.antt =====
-- Where the I/O of src/micbench-io.c goes: the offset handling that `do_async_io` and `do_sync_io`
-- share, and the choice of file and block for each access pattern. Offsets are in blocks.
pub mod Sequence
pub mod Range
mod Start
pub mod Lengths
pub mod Entries
use micbench.Base.{
  ℕ, zero, suc, ◌+◌, ◌%◌, Bool, true, false, Option, none, some, List, [], ◌∷◌, ◌==◌, if◌then◌else◌,
  get_elem?, set, map, Outcome, ok, fault, ◌>>=◌,
}
use micbench.Base.Int.{ℤ, pos, negsuc, ◌+ℤ◌, ◌-ℤ◌, ◌*ℤ◌, ltb_ℤ, quot}
use micbench.Rand.{Machine, rand_range_long}
use micbench.Io.Options.{IoOption, Pattern, pattern_seq, pattern_rand, pattern_seekdist}

-- `list[idx]`
abbrev pub at_index {ℓ} : {A : Type ℓ} → List A → ℕ → Outcome A
at_index xs i = elim (get_elem? xs i) [ none ↦ fault | some x ↦ ok x ]

-- `a / b`, which traps at 0
unfoldable pub divide : ℤ → ℤ → Outcome ℤ
divide a (pos zero) = fault
divide a (pos (suc b)) = ok (quot a (pos (suc b)))
divide a (negsuc b) = ok (quot a (negsuc b))

module _ {D : Type 0} (opt : IoOption D) where
  unfoldable pub ofst_min : ℤ
  ofst_min = if ltb_ℤ opt.ofst_start (pos 0) then pos 0 else opt.ofst_start

  -- `size` is the entry of `file_size_list`.
  unfoldable pub ofst_max : ℤ → Outcome ℤ
  ofst_max size = if ltb_ℤ opt.ofst_end (pos 0) then divide size opt.blk_sz else ok opt.ofst_end

  -- Where the thread `id` begins with the pattern `seq`.
  unfoldable pub ofst_share : (id : ℕ) (hi : ℤ) → Outcome ℤ
  ofst_share id hi = do
    share ← divide ((hi -ℤ ofst_min) *ℤ pos id) opt.multi
    ok (ofst_min +ℤ share)

  -- The first offset in `do_async_io`.
  unfoldable pub ofst_async : (id : ℕ) (hi : ℤ) → Outcome ℤ
  ofst_async id hi = elim opt.pattern [ pattern_seq ↦ ofst_share id hi | _ ↦ ok ofst_min ]

  -- The first offset in `do_sync_io`.
  unfoldable pub ofst_sync : (id : ℕ) (hi : ℤ) → Outcome ℤ
  ofst_sync id hi = elim opt.pattern [
    | pattern_seq ↦ ofst_share id hi
    | pattern_seekdist ↦ ok (hi -ℤ opt.seekdist_stride)
    | _ ↦ ok ofst_min
  ]

  -- The loop of the offset handling, with `first` for the first offset: the lists of the first
  -- offsets, of the starts and of the ends.
  unfoldable pub init_offsets :
      (first : ℤ → Outcome ℤ) → (sizes : List ℤ) → Outcome (List ℤ × List ℤ × List ℤ)
  init_offsets first [] = ok ([], [], [])
  init_offsets first (size ∷ sizes) = do
    hi ← ofst_max size
    o ← first hi
    (os, los, his) ← init_offsets first sizes
    ok (o ∷ os, ofst_min ∷ los, hi ∷ his)

-- Increment of the offset, back to the start at the end.
unfoldable pub next_ofst : (ofst lo hi : ℤ) → ℤ
next_ofst ofst lo hi = if ltb_ℤ (ofst +ℤ pos 1) hi then ofst +ℤ pos 1 else lo

module _ (m : Machine) where
  -- The variables of the choice: the file, the lists with an entry for each file, and the generators
  -- of the thread and of drand48(3).
  pub record Cursor : Type 0 where
    pub file_idx : ℕ
    pub ofst_list : List ℤ
    pub ofst_min_list : List ℤ
    pub ofst_max_list : List ℤ
    pub seekdist_side_list : List ℕ
    pub rand : m.Seed
    pub global : m.Seed

  -- A chosen file and offset.
  abbrev pub Chosen : Type 0
  Chosen = ℕ × ℤ × Cursor

  -- Pattern `rand`.
  unfoldable pub choose_rand : (nr_files : ℕ) → Cursor → Outcome Chosen
  choose_rand nr_files c =
      let (ret, rand₁) = m.lrand48_r c.rand in
      let file_idx = ret % nr_files in
      do
        lo ← at_index c.ofst_min_list file_idx
        hi ← at_index c.ofst_max_list file_idx
        let (ofst, rand₂) = rand_range_long m rand₁ lo hi
        ok (
          file_idx,
          ofst,
          record c { file_idx = file_idx; ofst_list = set c.ofst_list file_idx ofst; rand = rand₂ },
        )

  -- Pattern `seq`, and every other pattern in `do_async_io`.
  unfoldable pub choose_seq : (nr_files : ℕ) → Cursor → Outcome Chosen
  choose_seq nr_files c =
      let file_idx = (c.file_idx + 1) % nr_files in
      do
        last ← at_index c.ofst_list file_idx
        lo ← at_index c.ofst_min_list file_idx
        hi ← at_index c.ofst_max_list file_idx
        let ofst = next_ofst last lo hi
        ok (
          file_idx,
          ofst,
          record c { file_idx = file_idx; ofst_list = set c.ofst_list file_idx ofst },
        )

  -- Pattern `seekdist` of `do_sync_io`: the two ends of the range in turn.
  unfoldable pub choose_seekdist : (stride : ℤ) (nr_files : ℕ) → Cursor → Outcome Chosen
  choose_seekdist stride nr_files c =
      let file_idx = (c.file_idx + 1) % nr_files in
      do
        side ← at_index c.seekdist_side_list file_idx
        lo ← at_index c.ofst_min_list file_idx
        hi ← at_index c.ofst_max_list file_idx
        let (ofst, rand') =
            (if side == 0
              then rand_range_long m c.rand (hi -ℤ stride) hi
              else rand_range_long m c.rand lo (lo +ℤ stride))
        ok (
          file_idx,
          ofst,
          record c {
            file_idx = file_idx;
            seekdist_side_list = set c.seekdist_side_list file_idx (if side == 0 then 1 else 0);
            rand = rand';
          },
        )

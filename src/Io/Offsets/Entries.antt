-- ===== src/Io/Offsets/Entries.antt =====
-- The choices of file and block read outside no list, and keep the lists' lengths, whatever the ranges.
use native.Mathlib.Nat.{mod-lt}
use micbench.Base.{
  ℕ, ◌+◌, ◌%◌, ◌<◌, ◌≡◌, ◌==◌, length, arith, ok, ◌∙◌, set, length-set, if◌then◌else◌,
}
use micbench.Base.Int.{ℤ, ◌+ℤ◌, ◌-ℤ◌}
use micbench.Rand.{Machine, rand_range_long}
use micbench.Io.Offsets.{Cursor, choose_seq, choose_rand, choose_seekdist, next_ofst}
use micbench.Io.Offsets.Range.{get_elem?-some, at_index-some}

module _ (m : Machine) where
  -- There is an entry for each of the `n` files.
  pub record Entries (n : ℕ) (c : Cursor m) : Type 0 where
    pub some_file : 0 < n
    pub ofsts : length c.ofst_list ≡ n
    pub los : length c.ofst_min_list ≡ n
    pub his : length c.ofst_max_list ≡ n
    pub sides : length c.seekdist_side_list ≡ n

  pub choose_seq-Entries :
      (n : ℕ) (c : Cursor m)
      → Entries n c
      → (idx : ℕ) × (ofst : ℤ) × (c' : Cursor m) × (choose_seq m n c ≡ ok (idx, ofst, c'))
        × (idx < n)
        × Entries n c'
  unfolding choose_seq
  choose_seq-Entries n c v =
      let idx = (c.file_idx + 1) % n in
      let inside : idx < n = mod-lt (c.file_idx + 1) v.some_file in
      let (o, at_o) = get_elem?-some c.ofst_list idx (omega (arith, v.ofsts)) in
      let (lo, at_lo) = get_elem?-some c.ofst_min_list idx (omega (arith, v.los)) in
      let (hi, at_hi) = get_elem?-some c.ofst_max_list idx (omega (arith, v.his)) in
      (
        idx,
        next_ofst o lo hi,
        record c { file_idx = idx; ofst_list = set c.ofst_list idx (next_ofst o lo hi) },
        rw (
          at_index-some c.ofst_list idx at_o,
          at_index-some c.ofst_min_list idx at_lo,
          at_index-some c.ofst_max_list idx at_hi,
        ),
        inside,
        record {
          some_file = v.some_file;
          ofsts = length-set c.ofst_list idx (next_ofst o lo hi) ∙ v.ofsts;
          los = v.los;
          his = v.his;
          sides = v.sides;
        },
      )

  pub choose_rand-Entries :
      (n : ℕ) (c : Cursor m)
      → Entries n c
      → (idx : ℕ) × (ofst : ℤ) × (c' : Cursor m) × (choose_rand m n c ≡ ok (idx, ofst, c'))
        × (idx < n)
        × Entries n c'
  unfolding choose_rand
  choose_rand-Entries n c v =
      let (ret, rand₁) = m.lrand48_r c.rand in
      let idx = ret % n in
      let inside : idx < n = mod-lt ret v.some_file in
      let (lo, at_lo) = get_elem?-some c.ofst_min_list idx (omega (arith, v.los)) in
      let (hi, at_hi) = get_elem?-some c.ofst_max_list idx (omega (arith, v.his)) in
      let (ofst, rand₂) = rand_range_long m rand₁ lo hi in
      (
        idx,
        ofst,
        record c { file_idx = idx; ofst_list = set c.ofst_list idx ofst; rand = rand₂ },
        rw (at_index-some c.ofst_min_list idx at_lo, at_index-some c.ofst_max_list idx at_hi),
        inside,
        record {
          some_file = v.some_file;
          ofsts = length-set c.ofst_list idx ofst ∙ v.ofsts;
          los = v.los;
          his = v.his;
          sides = v.sides;
        },
      )

  pub choose_seekdist-Entries :
      (stride : ℤ) (n : ℕ) (c : Cursor m)
      → Entries n c
      → (idx : ℕ) × (ofst : ℤ) × (c' : Cursor m) × (choose_seekdist m stride n c
          ≡ ok (idx, ofst, c'))
        × (idx < n)
        × Entries n c'
  unfolding choose_seekdist
  choose_seekdist-Entries stride n c v =
      let idx = (c.file_idx + 1) % n in
      let inside : idx < n = mod-lt (c.file_idx + 1) v.some_file in
      let (side, at_side) = get_elem?-some c.seekdist_side_list idx (omega (arith, v.sides)) in
      let (lo, at_lo) = get_elem?-some c.ofst_min_list idx (omega (arith, v.los)) in
      let (hi, at_hi) = get_elem?-some c.ofst_max_list idx (omega (arith, v.his)) in
      let (ofst, rand') =
        (if side == 0
          then rand_range_long m c.rand (hi -ℤ stride) hi
          else rand_range_long m c.rand lo (lo +ℤ stride)) in
      (
        idx,
        ofst,
        record c {
          file_idx = idx;
          seekdist_side_list = set c.seekdist_side_list idx (if side == 0 then 1 else 0);
          rand = rand';
        },
        rw (
          at_index-some c.seekdist_side_list idx at_side,
          at_index-some c.ofst_min_list idx at_lo,
          at_index-some c.ofst_max_list idx at_hi,
        ),
        inside,
        record {
          some_file = v.some_file;
          ofsts = v.ofsts;
          los = v.los;
          his = v.his;
          sides = length-set c.seekdist_side_list idx (if side == 0 then 1 else 0) ∙ v.sides;
        },
      )

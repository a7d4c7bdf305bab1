-- ===== src/Io/Offsets/Range.antt =====
-- The files and blocks that the patterns `seq` and `rand` choose.
use micbench.Base.{
  ℕ, zero, suc, ◌+◌, ◌%◌, ◌<◌, ◌≡◌, refl, arith, some, List, [], ◌∷◌, length, get_elem?, set,
  length-set, get_elem?-set_self, get_elem?-set_ne, ok, ◌∙◌, sym, subst, ℕ_discrete,
}
use native.Mathlib.Nat.{mod-lt}
use micbench.Base.Int.{ℤ, pos, ◌+ℤ◌, ◌-ℤ◌, ◌≤ℤ◌, int_laws}
use mathlib.Core.Option.{some-injective}
use micbench.Rand.{Machine, IsRounding, Exact, rand_range_long}
use micbench.Rand.Bounds.{rand_range_long_bounds}
use micbench.Io.Offsets.{at_index, next_ofst, Cursor, choose_seq, choose_rand}
use micbench.Io.Offsets.Sequence.{next_ofst_range}

pub get_elem?-some {ℓ} :
    {A : Type ℓ} (xs : List A) (i : ℕ) → i < length xs → (x : A) × (get_elem? xs i ≡ some x)
get_elem?-some [] i lt = absurd (omega arith)
get_elem?-some (x ∷ xs) zero lt = (x, refl)
get_elem?-some (x ∷ xs) (suc i) lt = get_elem?-some xs i (omega arith)

pub at_index-some {ℓ} :
    {A : Type ℓ} (xs : List A) (i : ℕ) {x : A} → get_elem? xs i ≡ some x → at_index xs i ≡ ok x
at_index-some xs i e = ground arith

weaken : (lo hi : ℤ) → lo +ℤ pos 1 ≤ℤ hi → lo ≤ℤ hi
weaken lo hi h = omega int_laws

module _ (m : Machine) where
  -- There is a file; each list has an entry for each of the `n` files; the range of each has a block,
  -- its start being below its end; no offset is below its range.
  pub record InRange (n : ℕ) (c : Cursor m) : Type 0 where
    pub some_file : 0 < n
    pub ofsts : length c.ofst_list ≡ n
    pub los : length c.ofst_min_list ≡ n
    pub his : length c.ofst_max_list ≡ n
    pub has_block :
        (i : ℕ) (lo hi : ℤ)
        → get_elem? c.ofst_min_list i ≡ some lo
        → get_elem? c.ofst_max_list i ≡ some hi
        → lo +ℤ pos 1 ≤ℤ hi
    pub above :
        (i : ℕ) (lo o : ℤ)
        → get_elem? c.ofst_min_list i ≡ some lo
        → get_elem? c.ofst_list i ≡ some o
        → lo ≤ℤ o

  InRange-set :
      {n : ℕ} {c : Cursor m} (idx : ℕ) (ofst lo : ℤ) (rand : m.Seed)
      → get_elem? c.ofst_min_list idx ≡ some lo
      → idx < n
      → lo ≤ℤ ofst
      → InRange n c
      → InRange n (record c { file_idx = idx; ofst_list = set c.ofst_list idx ofst; rand = rand })
  InRange-set {n} {c} idx ofst lo rand at inside le v = record {
    some_file = v.some_file;
    ofsts = length-set c.ofst_list idx ofst ∙ v.ofsts;
    los = v.los;
    his = v.his;
    has_block = v.has_block;
    above = λ i lo' o at_lo at_o. elim (ℕ_discrete idx i) [
      | yes same ↦
          let at_lo' : get_elem? c.ofst_min_list idx ≡ some lo' = rw same at_lo in
          let at_o' : get_elem? (set c.ofst_list idx ofst) idx ≡ some o =
            subst (λ j. get_elem? (set c.ofst_list idx ofst) j ≡ some o) (sym same) at_o in
          let stored = get_elem?-set_self c.ofst_list idx ofst (omega (arith, v.ofsts)) in
          let lo_eq : lo ≡ lo' = some-injective _ _ (sym at ∙ at_lo') in
          let o_eq : ofst ≡ o = some-injective _ _ (sym stored ∙ at_o') in rw (← lo_eq, ← o_eq) le
      | no other ↦ v.above i lo' o at_lo (sym (get_elem?-set_ne c.ofst_list ofst other) ∙ at_o)
    ];
  }

  -- A choice within the range of its file.
  pub record Within (n : ℕ) (c : Cursor m) (idx : ℕ) (ofst : ℤ) (past : ℤ) : Type 0 where
    pub inside : idx < n
    pub lo : ℤ
    pub hi : ℤ
    pub at_lo : get_elem? c.ofst_min_list idx ≡ some lo
    pub at_hi : get_elem? c.ofst_max_list idx ≡ some hi
    pub from_lo : lo ≤ℤ ofst
    pub to_hi : past ≤ℤ hi

  -- If there is a file, each list has an entry for each file, the start of every range is below its end
  -- and no current offset is below its start, the pattern `seq` takes the files in turn, faults at no
  -- list, chooses a block of the file's range, and leaves a cursor of which this holds again.
  pub choose_seq-InRange :
      (n : ℕ) (c : Cursor m)
      → InRange n c
      → (ofst : ℤ) × (c' : Cursor m) × (choose_seq m n c ≡ ok ((c.file_idx + 1) % n, ofst, c'))
        × Within n c ((c.file_idx + 1) % n) ofst (ofst +ℤ pos 1)
        × InRange n c'
  unfolding choose_seq
  choose_seq-InRange n c v =
      let idx = (c.file_idx + 1) % n in
      let inside : idx < n = mod-lt (c.file_idx + 1) v.some_file in
      let (o, at_o) = get_elem?-some c.ofst_list idx (omega (arith, v.ofsts, inside)) in
      let (lo, at_lo) = get_elem?-some c.ofst_min_list idx (omega (arith, v.los, inside)) in
      let (hi, at_hi) = get_elem?-some c.ofst_max_list idx (omega (arith, v.his, inside)) in
      let room = v.has_block idx lo hi at_lo at_hi in
      let (low, high) = next_ofst_range o lo hi (v.above idx lo o at_lo at_o) room in
      let ofst = next_ofst o lo hi in
      (
        ofst,
        record c { file_idx = idx; ofst_list = set c.ofst_list idx ofst },
        rw (
          at_index-some c.ofst_list idx at_o,
          at_index-some c.ofst_min_list idx at_lo,
          at_index-some c.ofst_max_list idx at_hi,
        ),
        record {
          inside = inside;
          lo = lo;
          hi = hi;
          at_lo = at_lo;
          at_hi = at_hi;
          from_lo = low;
          to_hi = high;
        },
        InRange-set idx ofst lo c.rand at_lo inside low v,
      )

  -- Numbers that a double holds exactly.
  pub record ExactRanges (c : Cursor m) : Type 0 where
    pub ends :
        (i : ℕ) (lo hi : ℤ)
        → get_elem? c.ofst_min_list i ≡ some lo
        → get_elem? c.ofst_max_list i ≡ some hi
        → Exact lo × Exact hi × Exact (hi -ℤ lo)

  -- If there is a file, each list has an entry for each file, the start of every range is below its
  -- end, no current offset is below its start, and a double holds the starts, ends and widths of the
  -- ranges exactly, the pattern `rand` faults at no list, chooses an offset from the start of the file's
  -- range to its end, the end included, and leaves a cursor of which this holds again.
  pub choose_rand-InRange :
      (law : IsRounding m) (n : ℕ) (c : Cursor m)
      → InRange n c
      → ExactRanges c
      → (idx : ℕ) × (ofst : ℤ) × (c' : Cursor m) × (choose_rand m n c ≡ ok (idx, ofst, c'))
        × Within n c idx ofst ofst
        × InRange n c'
  unfolding choose_rand
  choose_rand-InRange law n c v exact =
      let (ret, rand₁) = m.lrand48_r c.rand in
      let idx = ret % n in
      let inside : idx < n = mod-lt ret v.some_file in
      let (lo, at_lo) = get_elem?-some c.ofst_min_list idx (omega (arith, v.los, inside)) in
      let (hi, at_hi) = get_elem?-some c.ofst_max_list idx (omega (arith, v.his, inside)) in
      let (e_lo, e_hi, e_w) = exact.ends idx lo hi at_lo at_hi in
      let room = v.has_block idx lo hi at_lo at_hi in
      let (low, high) =
        rand_range_long_bounds m law rand₁ lo hi e_lo e_hi e_w (weaken lo hi room) in
      let (ofst, rand₂) = rand_range_long m rand₁ lo hi in
      (
        idx,
        ofst,
        record c { file_idx = idx; ofst_list = set c.ofst_list idx ofst; rand = rand₂ },
        rw (at_index-some c.ofst_min_list idx at_lo, at_index-some c.ofst_max_list idx at_hi),
        record {
          inside = inside;
          lo = lo;
          hi = hi;
          at_lo = at_lo;
          at_hi = at_hi;
          from_lo = low;
          to_hi = high;
        },
        InRange-set idx ofst lo rand₂ at_lo inside low v,
      )

-- ===== src/Io/Report/Grow.antt =====
-- The loop of `print_result_json` over the names of the files, and the text that it leaves.
use mathlib.Core.List.{append_assoc, append-nil}
use micbench.Base.{
  ℕ, zero, suc, ◌+◌, ◌*◌, ◌%◌, ◌^◌, ◌≤◌, ◌<◌, ◌≡◌, refl, true, false, some, List, [], ◌∷◌, ◌++◌,
  length, length-append, ltb, leb, ok, arith, ap, sym, ◌∙◌, subst, Bool-cases, inl, inr,
}
use micbench.Base.Text.{Text}
use micbench.Io.Options.{IoOption}
use micbench.Io.Report.Files.{
  Allocator, FilesStr, item, room_of, size_of_int, name_of, add_name, add_names, given,
}
use micbench.Io.Report.Store.{Fits, snprintf-Printed, room_of-Fits, take-all}

-- No allocation fails: malloc(3) gives a block of the size, and realloc(3) keeps the bytes that there
-- are and appends others.
pub record Grants (heap : Allocator) : Type 0 where
  pub mallocs : (n : ℕ) → (block : Text) × (heap.malloc n ≡ some block) × (length block ≡ n)
  pub grows :
      (block : Text) (n : ℕ)
      → length block ≤ n
      → (more : Text) × (heap.realloc block n ≡ some (block ++ more)) × (length (block ++ more) ≡ n)

module _ {D : Type 0} (opt : IoOption D) (heap : Allocator) where
  add_name-Fits :
      (front path : Text) (i : ℕ) (s : FilesStr) (v : Fits front s)
      → name_of opt i ≡ ok path
      → s.len < 2 ^ 62
      → length (item i path) < 2 ^ 31
      → length (item i path) + 3 ≤ length v.back
      → (s' : FilesStr) × (add_name opt heap i s ≡ ok (true, s'))
        × Fits (front ++ item i path) s'
        × (s'.len ≡ s.len)
  unfolding add_name size_of_int
  add_name-Fits front path i s v name small short room =
      let w = snprintf-Printed front (item i path) s v (omega arith) short in
      let all = take-all w.shown (item i path) (omega (arith, w.shown_lem)) in
      let added : leb (room_of s) (length (item i path)) ≡ false =
        ground (arith, room_of-Fits front s v (omega arith)) in
      let size = length-append (item i path) (0 ∷ w.rest) in
      let text : w.after ≡ item i path ++ 0 ∷ w.rest =
        w.after_lem ∙ ap (λ t. t ++ 0 ∷ w.rest) all in
      let sizes : length (item i path) + suc (length w.rest) ≡ length v.back =
        sym size ∙ ap (λ (t : Text). length t) (sym text) ∙ w.after_length in
      (
        record s { block = front ++ w.after; ofst = s.ofst + length (item i path) },
        rw (name, w.run, added) refl,
        record {
          back = 0 ∷ w.rest;
          block_lem =
              ap (λ t. front ++ t) text ∙ sym (append_assoc front (item i path) (0 ∷ w.rest));
          len_lem = omega (arith, v.len_lem, sizes, length-append front (item i path));
          ofst_lem = omega (arith, v.ofst_lem, length-append front (item i path));
          spare = omega (arith, sizes);
        },
        refl,
      )

  add_name-grows :
      Grants heap
      → (front path : Text) (i : ℕ) (s : FilesStr) (v : Fits front s) → name_of opt i ≡ ok path
      → s.len < 2 ^ 62
      → length (item i path) < 2 ^ 31
      → length v.back < length (item i path) + 3
      → (s' : FilesStr) × (add_name opt heap i s ≡ ok (false, s'))
        × Fits front s'
        × (s'.len ≡ s.len * 2)
  unfolding add_name size_of_int given
  add_name-grows grants front path i s v name small short full =
      let w = snprintf-Printed front (item i path) s v (omega arith) short in
      let lacks : leb (room_of s) (length (item i path)) ≡ true =
        ground (arith, room_of-Fits front s v (omega arith)) in
      let now = length-append front w.after in
      let len = (s.len * 2) % 2 ^ 64 in
      let twice : len ≡ s.len * 2 = omega arith in
      let (more, grown, size) =
        grants.grows (front ++ w.after) len
          (omega (arith, twice, now, w.after_length, v.len_lem)) in
      let moved = append_assoc front w.after more in
      let sizes : length front + length (w.after ++ more) ≡ len =
        sym (length-append front (w.after ++ more))
        ∙ ap (λ (t : Text). length t) (sym moved)
        ∙ size in
      (
        record { block = front ++ w.after ++ more; len = len; ofst = s.ofst },
        rw (name, w.run, lacks, grown) refl,
        record {
          back = w.after ++ more;
          block_lem = moved;
          len_lem = sym sizes;
          ofst_lem = v.ofst_lem;
          spare = omega (arith, v.spare, v.len_lem, sizes, twice);
        },
        twice,
      )

-- The names as the loop writes them, from the file `i` on.
unfoldable pub items : ℕ → List Text → Text
items i [] = []
items i (p ∷ ps) = item i p ++ items (i + 1) ps

-- `nr_files` names are given, and `ps` are those from the file `i` on.
unfoldable pub Names : {D : Type 0} → IoOption D → ℕ → List Text → Type 0
Names opt i [] = i ≡ opt.nr_files
Names opt i (p ∷ ps) = (name_of opt i ≡ ok p) × Names opt (i + 1) ps

length-Names :
    {D : Type 0} (opt : IoOption D) (i : ℕ) (ps : List Text)
    → Names opt i ps
    → i + length ps ≡ opt.nr_files
unfolding Names
length-Names opt i [] v = omega (arith, v)
length-Names opt i (p ∷ ps) v = omega (arith, length-Names opt (i + 1) ps v.1)

module _ {D : Type 0} (opt : IoOption D) (heap : Allocator) where
  -- `limit` is a bound on the length of the text.
  pub add_names-Fits :
      Grants heap
      → (fuel limit i : ℕ) (ps : List Text) (front : Text) (s : FilesStr) → Names opt i ps
      → Fits front s
      → length front + length (items i ps) + 3 ≤ limit
      → limit < 2 ^ 31
      → s.len ≤ 2 * limit
      → length ps + 2 * limit < fuel + s.len
      → (s' : FilesStr) × (add_names opt heap fuel i s ≡ some (ok s'))
        × Fits (front ++ items i ps) s'
  unfolding add_names Names items
  add_names-Fits grants zero limit i ps front s names v bound short small enough =
      absurd (omega arith)
  add_names-Fits grants (suc fuel) limit i [] front s names v bound short small enough =
      let over : ltb i opt.nr_files ≡ false = ground (arith, names) in
      (s, rw over refl, subst (λ t. Fits t s) (sym (append-nil front)) v)
  add_names-Fits grants (suc fuel) limit i (p ∷ ps) front s names v bound short small enough =
      let count = length-Names opt i (p ∷ ps) names in
      let under : ltb i opt.nr_files ≡ true = ground (arith, count) in
      let size = length-append (item i p) (items (i + 1) ps) in
      elim (Bool-cases (ltb (length (item i p) + 2) (length v.back))) [
        | inl room ↦
            let (s₁, run, v₁, same) =
              add_name-Fits opt heap front p i s v names.0 (omega arith) (omega (arith, size))
                (ground arith) in
            let (s', rest, v') =
              add_names-Fits grants fuel limit (i + 1) ps (front ++ item i p) s₁ names.1 v₁
                (omega (arith, size, length-append front (item i p))) short (omega (arith, same))
                (omega (arith, same)) in
            (
              s',
              rw (under, run) rest,
              subst (λ t. Fits t s') (append_assoc front (item i p) (items (i + 1) ps)) v',
            )
        | inr full ↦
            let (s₁, run, v₁, twice) =
              add_name-grows opt heap grants front p i s v names.0 (omega arith)
                (omega (arith, size)) (ground arith) in
            let little : length v.back < length (item i p) + 3 = ground arith in
            let (s', rest, v') =
              add_names-Fits grants fuel limit i (p ∷ ps) front s₁ names v₁ bound short
                (omega (arith, twice, size, v.len_lem))
                (omega (arith, twice, v.len_lem, v.spare)) in
            (s', rw (under, run) rest, v')
      ]

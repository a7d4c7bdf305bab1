-- ===== src/Base/Table.antt =====
-- The tables that the programs print: in each line a name, a tab and a value.
use mathlib.Core.List.{append_assoc}
use micbench.Base.{
  ℕ, suc, ◌<◌, ◌≡◌, refl, Bool, true, false, ◌&&◌, not, Option, none, some, List, [], ◌∷◌, ◌++◌,
  ◌==◌, if◌then◌else◌, arith, sym, sym,
}
use micbench.Base.Int.{ℤ, pos, negsuc}
use micbench.Base.Text.{Text, show_digits, show_nat, show_int}
use micbench.Base.Text.Decimal.{Digits, show_digits-Digits}

-- Texts one behind another.
abbrev pub join_texts : List Text → Text
join_texts [] = []
join_texts (t ∷ ts) = t ++ join_texts ts

-- A table, as it is printed.
abbrev pub print_table : List (Text × Text) → Text
print_table [] = []
print_table (kv ∷ rows) = kv.0 ++ 9 ∷ (kv.1 ++ 10 ∷ print_table rows)

cons_line : ℕ → List Text → List Text
cons_line c [] = (c ∷ []) ∷ []
cons_line c (l ∷ ls) = (c ∷ l) ∷ ls

-- The lines of a text. What follows the last newline is a line if it is not empty.
pub lines : Text → List Text
unfolding cons_line
lines [] = []
lines (c ∷ s) = if c == 10 then [] ∷ lines s else cons_line c (lines s)

cons_name : ℕ → Option (Text × Text) → Option (Text × Text)
cons_name c none = none
cons_name c (some kv) = some (c ∷ kv.0, kv.1)

-- The parts of a line before and behind its first tab.
pub cells : Text → Option (Text × Text)
unfolding cons_name
cells [] = none
cells (c ∷ s) = if c == 9 then some ([], s) else cons_name c (cells s)

cons_row : Option (Text × Text) → Option (List (Text × Text)) → Option (List (Text × Text))
cons_row none rows = none
cons_row (some kv) none = none
cons_row (some kv) (some rows) = some (kv ∷ rows)

pub rows_of : List Text → Option (List (Text × Text))
unfolding cons_row
rows_of [] = some []
rows_of (l ∷ ls) = cons_row (cells l) (rows_of ls)

-- The table that a text is; nothing if a line has no tab.
unfoldable pub read_table : Text → Option (List (Text × Text))
read_table s = rows_of (lines s)

-- The byte is not in the text.
unfoldable pub without : ℕ → Text → Bool
without b [] = true
without b (c ∷ s) = not (c == b) && without b s

-- A name has no tab and neither part a newline.
abbrev pub IsRow : Text × Text → Type 0
IsRow kv = (without 9 kv.0 ≡ true) × (without 10 kv.0 ≡ true) × (without 10 kv.1 ≡ true)

abbrev pub AllRows : List (Text × Text) → Type 0
AllRows [] = Unit {0}
AllRows (kv ∷ rows) = IsRow kv × AllRows rows

without-cons :
    (b c : ℕ) (s : Text) → without b (c ∷ s) ≡ true → ((c == b) ≡ false) × (without b s ≡ true)
unfolding without
without-cons b c s h = ground arith

pub without-append :
    (b : ℕ) (s t : Text) → without b s ≡ true → without b t ≡ true → without b (s ++ t) ≡ true
unfolding without
without-append b [] t h k = k
without-append b (c ∷ s) t h k =
    let (ne, h') = without-cons b c s h in rw (ne, without-append b s t h' k) refl

lines-line : (l s : Text) → without 10 l ≡ true → lines (l ++ 10 ∷ s) ≡ l ∷ lines s
unfolding lines
lines-line [] s h = refl
lines-line (c ∷ l) s h = let (ne, h') = without-cons 10 c l h in rw (ne, lines-line l s h') refl

cells-tab : (k v : Text) → without 9 k ≡ true → cells (k ++ 9 ∷ v) ≡ some (k, v)
unfolding cells
cells-tab [] v h = refl
cells-tab (c ∷ k) v h = let (ne, h') = without-cons 9 c k h in rw (ne, cells-tab k v h') refl

row-line : (k v : Text) → IsRow (k, v) → without 10 (k ++ 9 ∷ v) ≡ true
unfolding without
row-line k v (tab, key, val) = without-append 10 k (9 ∷ v) key val

-- A table is read back from what is printed.
pub read_table-print :
    (rows : List (Text × Text)) → AllRows rows → read_table (print_table rows) ≡ some rows
unfolding read_table rows_of
read_table-print [] h = unfold lines in refl
read_table-print (kv ∷ rows) (row, h) =
    let rest = print_table rows in
    let one : kv.0 ++ 9 ∷ (kv.1 ++ 10 ∷ rest) ≡ (kv.0 ++ 9 ∷ kv.1) ++ 10 ∷ rest =
      sym (append_assoc kv.0 (9 ∷ kv.1) (10 ∷ rest)) in
    let first = lines-line (kv.0 ++ 9 ∷ kv.1) rest (row-line kv.0 kv.1 row) in
    rw (one, first, cells-tab kv.0 kv.1 row.0, read_table-print rows h) refl

Digits-without : (b : ℕ) (s : Text) → Digits s → b < b'0' → without b s ≡ true
unfolding without
Digits-without b [] ds low = refl
Digits-without b (c ∷ s) (lo, hi, ds) low =
    let ne : (c == b) ≡ false = ground arith in rw (ne, Digits-without b s ds low) refl

pub show_nat-without : (b n : ℕ) → b < b'0' → without b (show_nat n) ≡ true
unfolding show_nat
show_nat-without b n low =
    Digits-without b (show_digits (suc n) n) (show_digits-Digits (suc n) n) low

-- A number is printed on one line, without a tab.
pub show_int-without : (b : ℕ) (z : ℤ) → b < b'-' → without b (show_int z) ≡ true
unfolding show_int without
show_int-without b (pos n) low = show_nat-without b n (omega arith)
show_int-without b (negsuc n) low =
    let ne : (b'-' == b) ≡ false = ground arith in
    rw (ne, show_nat-without b (suc n) (omega arith)) refl

cells-no_tab : (l : Text) → without 9 l ≡ true → cells l ≡ none
unfolding cells
cells-no_tab [] h = refl
cells-no_tab (c ∷ l) h = let (ne, h') = without-cons 9 c l h in rw (ne, cells-no_tab l h') refl

-- A text with a line that has no tab is no table.
pub read_table-no_tab :
    (l s : Text) → without 9 l ≡ true → without 10 l ≡ true → read_table (l ++ 10 ∷ s) ≡ none
unfolding read_table rows_of
read_table-no_tab l s tab newline = rw (lines-line l s newline, cells-no_tab l tab) refl

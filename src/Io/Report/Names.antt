-- ===== src/Io/Report/Names.antt =====
-- The names of the files in the report of `print_result_json`, against the text that they should be.
use mathlib.Core.List.{append_assoc, append-nil}
use micbench.Base.{
  ℕ, zero, suc, ◌+◌, ◌*◌, ◌^◌, ◌<◌, ◌≡◌, refl, some, List, [], ◌∷◌, ◌++◌, map, drop, length,
  length-drop, length-append, ok, ◌>>=◌, arith, ap, sym, ◌∙◌, get_elem?,
}
use micbench.Base.Text.{Text, codes}
use micbench.Io.Options.{IoOption}
use micbench.Io.Offsets.Range.{at_index-some}
use micbench.Io.Report.Files.{
  Allocator, FilesStr, item, name_of, first_block, files_str, store, c_string, add_names,
}
use micbench.Io.Report.Store.{Fits, NoNul, store-front, c_string-text}
use micbench.Io.Report.Grow.{Grants, items, Names, add_names-Fits}

-- A name in quotes, texts with a separator between them, and a list of names in brackets.
unfoldable pub quoted : Text → Text
quoted path = b'"' ∷ path ++ b'"' ∷ []

unfoldable pub join : (sep : Text) → List Text → Text
join sep [] = []
join sep (t ∷ []) = t
join sep (t ∷ u ∷ ts) = t ++ (sep ++ join sep (u ∷ ts))

unfoldable pub files_array : List Text → Text
unfolding quoted
files_array paths = b'[' ∷ join (codes ", ") (map quoted paths) ++ b']' ∷ []

unfoldable pub AllNoNul : List Text → Type 0
AllNoNul [] = Unit {0}
AllNoNul (p ∷ ps) = NoNul p × AllNoNul ps

append-NoNul : (s t : Text) → NoNul s → NoNul t → NoNul (s ++ t)
unfolding NoNul
append-NoNul [] t v w = w
append-NoNul (c ∷ s) t v w = (v.0, append-NoNul s t v.1 w)

item-NoNul : (i : ℕ) (p : Text) → NoNul p → NoNul (item i p)
unfolding NoNul item
item-NoNul zero p v = (omega arith, append-NoNul p (b'"' ∷ []) v (omega arith, tt))
item-NoNul (suc i) p v =
    (omega arith, (omega arith, (omega arith, append-NoNul p (b'"' ∷ []) v (omega arith, tt))))

items-NoNul : (i : ℕ) (ps : List Text) → AllNoNul ps → NoNul (items i ps)
unfolding items NoNul AllNoNul
items-NoNul i [] v = tt
items-NoNul i (p ∷ ps) v =
    append-NoNul (item i p) (items (i + 1) ps) (item-NoNul i p v.0) (items-NoNul (i + 1) ps v.1)

-- Behind the first name, each has the separator before it.
items-later :
    (i : ℕ) (p : Text) (ps : List Text)
    → 0 < i
    → items i (p ∷ ps) ≡ codes ", " ++ join (codes ", ") (map quoted (p ∷ ps))
unfolding items item join quoted
items-later zero p ps later = absurd (omega arith)
items-later (suc i) p [] later = append-nil (item (suc i) p)
items-later (suc i) p (q ∷ ps) later =
    ap (λ t. item (suc i) p ++ t) (items-later (suc i + 1) q ps (omega arith))

items-join : (ps : List Text) → items 0 ps ≡ join (codes ", ") (map quoted ps)
unfolding items item join quoted
items-join [] = refl
items-join (p ∷ []) = append-nil (quoted p)
items-join (p ∷ q ∷ ps) = ap (λ t. quoted p ++ t) (items-later (0 + 1) q ps (omega arith))

get_elem?-middle :
    (front : List Text) (p : Text) (ps : List Text) (i : ℕ)
    → i ≡ length front
    → get_elem? (front ++ p ∷ ps) i ≡ some p
get_elem?-middle [] p ps zero e = refl
get_elem?-middle [] p ps (suc i) e = absurd (omega arith)
get_elem?-middle (f ∷ front) p ps zero e = absurd (omega arith)
get_elem?-middle (f ∷ front) p ps (suc i) e = get_elem?-middle front p ps i (omega arith)

given-Names :
    {D : Type 0} (opt : IoOption D) (paths : List Text)
    → opt.file_path_list ≡ some paths
    → length paths ≡ opt.nr_files
    → (i : ℕ) (front ps : List Text) → paths ≡ front ++ ps
    → i ≡ length front
    → Names opt i ps
unfolding Names name_of
given-Names opt paths given count i front [] all at_end =
    let len = ap (λ (xs : List Text). length xs) all in omega (arith, len, length-append front [])
given-Names opt paths given count i front (p ∷ ps) all at_end =
    let here : get_elem? paths i ≡ some p =
      ap (λ xs. get_elem? xs i) all ∙ get_elem?-middle front p ps i at_end in
    (
      rw (given, at_index-some paths i here) refl,
      given-Names opt paths given count (i + 1) (front ++ p ∷ []) ps
          (all ∙ sym (append_assoc front (p ∷ []) ps))
          (omega (arith, length-append front (p ∷ []))),
    )

-- The store behind the loop ends the text.
close-Fits :
    (text : Text) (s : FilesStr) (v : Fits text s)
    → NoNul text
    → (store s.block s.ofst (b']' ∷ 0 ∷ []) >>= c_string) ≡ ok (text ++ b']' ∷ [])
unfolding NoNul
close-Fits text s v no_nul =
    let ended = append-NoNul text (b']' ∷ []) no_nul (omega arith, tt) in
    let rest = drop 2 v.back in
    let whole : (text ++ b']' ∷ 0 ∷ []) ++ rest ≡ (text ++ b']' ∷ []) ++ 0 ∷ rest =
      append_assoc text (b']' ∷ 0 ∷ []) rest ∙ sym (append_assoc text (b']' ∷ []) (0 ∷ rest)) in
    let stored = store-front text v.back (b']' ∷ 0 ∷ []) (omega (arith, v.spare)) in
    let shown = c_string-text (text ++ b']' ∷ []) rest ended in
    rw (v.block_lem, v.ofst_lem, stored, whole) shown

open_block :
    {D : Type 0} (opt : IoOption D) (heap : Allocator)
    → Grants heap
    → (s : FilesStr) × (first_block opt heap ≡ ok s) × Fits (b'[' ∷ []) s × (s.len ≡ 4)
unfolding first_block
open_block opt heap grants =
    let (block, mallocs, size) = grants.mallocs 4 in
    let stored = store-front [] block (b'[' ∷ []) (omega (arith, size)) in
    (
      record { block = b'[' ∷ drop 1 block; len = 4; ofst = 1 },
      rw (first_block, mallocs, stored) refl,
      record {
        back = drop 1 block;
        block_lem = refl;
        len_lem = omega (arith, size, length-drop 1 block);
        ofst_lem = refl;
        spare = omega (arith, size, length-drop 1 block);
      },
      refl,
    )

files_str-runs :
    {D : Type 0} (opt : IoOption D) (heap : Allocator) (fuel : ℕ) (s₀ s : FilesStr) (text : Text)
    → first_block opt heap ≡ ok s₀
    → add_names opt heap fuel 0 s₀ ≡ some (ok s)
    → (store s.block s.ofst (b']' ∷ 0 ∷ []) >>= c_string) ≡ ok text
    → files_str opt heap fuel ≡ some (ok text)
unfolding files_str
files_str-runs opt heap fuel s₀ s text opened run closed = ground arith

-- If no allocation fails, each of the files has a name, no name has a NUL in it and the list is
-- shorter than 2 ^ 31 - 2 bytes, then the loop over the names ends within a number of turns linear in
-- its length, every store is inside the block, and the text printed is the list of the names in
-- quotes, separated by commas and in brackets.
pub files_str-lists :
    {D : Type 0} (opt : IoOption D) (heap : Allocator)
    → Grants heap
    → (paths : List Text) → opt.file_path_list ≡ some paths
    → length paths ≡ opt.nr_files
    → AllNoNul paths
    → length (files_array paths) + 2 < 2 ^ 31
    → (fuel : ℕ) → length paths + 2 * length (files_array paths) < fuel
    → files_str opt heap fuel ≡ some (ok (files_array paths))
unfolding files_array NoNul
files_str-lists opt heap grants paths given count no_nul short fuel enough =
    let (s₀, opened, v₀, len) = open_block opt heap grants in
    let names = given-Names opt paths given count 0 [] paths refl refl in
    let same = items-join paths in
    let text = b'[' ∷ items 0 paths in
    let size : length (files_array paths) ≡ length (items 0 paths) + 2 = omega (
      arith,
      ap (λ (t : Text). length t) same,
      length-append (join (codes ", ") (map quoted paths)) (b']' ∷ []),
    ) in
    let (s, run, v) =
      add_names-Fits opt heap grants fuel (length (files_array paths) + 2) 0 paths (b'[' ∷ []) s₀
        names v₀ (omega (arith, size)) short (omega (arith, len)) (omega (arith, len)) in
    let closed = close-Fits text s v (omega arith, items-NoNul 0 paths no_nul) in
    let spelled : text ++ b']' ∷ [] ≡ files_array paths = ap (λ t. b'[' ∷ t ++ b']' ∷ []) same in
    files_str-runs opt heap fuel s₀ s (files_array paths) opened run
      (closed ∙ ap (λ t. ok t) spelled)

-- ===== src/Io/Report/Store.antt =====
-- Stores inside a block, and the text that snprintf(3) leaves there.
use mathlib.Core.List.{append_assoc}
use micbench.Base.{
  ℕ, zero, suc, ◌+◌, ◌-◌, ◌^◌, ◌≤◌, ◌<◌, ◌≡◌, ◌≢◌, refl, true, [], ◌∷◌, ◌++◌, take, drop, length,
  length-drop, length-take, length-append, ltb, Outcome, ok, arith, ap, ◌∙◌, min,
}
use micbench.Base.Int.{ℤ, pos}
use micbench.Base.Text.{Text}
use micbench.Io.Report.Files.{store, printed_length, snprintf, c_string, room_of, FilesStr}

pub store-front :
    (front back xs : Text)
    → length xs ≤ length back
    → store (front ++ back) (length front) xs ≡ ok (front ++ xs ++ drop (length xs) back)
unfolding store
store-front [] back [] room = refl
store-front [] [] (x ∷ xs) room = absurd (omega arith)
store-front [] (c ∷ back) (x ∷ xs) room = rw (store-front [] back xs (omega arith)) refl
store-front (c ∷ front) back xs room = rw (store-front front back xs room) refl

-- Every byte before the NUL is another.
unfoldable pub NoNul : Text → Type 0
NoNul [] = Unit {0}
NoNul (c ∷ s) = (c ≢ 0) × NoNul s

-- The text of a block that begins with it and a NUL.
pub c_string-text : (text rest : Text) → NoNul text → c_string (text ++ 0 ∷ rest) ≡ ok text
unfolding c_string NoNul
c_string-text [] rest v = refl
c_string-text (zero ∷ text) rest v = absurd (v.0 refl)
c_string-text (suc c ∷ text) rest v = rw (c_string-text text rest v.1) refl

pub take-all : (n : ℕ) (xs : Text) → length xs ≤ n → take n xs ≡ xs
take-all zero [] le = refl
take-all zero (x ∷ xs) le = absurd (omega arith)
take-all (suc n) [] le = refl
take-all (suc n) (x ∷ xs) le = ap (λ ys. x ∷ ys) (take-all n xs (omega arith))

-- The block with `front` behind the characters that are there to stay, and the rest from its start on.
pub record Fits (front : Text) (s : FilesStr) : Type 0 where
  pub back : Text
  pub block_lem : s.block ≡ front ++ back
  pub len_lem : s.len ≡ length front + length back
  pub ofst_lem : s.ofst ≡ length front
  pub spare : 3 ≤ length back

snprintf-writes :
    (front back text : Text) (r : ℕ)
    → length text < 2 ^ 31
    → suc r ≤ length back
    → (rest : Text) × (snprintf (front ++ back) (length front) (suc r) text
        ≡ ok (pos (length text), front ++ (take r text ++ 0 ∷ rest)))
      × (length (take r text ++ 0 ∷ rest) ≡ length back)
unfolding snprintf printed_length
snprintf-writes front back text r short room =
    let xs = take r text ++ 0 ∷ [] in
    let len : length xs ≡ min r (length text) + 1 =
      omega (arith, length-append (take r text) (0 ∷ []), length-take r text) in
    let small : ltb (length text) (2 ^ 31) ≡ true = ground arith in
    let rest = drop (length xs) back in
    let moved : (front ++ xs) ++ rest ≡ front ++ (take r text ++ 0 ∷ rest) =
      append_assoc front xs rest
      ∙ ap (λ t. front ++ t) (append_assoc (take r text) (0 ∷ []) rest) in
    let size = length-append (take r text) (0 ∷ rest) in
    (
      rest,
      rw (store-front front back xs (omega arith), small, moved) refl,
      omega (arith, size, length-take r text, length-drop (length xs) back),
    )

pub room_of-Fits :
    (front : Text) (s : FilesStr) (v : Fits front s)
    → s.len < 2 ^ 63
    → room_of s + 2 ≡ length v.back
unfolding room_of
room_of-Fits front s v short = omega (arith, v.len_lem, v.ofst_lem, v.spare)

-- What a call of snprintf(3) leaves behind `front`: the text, or as much of it as there is room for.
pub record Printed (front text : Text) (s : FilesStr) (back : Text) : Type 0 where
  pub shown : ℕ
  pub rest : Text
  pub after : Text
  pub shown_lem : shown + 3 ≡ length back
  pub after_lem : after ≡ take shown text ++ 0 ∷ rest
  pub after_length : length after ≡ length back
  pub run : snprintf s.block s.ofst (room_of s) text ≡ ok (pos (length text), front ++ after)

snprintf-at :
    (front back text block : Text) (ofst room r : ℕ) {out : Outcome (ℤ × Text)}
    → block ≡ front ++ back
    → ofst ≡ length front
    → room ≡ suc r
    → snprintf (front ++ back) (length front) (suc r) text ≡ out
    → snprintf block ofst room text ≡ out
snprintf-at front back text block ofst room r b o e run = rw (b, o, e) run

pub snprintf-Printed :
    (front text : Text) (s : FilesStr) (v : Fits front s)
    → s.len < 2 ^ 63
    → length text < 2 ^ 31
    → Printed front text s v.back
snprintf-Printed front text s v small short =
    let r = length v.back - 3 in
    let room : room_of s ≡ suc r = omega (arith, room_of-Fits front s v small, v.spare) in
    let (rest, run, size) = snprintf-writes front v.back text r short (omega (arith, v.spare)) in
    record {
      shown = r;
      rest = rest;
      after = take r text ++ 0 ∷ rest;
      shown_lem = omega (arith, v.spare);
      after_lem = refl;
      after_length = size;
      run =
          snprintf-at front v.back text s.block s.ofst (room_of s) r v.block_lem v.ofst_lem room
            run;
    }

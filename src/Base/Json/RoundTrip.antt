-- ===== src/Base/Json/RoundTrip.antt =====
-- The reader of JSON on a laid out value.
use micbench.Base.{
  ℕ, zero, suc, ◌+◌, ◌≤◌, ◌<◌, ◌≡◌, refl, true, false, Option, none, some, [], ◌∷◌, ◌++◌, ◌==◌,
  arith, ◌∙◌,
}
use micbench.Base.Text.{Text, codes, is_digit}
use micbench.Base.Json.{
  Json, Items, Members, null, boolean, number, string, array, object, no_item, item, no_member,
  member, is_numeral, numeral_char, span_numeral, is_blank, skip_blanks, is_plain, string_at,
  expect, bind, beginning, begins_number, read_number, array_of, object_of, read_key, read_value,
  read_items, read_members, read_json, indent, layout, layout_items, layout_members,
}

unfoldable pub AllPlain : Text → Type 0
AllPlain [] = Unit {0}
AllPlain (c ∷ s) = (is_plain c ≡ true) × AllPlain s

unfoldable pub NumeralChars : Text → Type 0
NumeralChars [] = Unit {0}
NumeralChars (c ∷ s) = (numeral_char c ≡ true) × NumeralChars s

unfoldable pub Numeral : Text → Type 0
Numeral t = (is_numeral t ≡ true) × NumeralChars t

-- The strings have no character to escape, and the numbers are numerals.
unfoldable mutual
  pub Readable : Json → Type 0
  Readable null = Unit {0}
  Readable (boolean b) = Unit {0}
  Readable (number t) = Numeral t
  Readable (string s) = AllPlain s
  Readable (array is) = ReadableItems is
  Readable (object ms) = ReadableMembers ms

  pub ReadableItems : Items → Type 0
  ReadableItems no_item = Unit {0}
  ReadableItems (item v is) = Readable v × ReadableItems is

  pub ReadableMembers : Members → Type 0
  ReadableMembers no_member = Unit {0}
  ReadableMembers (member k v ms) = AllPlain k × (Readable v × ReadableMembers ms)

-- the fuel that is enough
unfoldable mutual
  pub size : Json → ℕ
  size null = 1
  size (boolean b) = 1
  size (number t) = 1
  size (string s) = 1
  size (array is) = 1 + size_items is
  size (object ms) = 1 + size_members ms

  pub size_items : Items → ℕ
  size_items no_item = 0
  size_items (item v is) = 1 + (size v + size_items is)

  pub size_members : Members → ℕ
  size_members no_member = 0
  size_members (member k v ms) = 1 + (size v + size_members ms)

-- A text that does not go on with a numeral.
unfoldable pub Stops : Text → Type 0
Stops [] = Unit {0}
Stops (c ∷ s) = numeral_char c ≡ false

span_numeral-append : (t r : Text) → NumeralChars t → Stops r → span_numeral (t ++ r) ≡ (t, r)
unfolding span_numeral NumeralChars Stops
span_numeral-append [] [] v stop = refl
span_numeral-append [] (c ∷ r) v stop = rw stop refl
span_numeral-append (c ∷ t) r v stop = rw (v.0, span_numeral-append t r v.1 stop) refl

string_at-plain : (s r : Text) → AllPlain s → string_at (s ++ b'"' ∷ r) ≡ some (s, r)
unfolding string_at AllPlain
string_at-plain [] r v = refl
string_at-plain (c ∷ s) r v =
    let other : (c == b'"') ≡ false = unfold is_plain in ground (arith, v.0) in
    rw (other, v.0, string_at-plain s r v.1) refl

skip_blanks-indent : (d : ℕ) (r : Text) → skip_blanks (indent d r) ≡ skip_blanks r
unfolding skip_blanks is_blank
skip_blanks-indent zero r = refl
skip_blanks-indent (suc d) r = skip_blanks-indent d r

-- A value begins with a character that is neither a blank nor a closing bracket.
record Head (t : Text) : Type 0 where
  first : ℕ
  rest : Text
  first_lem : t ≡ first ∷ rest
  no_blank : is_blank first ≡ false
  no_bracket : (first == b']') ≡ false

Numeral-Head : (t r : Text) → Numeral t → Head (t ++ r)
unfolding Numeral is_numeral NumeralChars numeral_char is_blank is_digit
Numeral-Head [] r v = cc
Numeral-Head (c ∷ t) r v = record {
  first = c;
  rest = t ++ r;
  first_lem = refl;
  no_blank = ground (arith, v.1.0);
  no_bracket = ground (arith, v.1.0);
}

layout-Head : (d : ℕ) (v : Json) (r : Text) → Readable v → Head (layout d v r)
unfolding layout Readable is_blank
layout-Head d null r h = record {
  first = _;
  rest = _;
  first_lem = refl;
  no_blank = refl;
  no_bracket = refl;
}
layout-Head d (boolean true) r h = record {
  first = _;
  rest = _;
  first_lem = refl;
  no_blank = refl;
  no_bracket = refl;
}
layout-Head d (boolean false) r h = record {
  first = _;
  rest = _;
  first_lem = refl;
  no_blank = refl;
  no_bracket = refl;
}
layout-Head d (number t) r h = Numeral-Head t r h
layout-Head d (string s) r h = record {
  first = _;
  rest = _;
  first_lem = refl;
  no_blank = refl;
  no_bracket = refl;
}
layout-Head d (array is) r h = record {
  first = _;
  rest = _;
  first_lem = refl;
  no_blank = refl;
  no_bracket = refl;
}
layout-Head d (object ms) r h = record {
  first = _;
  rest = _;
  first_lem = refl;
  no_blank = refl;
  no_bracket = refl;
}

-- So an array that begins with it is not empty.
no_bracket-Head : (t : Text) → Head t → expect (codes "]") (skip_blanks t) ≡ none
unfolding skip_blanks expect
no_bracket-Head t h =
    let other : (b']' == h.first) ≡ false = ground (arith, h.no_bracket) in
    rw (h.first_lem, h.no_blank, other) refl

array_of-item :
    (t : Text) → Head t → (is : Items) (r : Text) → array_of t (some (is, r)) ≡ some (array is, r)
array_of-item t h is r = rw (array_of, no_bracket-Head t h) refl

items-Head :
    (d : ℕ) (v : Json) (is : Items) (r : Text) → Readable v → Head (layout_items d (item v is) r)
unfolding layout_items
items-Head d v no_item r h = layout-Head d v r h
items-Head d v (item w is) r h = layout-Head d v (codes ", " ++ layout_items d (item w is) r) h

read_number-Numeral : (t r : Text) → Numeral t → Stops r → read_number (t ++ r) ≡ some (number t, r)
unfolding read_number Numeral
read_number-Numeral t r v stop = rw (span_numeral-append t r v.1 stop, v.0) refl

read_value-number :
    (fuel : ℕ) (t r : Text)
    → Numeral t
    → Stops r
    → read_value (suc fuel) (t ++ r) ≡ some (number t, r)
unfolding read_value Numeral NumeralChars is_numeral skip_blanks
read_value-number fuel [] r v stop = cc
read_value-number fuel (c ∷ t) r v stop =
    let no_blank : is_blank c ≡ false =
      unfold is_blank numeral_char is_digit in ground (arith, v.1.0) in
    let kind : beginning c ≡ begins_number =
      unfold beginning numeral_char is_digit in ground (arith, v.1.0) in
    rw (read_value, no_blank, kind) (read_number-Numeral (c ∷ t) r v stop)

-- Behind a key.
read_key-line :
    (d : ℕ) (k r : Text)
    → AllPlain k
    → read_key (10 ∷ indent d (b'"' ∷ k ++ (codes "\": " ++ r))) ≡ some (k, b' ' ∷ r)
unfolding read_key skip_blanks is_blank expect
read_key-line d k r v =
    rw
      (
        read_key,
        skip_blanks-indent d (b'"' ∷ k ++ (codes "\": " ++ r)),
        string_at-plain k (codes ": " ++ r) v,
      )
      refl

size-pos : (v : Json) → 0 < size v
unfolding size
size-pos null = omega arith
size-pos (boolean b) = omega arith
size-pos (number t) = omega arith
size-pos (string s) = omega arith
size-pos (array is) = omega arith
size-pos (object ms) = omega arith

skip_line :
    (d : ℕ) (c : ℕ) (r : Text) → is_blank c ≡ false → skip_blanks (10 ∷ indent d (c ∷ r)) ≡ c ∷ r
unfolding skip_blanks
skip_line d c r e =
    let start : is_blank 10 ≡ true = unfold is_blank in refl in
    rw start (skip_blanks-indent d (c ∷ r) ∙ rw e refl)

members-line :
    (d : ℕ) (k : Text) (v : Json) (ms : Members) (r : Text)
    → (rest : Text) × (layout_members d (member k v ms) r ≡ 10 ∷ indent d (b'"' ∷ rest))
unfolding layout_members
members-line d k v no_member r = (_, refl)
members-line d k v (member l w ms) r = (_, refl)

-- So an object with members is not empty.
object_of-member :
    (d : ℕ) (k : Text) (v : Json) (ms : Members) (t r : Text)
    → object_of (layout_members d (member k v ms) t) (some (member k v ms, r))
      ≡ some (object (member k v ms), r)
unfolding expect
object_of-member d k v ms t r =
    let (rest, e) = members-line d k v ms t in
    let quote : is_blank b'"' ≡ false = unfold is_blank in refl in
    rw (object_of, e, skip_line d b'"' rest quote) refl

object_of-empty :
    (d : ℕ) (r : Text) (others : Option (Members × Text))
    → object_of (10 ∷ indent d (b'}' ∷ r)) others ≡ some (object no_member, r)
unfolding expect
object_of-empty d r others =
    let brace : is_blank b'}' ≡ false = unfold is_blank in refl in
    rw (object_of, skip_line d b'}' r brace) refl

read_value-blank : (fuel : ℕ) (t : Text) → read_value fuel (b' ' ∷ t) ≡ read_value fuel t
unfolding read_value skip_blanks is_blank
read_value-blank zero t = refl
read_value-blank (suc fuel) t = refl

read_items-blank : (fuel : ℕ) (t : Text) → read_items fuel (b' ' ∷ t) ≡ read_items fuel t
unfolding read_items
read_items-blank zero t = refl
read_items-blank (suc fuel) t = rw (read_items, read_value-blank fuel t) refl

mutual
  unfolding read_value read_items read_members layout layout_items layout_members Readable
      ReadableItems ReadableMembers size size_items size_members Stops skip_blanks is_blank
      beginning expect numeral_char is_digit

  pub read_value-layout :
      (fuel d : ℕ) (v : Json) (r : Text)
      → Readable v
      → Stops r
      → size v ≤ fuel
      → read_value fuel (layout d v r) ≡ some (v, r)
  read_value-layout zero d v r h stop enough = absurd (omega (arith, size-pos v))
  read_value-layout (suc fuel) d null r h stop enough = refl
  read_value-layout (suc fuel) d (boolean true) r h stop enough = refl
  read_value-layout (suc fuel) d (boolean false) r h stop enough = refl
  read_value-layout (suc fuel) d (number t) r h stop enough = read_value-number fuel t r h stop
  read_value-layout (suc fuel) d (string s) r h stop enough =
      rw (read_value, string_at-plain s r h) refl
  read_value-layout (suc fuel) d (array no_item) r h stop enough = refl
  read_value-layout (suc fuel) d (array (item v is)) r h stop enough =
      rw (read_value, read_items-layout fuel d v is r h (omega arith))
        (array_of-item (layout_items d (item v is) (b']' ∷ r)) (items-Head d v is (b']' ∷ r) h.0)
          (item v is) r)
  read_value-layout (suc fuel) d (object no_member) r h stop enough =
      object_of-empty d r (read_members fuel (10 ∷ indent d (b'}' ∷ r)))
  read_value-layout (suc fuel) d (object (member k v ms)) r h stop enough =
      rw (read_value, read_members-layout fuel (suc d) d k v ms r h (omega arith))
        (object_of-member (suc d) k v ms (10 ∷ indent d (b'}' ∷ r)) r)

  read_items-layout :
      (fuel d : ℕ) (v : Json) (is : Items) (r : Text)
      → ReadableItems (item v is)
      → size_items (item v is) ≤ fuel
      → read_items fuel (layout_items d (item v is) (b']' ∷ r)) ≡ some (item v is, r)
  read_items-layout zero d v is r h enough = absurd (omega arith)
  read_items-layout (suc fuel) d v no_item r h enough =
      rw (read_items, read_value-layout fuel d v (b']' ∷ r) h.0 refl (omega arith)) refl
  read_items-layout (suc fuel) d v (item w is) r h enough =
      rw
        (
          read_items,
          read_value-layout fuel d v (codes ", " ++ layout_items d (item w is) (b']' ∷ r)) h.0 refl
              (omega arith),
        )
        (rw
          (
            read_items-blank fuel (layout_items d (item w is) (b']' ∷ r)),
            read_items-layout fuel d w is r h.1 (omega arith),
          )
          refl)

  read_members-layout :
      (fuel d e : ℕ) (k : Text) (v : Json) (ms : Members) (r : Text)
      → ReadableMembers (member k v ms)
      → size_members (member k v ms) ≤ fuel
      → read_members fuel (layout_members d (member k v ms) (10 ∷ indent e (b'}' ∷ r)))
        ≡ some (member k v ms, r)
  read_members-layout zero d e k v ms r h enough = absurd (omega arith)
  read_members-layout (suc fuel) d e k v no_member r h enough =
      let end = 10 ∷ indent e (b'}' ∷ r) in
      rw (read_members, read_key-line d k (layout d v end) h.0)
        (rw
          (
            read_value-blank fuel (layout d v end),
            read_value-layout fuel d v end h.1.0 refl (omega arith),
          )
          (rw (bind, skip_blanks-indent e (b'}' ∷ r)) refl))
  read_members-layout (suc fuel) d e k v (member l w ms) r h enough =
      let others = layout_members d (member l w ms) (10 ∷ indent e (b'}' ∷ r)) in
      rw (read_members, read_key-line d k (layout d v (b',' ∷ others)) h.0)
        (rw
          (
            read_value-blank fuel (layout d v (b',' ∷ others)),
            read_value-layout fuel d v (b',' ∷ others) h.1.0 refl (omega arith),
            read_members-layout fuel d e l w ms r h.1.1 (omega arith),
          )
          refl)

-- Reading a laid out value, with blanks behind it, gives the value.
pub read_json-layout :
    (v : Json) (fuel : ℕ)
    → Readable v
    → size v ≤ fuel
    → read_json fuel (layout 0 v (codes "\n")) ≡ some v
unfolding read_json skip_blanks is_blank
read_json-layout v fuel h enough =
    let stops : Stops (codes "\n") = unfold Stops numeral_char is_digit in refl in
    rw (read_value-layout fuel 0 v (codes "\n") h stops enough) refl

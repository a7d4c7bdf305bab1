-- ===== src/Base/Json.antt =====
-- JSON, to say what a report means: its values, a reader, and the layout in which the reports are
-- printed. The reader takes neither escapes in strings nor exponents in numbers. A number is its
-- numeral.
pub mod RoundTrip
pub mod Numerals
use micbench.Base.{
  ℕ, zero, suc, Bool, true, false, ◌&&◌, ◌||◌, not, Option, none, some, List, [], ◌∷◌, ◌++◌, ltb,
  ◌==◌, if◌then◌else◌,
}
use micbench.Base.Text.{Text, codes, is_digit}

mutual
  pub data Json : Type 0 where
    null : Json
    boolean : Bool → Json
    number : Text → Json
    string : Text → Json
    array : Items → Json
    object : Members → Json

  pub data Items : Type 0 where
    no_item : Items
    item : Json → Items → Items

  pub data Members : Type 0 where
    no_member : Members
    member : (key : Text) → Json → Members → Members

abbrev pub bind : {A B : Type 0} → Option A → (A → Option B) → Option B
bind none k = none
bind (some a) k = k a

-- a numeral: an optional minus, no leading zero, an optional fraction
unfoldable pub some_digits : Text → Bool
some_digits [] = false
some_digits (c ∷ []) = is_digit c
some_digits (c ∷ d ∷ s) = is_digit c && some_digits (d ∷ s)

unfoldable pub ends_numeral : Text → Bool
ends_numeral [] = true
ends_numeral (c ∷ s) = if is_digit c then ends_numeral s else (c == b'.') && some_digits s

unfoldable pub fraction_or_end : Text → Bool
fraction_or_end [] = true
fraction_or_end (c ∷ s) = (c == b'.') && some_digits s

unfoldable pub unsigned_numeral : Text → Bool
unsigned_numeral [] = false
unsigned_numeral (c ∷ s) = if c == b'0' then fraction_or_end s else is_digit c && ends_numeral s

unfoldable pub is_numeral : Text → Bool
is_numeral [] = false
is_numeral (c ∷ s) = if c == b'-' then unsigned_numeral s else unsigned_numeral (c ∷ s)

unfoldable pub numeral_char : ℕ → Bool
numeral_char c = is_digit c || ((c == b'-') || (c == b'.'))

-- The numeral characters at the front, and what follows them.
unfoldable pub span_numeral : Text → Text × Text
span_numeral [] = ([], [])
span_numeral (c ∷ s) =
    let (t, r) = span_numeral s in if numeral_char c then (c ∷ t, r) else ([], c ∷ s)

unfoldable pub is_blank : ℕ → Bool
is_blank c = (c == 32) || ((c == 10) || ((c == 13) || (c == 9)))

unfoldable pub skip_blanks : Text → Text
skip_blanks [] = []
skip_blanks (c ∷ s) = if is_blank c then skip_blanks s else c ∷ s

-- A character of a string as it stands.
unfoldable pub is_plain : ℕ → Bool
is_plain c = not (ltb c 32) && (not (c == b'"') && not (c == 92))

-- The rest of a string behind its quote, and what follows it.
unfoldable pub string_at : Text → Option (Text × Text)
string_at [] = none
string_at (c ∷ s) =
    let rest = bind (string_at s) (λ (t, r). some (c ∷ t, r)) in
    if c == b'"' then some ([], s) else if is_plain c then rest else none

unfoldable pub expect : Text → Text → Option Text
expect [] t = some t
expect (c ∷ k) [] = none
expect (c ∷ k) (d ∷ t) = if c == d then expect k t else none

-- What a character begins.
pub data Begins : Type 0 where
  begins_null : Begins
  begins_true : Begins
  begins_false : Begins
  begins_string : Begins
  begins_array : Begins
  begins_object : Begins
  begins_number : Begins

unfoldable pub beginning : ℕ → Begins
beginning c =
    if c == b'"'
    then begins_string
    else if c == b'['
    then begins_array
    else if c == b'{'
    then begins_object
    else if c == b't'
    then begins_true
    else if c == b'f'
    then begins_false
    else if c == b'n'
    then begins_null
    else begins_number

unfoldable pub read_number : Text → Option (Json × Text)
read_number t = let (n, r) = span_numeral t in if is_numeral n then some (number n, r) else none

-- What follows the bracket of an array or of an object, which may be empty.
abbrev pub array_of : Text → Option (Items × Text) → Option (Json × Text)
array_of t others = elim (expect (codes "]") (skip_blanks t)) [
  | some r ↦ some (array no_item, r)
  | none ↦ bind others λ (is, r). some (array is, r)
]

abbrev pub object_of : Text → Option (Members × Text) → Option (Json × Text)
object_of t others = elim (expect (codes "}") (skip_blanks t)) [
  | some r ↦ some (object no_member, r)
  | none ↦ bind others λ (ms, r). some (object ms, r)
]

unfoldable pub read_key : Text → Option (Text × Text)
read_key t =
    bind (expect (codes "\"") (skip_blanks t))
      λ s. bind (string_at s) λ (k, r). bind (expect (codes ":") (skip_blanks r)) λ r'. some (k, r')

-- The reader, with fuel: a value, the items of an array up to its bracket, and the members of an
-- object likewise.
unfoldable mutual
  pub read_value : (fuel : ℕ) → Text → Option (Json × Text)
  read_value zero t = none
  read_value (suc fuel) t = elim (skip_blanks t) [
    | [] ↦ none
    | c ∷ s ↦ elim (beginning c) [
      | begins_null ↦ bind (expect (codes "ull") s) (λ r. some (null, r))
      | begins_true ↦ bind (expect (codes "rue") s) (λ r. some (boolean true, r))
      | begins_false ↦ bind (expect (codes "alse") s) (λ r. some (boolean false, r))
      | begins_string ↦ bind (string_at s) (λ (k, r). some (string k, r))
      | begins_array ↦ array_of s (read_items fuel s)
      | begins_object ↦ object_of s (read_members fuel s)
      | begins_number ↦ read_number (c ∷ s)
    ]
  ]

  pub read_items : (fuel : ℕ) → Text → Option (Items × Text)
  read_items zero t = none
  read_items (suc fuel) t = bind (read_value fuel t) λ (v, r).
      elim (expect (codes "]") (skip_blanks r)) [
        | some r' ↦ some (item v no_item, r')
        | none ↦
            bind (expect (codes ",") (skip_blanks r))
              λ r'. bind (read_items fuel r') λ (is, end). some (item v is, end)
      ]

  pub read_members : (fuel : ℕ) → Text → Option (Members × Text)
  read_members zero t = none
  read_members (suc fuel) t = bind (read_key t) λ (k, at_value).
      bind (read_value fuel at_value) λ (v, r). elim (expect (codes "}") (skip_blanks r)) [
        | some r' ↦ some (member k v no_member, r')
        | none ↦
            bind (expect (codes ",") (skip_blanks r))
              λ r'. bind (read_members fuel r') λ (ms, end). some (member k v ms, end)
      ]

-- A text is a value, with blanks around it.
unfoldable pub read_json : (fuel : ℕ) → Text → Option Json
read_json fuel t =
    bind (read_value fuel t) λ (v, r). elim (skip_blanks r) [ [] ↦ some v | c ∷ s ↦ none ]

-- The layout of the reports, in front of the text `r`: a member of an object to a line, two blanks
-- deeper than the object, and the items of an array in one line.
abbrev pub indent : ℕ → Text → Text
indent zero r = r
indent (suc d) r = b' ' ∷ b' ' ∷ indent d r

unfoldable mutual
  pub layout : (depth : ℕ) → Json → Text → Text
  layout d null r = codes "null" ++ r
  layout d (boolean true) r = codes "true" ++ r
  layout d (boolean false) r = codes "false" ++ r
  layout d (number n) r = n ++ r
  layout d (string s) r = b'"' ∷ s ++ b'"' ∷ r
  layout d (array is) r = b'[' ∷ layout_items d is (b']' ∷ r)
  layout d (object ms) r = b'{' ∷ layout_members (suc d) ms (10 ∷ indent d (b'}' ∷ r))

  pub layout_items : (depth : ℕ) → Items → Text → Text
  layout_items d no_item r = r
  layout_items d (item v no_item) r = layout d v r
  layout_items d (item v (item w is)) r = layout d v (codes ", " ++ layout_items d (item w is) r)

  pub layout_members : (depth : ℕ) → Members → Text → Text
  layout_members d no_member r = r
  layout_members d (member k v no_member) r =
      10 ∷ indent d (b'"' ∷ k ++ (codes "\": " ++ layout d v r))
  layout_members d (member k v (member l w ms)) r =
      10
      ∷ indent d
          (b'"' ∷ k ++ (codes "\": " ++ layout d v (b',' ∷ layout_members d (member l w ms) r)))

-- ===== src/Base/Text.antt =====
-- Text as the bytes before its NUL, strtol(3) with base 10, and the `%d` of printf(3).
pub mod Decimal
use Prim.Native.Char.{code}
use Prim.Native.String.{String}
use Prim.Native.String
use micbench.Base.{
  ℕ, zero, suc, ◌+◌, ◌-◌, ◌*◌, ◌/◌, ◌%◌, ◌^◌, ◌≡◌, refl, Bool, true, false, ◌&&◌, ◌||◌, List, [],
  ◌∷◌, ◌++◌, arith, ltb, leb, ◌==◌, if◌then◌else◌, length, min,
}
use micbench.Base.Int.{ℤ, pos, negsuc, ltb_ℤ}

abbrev pub Text : Type 0
Text = List ℕ

abbrev pub codes : String → Text
codes String.[] = []
codes (String.◌∷◌ c s) = code c ∷ codes s

-- strcmp(3) == 0
unfoldable pub text_eq : Text → Text → Bool
text_eq [] [] = true
text_eq [] (d ∷ t) = false
text_eq (c ∷ s) [] = false
text_eq (c ∷ s) (d ∷ t) = (c == d) && text_eq s t

unfoldable pub is_digit : ℕ → Bool
is_digit c = leb b'0' c && leb c b'9'

is_space : ℕ → Bool
is_space c = (c == 32) || (leb 9 c && leb c 13)

-- The digits at the front: their value after `acc`, and what follows them.
unfoldable pub scan_digits : ℕ → Text → ℕ × Text
scan_digits acc [] = (acc, [])
scan_digits acc (c ∷ s) = if is_digit c then scan_digits (acc * 10 + (c - b'0')) s else (acc, c ∷ s)

unfoldable pub skip_space : Text → Text
unfolding is_space
skip_space [] = []
skip_space (c ∷ s) = if is_space c then skip_space s else c ∷ s

abbrev pub long_max : ℕ
long_max = 2 ^ 63 - 1

-- The value is held within the range of a long.
abbrev pub long_of : Bool → ℕ → ℤ
long_of false n = pos (min n long_max)
long_of true zero = pos 0
long_of true (suc n) = negsuc (min n long_max)

-- The number after an optional sign; without a digit nothing is consumed.
unfoldable pub number_at : (whole : Text) (negative : Bool) → Text → ℤ × Text
number_at whole negative [] = (pos 0, whole)
number_at whole negative (c ∷ s) =
    let (n, rest) = scan_digits 0 (c ∷ s) in
    if is_digit c then (long_of negative n, rest) else (pos 0, whole)

unfoldable pub signed_at : (whole : Text) → Text → ℤ × Text
signed_at whole [] = (pos 0, whole)
signed_at whole (c ∷ s) =
    if c == b'-'
    then number_at whole true s
    else if c == b'+'
    then number_at whole false s
    else number_at whole false (c ∷ s)

-- strtol(s, &end, 10): the value, and the text at `end`.
unfoldable pub strtol : Text → ℤ × Text
unfolding number_at signed_at
strtol s = signed_at s (skip_space s)

-- `%d` of a number that is not negative, the fuel a bound above it.
unfoldable pub show_digits : ℕ → ℕ → Text
show_digits zero n = []
show_digits (suc fuel) n =
    let front = show_digits fuel (n / 10) in
    if ltb n 10 then (b'0' + n) ∷ [] else front ++ (b'0' + n % 10) ∷ []

unfoldable pub show_nat : ℕ → Text
unfolding show_digits
show_nat n = show_digits (suc n) n

-- `%d`
unfoldable pub show_int : ℤ → Text
show_int (pos n) = show_nat n
show_int (negsuc n) = b'-' ∷ show_nat (suc n)

-- The value that an unsigned int takes when a long is stored in it.
unfoldable pub to_unsigned : ℤ → ℕ
to_unsigned (pos n) = n % 2 ^ 32
to_unsigned (negsuc n) = 2 ^ 32 - 1 - n % 2 ^ 32

-- the int that has the bits of `w`
abbrev pub signed32 : ℕ → ℤ
signed32 w = if ltb w (2 ^ 31) then pos w else negsuc (2 ^ 32 - 1 - w)

-- The value that an int takes when a long is stored in it.
unfoldable pub to_int : ℤ → ℤ
unfolding to_unsigned
to_int z = signed32 (to_unsigned z)

strtol_runs : ◌≡◌ {A = ℤ × Text} (strtol (codes " -42:x")) (negsuc 41, codes ":x")
unfolding strtol scan_digits is_digit skip_space
strtol_runs = refl

to_int_wraps : to_int (pos (2 ^ 32 + 3)) ≡ pos 3
unfolding to_int
to_int_wraps = refl

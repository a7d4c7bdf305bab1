-- ===== src/Base/Json/Numerals.antt =====
-- `%d` prints numerals of JSON.
use micbench.Base.{
  ℕ, zero, suc, ◌+◌, ◌/◌, ◌%◌, ◌≤◌, ◌<◌, ◌≡◌, refl, true, false, [], ◌∷◌, ◌++◌, ltb, ◌==◌, arith,
  ap, sym, subst, Bool-cases, inl, inr,
}
use micbench.Base.Int.{ℤ, pos, negsuc}
use micbench.Base.Text.{Text, is_digit, show_digits, show_nat, show_int}
use micbench.Base.Text.Decimal.{Digits, Digits-append, show_digits-Digits}
use micbench.Base.Json.{ends_numeral, fraction_or_end, unsigned_numeral, is_numeral, numeral_char}
use micbench.Base.Json.RoundTrip.{NumeralChars, Numeral}

-- The digits of a positive number: the first is not 0.
record Leads (t : Text) : Type 0 where
  first : ℕ
  rest : Text
  whole : t ≡ first ∷ rest
  above : b'0' < first
  below : first ≤ b'9'
  digits : Digits rest

show_digits-Leads : (fuel n : ℕ) → n < fuel → 0 < n → Leads (show_digits fuel n)
unfolding show_digits
show_digits-Leads zero n lt some_digit = absurd (omega arith)
show_digits-Leads (suc fuel) n lt some_digit = elim (Bool-cases (ltb n 10)) [
  | inl small ↦ rw small (record {
    first = b'0' + n;
    rest = [];
    whole = refl;
    above = omega arith;
    below = ground arith;
    digits = tt;
  })
  | inr big ↦
      let front = show_digits-Leads fuel (n / 10) (ground arith) (ground arith) in
      rw big (record {
        first = front.first;
        rest = front.rest ++ (b'0' + n % 10) ∷ [];
        whole = ap (λ t. t ++ (b'0' + n % 10) ∷ []) front.whole;
        above = front.above;
        below = front.below;
        digits = Digits-append front.rest _ front.digits (omega arith);
      })
]

ends_numeral-Digits : (t : Text) → Digits t → ends_numeral t ≡ true
unfolding ends_numeral is_digit
ends_numeral-Digits [] ds = refl
ends_numeral-Digits (c ∷ t) (lo, hi, ds) = ground (arith, ends_numeral-Digits t ds)

Digits-NumeralChars : (t : Text) → Digits t → NumeralChars t
unfolding NumeralChars numeral_char is_digit
Digits-NumeralChars [] ds = tt
Digits-NumeralChars (c ∷ t) (lo, hi, ds) = (ground arith, Digits-NumeralChars t ds)

unsigned_numeral-Leads : (t : Text) → Leads t → unsigned_numeral t ≡ true
unfolding unsigned_numeral
unsigned_numeral-Leads t h =
    let zero_first : (h.first == b'0') ≡ false = ground (arith, h.above) in
    let digit : is_digit h.first ≡ true = unfold is_digit in ground (arith, h.above, h.below) in
    rw (h.whole, zero_first, digit, ends_numeral-Digits h.rest h.digits) refl

positive-Numeral : (n : ℕ) → 0 < n → Numeral (show_nat n) × Numeral (b'-' ∷ show_nat n)
unfolding show_nat Numeral is_numeral NumeralChars numeral_char is_digit
positive-Numeral n some_digit =
    let t = show_digits (suc n) n in
    let h = show_digits-Leads (suc n) n (omega arith) some_digit in
    let chars = Digits-NumeralChars t (show_digits-Digits (suc n) n) in
    let good = unsigned_numeral-Leads t h in
    let no_minus : (h.first == b'-') ≡ false = ground (arith, h.above) in
    let plain : is_numeral t ≡ true =
      subst (λ s. is_numeral s ≡ true) (sym h.whole)
        (rw no_minus (subst (λ s. unsigned_numeral s ≡ true) h.whole good)) in
    ((plain, chars), (good, (refl, chars)))

pub show_int-Numeral : (z : ℤ) → Numeral (show_int z)
unfolding show_int
show_int-Numeral (pos zero) =
    unfold Numeral is_numeral NumeralChars numeral_char is_digit show_nat show_digits
      unsigned_numeral fraction_or_end in
    (refl, (refl, tt))
show_int-Numeral (pos (suc n)) = (positive-Numeral (suc n) (omega arith)).0
show_int-Numeral (negsuc n) = (positive-Numeral (suc n) (omega arith)).1

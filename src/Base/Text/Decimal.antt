-- ===== src/Base/Text/Decimal.antt =====
-- Decimal numbers: `%d` of printf(3), and strtol(3).
use micbench.Base.{
  ℕ, zero, suc, ◌+◌, ◌-◌, ◌*◌, ◌/◌, ◌%◌, ◌≤◌, ◌<◌, ◌≡◌, refl, true, false, [], ◌∷◌, ◌++◌, arith,
  ltb, ◌==◌, length, Bool-cases, inl, inr, min, subst, sym, ap, ◌∙◌,
}
use micbench.Base.Int.{pos}
use micbench.Base.Text.{
  Text, is_digit, scan_digits, show_digits, show_nat, strtol, skip_space, long_max,
}

-- Every byte is a digit.
abbrev pub Digits : Text → Type 0
Digits [] = Unit {0}
Digits (c ∷ s) = (b'0' ≤ c) × (c ≤ b'9') × Digits s

abbrev pub value : ℕ → Text → ℕ
value acc [] = acc
value acc (c ∷ s) = value (acc * 10 + (c - b'0')) s

value-append : (acc : ℕ) (s t : Text) → value acc (s ++ t) ≡ value (value acc s) t
value-append acc [] t = refl
value-append acc (c ∷ s) t = value-append (acc * 10 + (c - b'0')) s t

pub Digits-append : (s t : Text) → Digits s → Digits t → Digits (s ++ t)
Digits-append [] t a b = b
Digits-append (c ∷ s) t (lo, hi, a) b = (lo, hi, Digits-append s t a b)

pub show_digits-Digits : (fuel n : ℕ) → Digits (show_digits fuel n)
unfolding show_digits
show_digits-Digits zero n = tt
show_digits-Digits (suc fuel) n = elim (Bool-cases (ltb n 10)) [
  | inl small ↦ rw small (omega arith, ground arith, tt)
  | inr big ↦ rw big (Digits-append _ _ (show_digits-Digits fuel (n / 10)) (omega arith))
]

value-show_digits : (fuel n : ℕ) → n < fuel → value 0 (show_digits fuel n) ≡ n
unfolding show_digits
value-show_digits zero n lt = absurd (omega arith)
value-show_digits (suc fuel) n lt = elim (Bool-cases (ltb n 10)) [
  | inl small ↦ rw small (omega arith)
  | inr big ↦
      rw (big, value-append)
        (let ih = value-show_digits fuel (n / 10) (ground arith) in omega arith)
]

-- A text that does not begin with a digit.
abbrev pub NoDigit : Text → Type 0
NoDigit [] = Unit {0}
NoDigit (c ∷ s) = is_digit c ≡ false

scan_digits-append :
    (acc : ℕ) (s t : Text) → Digits s → NoDigit t → scan_digits acc (s ++ t) ≡ (value acc s, t)
unfolding scan_digits is_digit
scan_digits-append acc [] [] ds stop = refl
scan_digits-append acc [] (c ∷ t) ds stop = rw stop
scan_digits-append acc (c ∷ s) t (lo, hi, ds) stop =
    ground (arith, scan_digits-append (acc * 10 + (c - b'0')) s t ds stop)

strtol-Digits :
    (c : ℕ) (s t : Text)
    → Digits (c ∷ s)
    → NoDigit t
    → value 0 (c ∷ s) ≤ long_max
    → strtol (c ∷ s ++ t) ≡ (pos (value 0 (c ∷ s)), t)
strtol-Digits c s t ds stop fits =
    let scan = scan_digits-append 0 (c ∷ s) t ds stop in
    let space : skip_space (c ∷ s ++ t) ≡ c ∷ s ++ t = unfold skip_space is_digit in ground arith in
    let digit : is_digit c ≡ true = unfold is_digit in ground arith in
    let held : min (value 0 (c ∷ s)) long_max ≡ value 0 (c ∷ s) = omega arith in
    let minus : (c == b'-') ≡ false = ground arith in
    let plus : (c == b'+') ≡ false = ground arith in
    unfold strtol in rw (space, minus, plus, scan, digit, held)

show_digits-cons : (fuel n : ℕ) → (c : ℕ) × (s : Text) × (show_digits (suc fuel) n ≡ c ∷ s)
unfolding show_digits
show_digits-cons zero n = elim (Bool-cases (ltb n 10)) [
  | inl small ↦ (b'0' + n, [], rw small)
  | inr big ↦ (b'0' + n % 10, [], rw big)
]
show_digits-cons (suc fuel) n = elim (Bool-cases (ltb n 10)) [
  | inl small ↦ (b'0' + n, [], rw small)
  | inr big ↦
      let (c, s, e) = show_digits-cons fuel (n / 10) in (c, s ++ (b'0' + n % 10) ∷ [], rw (big, e))
]

-- strtol(3) reads back a printed number, up to the first byte that is no digit.
pub strtol-show_nat :
    (n : ℕ) (t : Text) → n ≤ long_max → NoDigit t → strtol (show_nat n ++ t) ≡ (pos n, t)
unfolding show_nat
strtol-show_nat n t fits stop =
    let (c, s, e) = show_digits-cons n n in
    let ds : Digits (c ∷ s) = subst Digits e (show_digits-Digits (suc n) n) in
    let v : value 0 (c ∷ s) ≡ n =
      ap (value 0) (sym e) ∙ value-show_digits (suc n) n (omega arith) in
    rw e (strtol-Digits c s t ds stop (omega arith) ∙ ap (λ k. (pos k, t)) v)

-- A printed number is not empty.
pub length-show_nat : (n : ℕ) → 0 < length (show_nat n)
unfolding show_nat
length-show_nat n = let (c, s, e) = show_digits-cons n n in rw e (omega arith)

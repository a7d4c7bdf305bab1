-- ===== src/Io/Count.antt =====
-- How often a pointer stands in a list.
use micbench.Base.{
  ℕ, zero, suc, ◌+◌, ◌<◌, ◌≡◌, refl, List, [], ◌∷◌, ◌++◌, ◌==◌, if◌then◌else◌, arith, length, set,
  take, ap,
}
use micbench.ResPool.{Ptr}

abbrev pub count : Ptr → List Ptr → ℕ
count p [] = 0
count p (q ∷ qs) = (if q == p then 1 else 0) + count p qs

pub count-append : (p : Ptr) (xs ys : List Ptr) → count p (xs ++ ys) ≡ count p xs + count p ys
count-append p [] ys = omega arith
count-append p (x ∷ xs) ys = omega (arith, count-append p xs ys)

pub count_self : (p : Ptr) (xs : List Ptr) → count p (p ∷ xs) ≡ suc (count p xs)
count_self p xs = ground arith

pub count-none : (p : Ptr) (xs : List Ptr) → length xs ≡ 0 → count p xs ≡ 0
count-none p [] e = refl
count-none p (x ∷ xs) e = absurd (omega arith)

pub count-take_none : (p : Ptr) (n : ℕ) (xs : List Ptr) → n ≡ 0 → count p (take n xs) ≡ 0
count-take_none p zero xs e = refl
count-take_none p (suc n) xs e = absurd (omega arith)

pub take-set :
    (n : ℕ) (xs : List Ptr) (p : Ptr)
    → n < length xs
    → take (suc n) (set xs n p) ≡ take n xs ++ p ∷ []
take-set n [] p lt = absurd (omega arith)
take-set zero (x ∷ xs) p lt = refl
take-set (suc n) (x ∷ xs) p lt = ap (λ ys. x ∷ ys) (take-set n xs p (omega arith))

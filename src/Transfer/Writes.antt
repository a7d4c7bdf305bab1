-- ===== src/Transfer/Writes.antt =====
-- How the loop of `mb_writeall` ends.
use micbench.Base.{
  ℕ, zero, suc, ◌-◌, ◌≤◌, ◌<◌, ◌≡◌, refl, Bool, List, [], ◌∷◌, ◌++◌, arith, length, take, drop,
  length-drop, take-append-drop, ltb, Bool-cases, inl, inr, ap, ◌∙◌,
}
use mathlib.Core.List.{append_assoc}
use micbench.Base.Text.{Text}
use micbench.Transfer.{Write, failed, took, returned, writeall}

-- As long as bytes are left, each call takes at least one, and no more than it is given.
abbrev pub Accepts : ℕ → List Write → Type 0
Accepts zero rs = Unit {0}
Accepts (suc m) [] = Unit {0}
Accepts (suc m) (failed ∷ rs) = ⊥
Accepts (suc m) (took n ∷ rs) = (0 < n) × (n ≤ suc m) × Accepts (suc m - n) rs

take-all : (n : ℕ) (s : Text) → length s ≤ n → take n s ≡ s
take-all zero [] h = refl
take-all zero (c ∷ s) h = absurd (omega arith)
take-all (suc n) [] h = refl
take-all (suc n) (c ∷ s) h = ap (λ t. c ∷ t) (take-all n s (omega arith))

-- If, as long as bytes are left, each call takes one or more, then within as many calls as there are
-- bytes `mb_writeall` returns, and the calls took the buffer's bytes, each once and in order.
pub writeall-returns :
    (c : Bool) (buf out : Text) (rs : List Write)
    → 0 < length buf
    → Accepts (length buf) rs
    → length buf ≤ length rs
    → writeall c buf out rs ≡ returned (out ++ buf)
unfolding writeall
writeall-returns c [] out rs pos ok enough = absurd (omega arith)
writeall-returns c (b ∷ bs) out [] pos ok enough = absurd (omega arith)
writeall-returns c (b ∷ bs) out (failed ∷ rs) pos ok enough = absurd ok
writeall-returns c (b ∷ bs) out (took n ∷ rs) pos (some_bytes, fits, ok) enough =
    let buf : Text = b ∷ bs in
    elim (Bool-cases (ltb n (length buf))) [
      | inl short ↦
          let len = length-drop n buf in
          rw short (
            writeall-returns c (drop n buf) (out ++ take n buf) rs (ground arith) (rw len ok)
              (omega arith)
            ∙ ap returned (
                append_assoc out (take n buf) (drop n buf)
                ∙ ap (λ t. out ++ t) (take-append-drop n buf)))
      | inr all ↦ rw (all, take-all n buf (ground arith))
    ]

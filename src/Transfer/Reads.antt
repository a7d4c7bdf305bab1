-- ===== src/Transfer/Reads.antt =====
-- How the loop of `mb_readall` ends.
use micbench.Base.{
  ℕ, zero, suc, ◌-◌, ◌^◌, ◌≤◌, ◌<◌, ◌≡◌, refl, Bool, true, false, List, [], ◌∷◌, ◌++◌, arith,
  length, replicate, length-append, ltb, if◌then◌else◌, Bool-cases, inl, inr, ap, ◌∙◌,
}
use mathlib.Core.List.{append_assoc, append-nil}
use micbench.Base.Text.{Text}
use micbench.Transfer.{Read, failed, got, returned, exited, running, readall}

-- As long as bytes are asked for, each call stores at least one, and no more than are asked for.
abbrev pub Chunks : ℕ → List Read → Type 0
Chunks zero rs = Unit {0}
Chunks (suc n) [] = Unit {0}
Chunks (suc n) (failed ∷ rs) = ⊥
Chunks (suc n) (got bs ∷ rs) = (0 < length bs) × (length bs ≤ suc n) × Chunks (suc n - length bs) rs

-- all that the calls stored
abbrev pub stream : List Read → Text
stream [] = []
stream (failed ∷ rs) = stream rs
stream (got bs ∷ rs) = bs ++ stream rs

-- If, as long as bytes are asked for, each call stores one or more and none more than are asked for,
-- then within as many calls as there are bytes `mb_readall` returns, and it has stored exactly as many
-- bytes as were asked for behind those that were there.
pub readall-returns :
    (c : Bool) (sz : ℕ) (buf : Text) (rs : List Read)
    → 0 < sz
    → Chunks sz rs
    → sz ≤ length rs
    → (full : Text) × (readall c sz buf rs ≡ returned (buf ++ full)) × (length full ≡ sz)
unfolding readall
readall-returns c zero buf rs pos ch enough = absurd (omega arith)
readall-returns c (suc n) buf [] pos ch enough = absurd (omega arith)
readall-returns c (suc n) buf (failed ∷ rs) pos ch enough = absurd ch
readall-returns c (suc n) buf (got bs ∷ rs) pos (some_bytes, fits, ch) enough =
    elim (Bool-cases (ltb (length bs) (suc n))) [
      | inl short ↦
          let (full, e, len) =
            readall-returns c (suc n - length bs) (buf ++ bs) rs (ground arith) ch (omega arith) in
          (
            bs ++ full,
            rw short (e ∙ ap returned (append_assoc buf bs full)),
            omega (arith, length-append bs full),
          )
      | inr all ↦ (bs, rw all, ground arith)
    ]

-- At the end of the file read(2) stores nothing, and `mb_readall` goes on for ever: however many
-- such calls it has made, it asks for the same bytes again.
pub readall-end_of_file :
    (c : Bool) (sz : ℕ) (buf : Text) (n : ℕ)
    → 0 < sz
    → readall c sz buf (replicate n (got [])) ≡ running sz buf
unfolding readall
readall-end_of_file c sz buf zero pos = refl
readall-end_of_file c sz buf (suc n) pos =
    let short : ltb 0 sz ≡ true = ground arith in
    let e : sz - 0 ≡ sz = omega arith in
    rw (short, e, append-nil) (readall-end_of_file c sz buf n pos)

-- A failed call ends the loop at once: the process exits, or, if errors are passed over, the
-- function returns with what the calls before it stored.
readall-failed :
    (c : Bool) (sz : ℕ) (buf : Text) (rs : List Read)
    → sz < 2 ^ 64
    → readall c sz buf (failed ∷ rs) ≡ (if c then returned buf else exited)
unfolding readall
readall-failed true sz buf rs small =
    let long : ltb (2 ^ 64 - 1) sz ≡ false = ground arith in rw (long, append-nil)
readall-failed false sz buf rs small = refl

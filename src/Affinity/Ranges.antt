-- ===== src/Affinity/Ranges.antt =====
-- What `__mb_bits_to_string` writes: the runs of set bits that a clear bit ends.
use mathlib.Core.Bool.{false≢true}
use micbench.Base.{
  ℕ, zero, suc, ◌+◌, ◌-◌, ◌≤◌, ◌<◌, ◌≡◌, refl, Bool, true, false, ◌&&◌, ◌||◌, some, none, Option,
  List, [], ◌∷◌, ◌++◌, arith, ltb, leb, Bool-cases, Option-cases, inl, inr, ℕ_discrete, subst, sym,
  ap, ◌∙◌, if◌then◌else◌,
}
use micbench.Base.Text.{Text}
use micbench.Affinity.{Bits, Scan, scan_bit, scan_bits, bits_to_string, print_run, append_item}

-- The finished runs, oldest first, with the start of the open one; the same scan, on numbers.
pub record Runs : Type 0 where
  pub open_at : Option ℕ
  pub runs : List (ℕ × ℕ)

abbrev pub runs_bit : Bits → ℕ → Runs → Runs
runs_bit bits i r = elim r.open_at [
  | none ↦ if bits i then record r { open_at = some i } else r
  | some start ↦
      if bits i then r else record { open_at = none; runs = r.runs ++ (start, i - 1) ∷ [] }
]

abbrev pub covers : ℕ × ℕ → ℕ → Bool
covers (start, end) j = leb start j && leb j end

abbrev pub covered : List (ℕ × ℕ) → ℕ → Bool
covered [] j = false
covered (r ∷ rs) j = covers r j || covered rs j

abbrev pub runs_bits : Bits → ℕ → ℕ → Runs → Runs
runs_bits bits zero i r = r
runs_bits bits (suc n) i r = runs_bits bits n (i + 1) (runs_bit bits i r)

-- `a,b-c,d`
abbrev pub join_runs : Text → List (ℕ × ℕ) → Text
join_runs acc [] = acc
join_runs acc ((start, end) ∷ rs) = join_runs (append_item acc (print_run start end)) rs

join_runs-append :
    (acc : Text) (rs : List (ℕ × ℕ)) (start end : ℕ)
    → join_runs acc (rs ++ (start, end) ∷ []) ≡ append_item (join_runs acc rs) (print_run start end)
join_runs-append acc [] start end = refl
join_runs-append acc ((a, b) ∷ rs) start end =
    join_runs-append (append_item acc (print_run a b)) rs start end

-- The text scan and the scan on numbers, side by side.
abbrev Same : Scan → Runs → Type 0
Same s r = (s.start_idx ≡ r.open_at) × (s.ret ≡ join_runs [] r.runs)

Same-bit :
    (bits : Bits) (i : ℕ) (s : Scan) (r : Runs)
    → Same s r
    → Same (scan_bit bits i s) (runs_bit bits i r)
unfolding scan_bit
Same-bit bits i s r (e, f) = elim (Option-cases r.open_at) [
  | inl h ↦ ground arith
  | inr (start, h) ↦ ground (arith, join_runs-append [] r.runs start (i - 1))
]

Same-bits :
    (bits : Bits) (n i : ℕ) (s : Scan) (r : Runs)
    → Same s r
    → Same (scan_bits bits n i s) (runs_bits bits n i r)
unfolding scan_bits
Same-bits bits zero i s r h = h
Same-bits bits (suc n) i s r h = Same-bits bits n (i + 1) _ _ (Same-bit bits i s r h)

-- the bits of the open run, at the bit `i`
abbrev open_covers : Option ℕ → ℕ → ℕ → Bool
open_covers none i j = false
open_covers (some start) i j = leb start j && ltb j i

abbrev Before : Option ℕ → ℕ → Type 0
Before none i = Unit {0}
Before (some start) i = start < i

-- Of the bits below `i`, the finished runs and the open one hold those that are set. A run stays
-- open as long as bits are set.
record Scanned (bits : Bits) (i : ℕ) (r : Runs) : Type 0 where
  exact : (j : ℕ) → (covered r.runs j || open_covers r.open_at i j) ≡ (ltb j i && bits j)
  begun : Before r.open_at i
  held : bits (i - 1) ≡ false → r.open_at ≡ none

covered-append :
    (rs : List (ℕ × ℕ)) (r : ℕ × ℕ) (j : ℕ)
    → covered (rs ++ r ∷ []) j ≡ (covered rs j || covers r j)
covered-append [] r j = ground arith
covered-append (s ∷ rs) r j = ground (arith, covered-append rs r j)

Scanned-bit :
    (bits : Bits) (i : ℕ) (o : Option ℕ) (rs : List (ℕ × ℕ))
    → Scanned bits i (record { open_at = o; runs = rs })
    → Scanned bits (i + 1) (runs_bit bits i (record { open_at = o; runs = rs }))
Scanned-bit bits i none rs v = elim (Bool-cases (bits i)) [
  | inl set ↦ rw set (record {
    exact = λ j. elim (ℕ_discrete j i) [
      | yes e ↦ rw e (ground (arith, v.exact i))
      | no ne ↦ ground (arith, v.exact j)
    ];
    begun = omega arith;
    held = λ low.
        let e : i + 1 - 1 ≡ i = omega arith in absurd (false≢true (sym low ∙ ap bits e ∙ set));
  })
  | inr clear ↦ rw clear (record {
    exact = λ j. elim (ℕ_discrete j i) [
      | yes e ↦ rw e (ground (arith, v.exact i))
      | no ne ↦ ground (arith, v.exact j)
    ];
    begun = omega arith;
    held = λ _. refl;
  })
]
Scanned-bit bits i (some start) rs v = elim (Bool-cases (bits i)) [
  | inl set ↦ rw set (record {
    exact = λ j. elim (ℕ_discrete j i) [
      | yes e ↦ rw e (ground (arith, v.exact i))
      | no ne ↦ ground (arith, v.exact j)
    ];
    begun = omega arith;
    held = λ low.
        let e : i + 1 - 1 ≡ i = omega arith in absurd (false≢true (sym low ∙ ap bits e ∙ set));
  })
  | inr clear ↦ rw clear (record {
    exact = λ j. elim (ℕ_discrete j i) [
      | yes e ↦ rw e (ground (arith, v.exact i, covered-append rs (start, i - 1) i))
      | no ne ↦ ground (arith, v.exact j, covered-append rs (start, i - 1) j)
    ];
    begun = omega arith;
    held = λ _. refl;
  })
]

Scanned-bits :
    (bits : Bits) (n i : ℕ) (r : Runs)
    → Scanned bits i r
    → Scanned bits (i + n) (runs_bits bits n i r)
Scanned-bits bits zero i r v = let e : i + 0 ≡ i = omega arith in rw e v
Scanned-bits bits (suc n) i r v =
    let e : i + suc n ≡ i + 1 + n = omega arith in
    rw e (Scanned-bits bits n (i + 1) _ (Scanned-bit bits i r.open_at r.runs v))

abbrev empty : Runs
empty = record { open_at = none; runs = [] }

-- If the last bit of the mask is clear, `__mb_bits_to_string` writes ranges that cover the set bits
-- and no others.
pub bits_to_string-runs :
    (bits : Bits) (nbits : ℕ)
    → bits (nbits - 1) ≡ false
    → (rs : List (ℕ × ℕ)) × (bits_to_string bits nbits ≡ join_runs [] rs)
      × ((j : ℕ) → covered rs j ≡ (ltb j nbits && bits j))
unfolding bits_to_string
bits_to_string-runs bits nbits last =
    let start : Scanned bits 0 empty = record {
      exact = λ j. ground arith;
      begun = tt;
      held = λ _. refl;
    } in
    let e : 0 + nbits ≡ nbits = omega arith in
    let v =
      subst (λ n. Scanned bits n (runs_bits bits nbits 0 empty)) e
        (Scanned-bits bits nbits 0 empty start) in
    let same = Same-bits bits nbits 0 (record { start_idx = none; ret = [] }) empty (refl, refl) in
    ((runs_bits bits nbits 0 empty).runs, same.1, λ j. ground (arith, v.exact j, v.held last))

ret-set :
    (bits : Bits) (n i : ℕ) (s : Scan)
    → ((j : ℕ) → i ≤ j → j < i + n → bits j ≡ true)
    → (scan_bits bits n i s).ret ≡ s.ret
unfolding scan_bits scan_bit
ret-set bits zero i s set = refl
ret-set bits (suc n) i s set =
    let here = set i (omega arith) (omega arith) in
    ret-set bits n (i + 1) (scan_bit bits i s) (λ j lo hi. set j (omega arith) (omega arith))
    ∙ ground arith

scan_bits-add :
    (bits : Bits) (m n i : ℕ) (s : Scan)
    → scan_bits bits (m + n) i s ≡ scan_bits bits n (i + m) (scan_bits bits m i s)
unfolding scan_bits
scan_bits-add bits zero n i s =
    let e : 0 + n ≡ n = omega arith in let f : i + 0 ≡ i = omega arith in rw (e, f)
scan_bits-add bits (suc m) n i s =
    let e : suc m + n ≡ suc (m + n) = omega arith in
    let f : i + suc m ≡ i + 1 + m = omega arith in
    rw (e, f) (scan_bits-add bits m n (i + 1) (scan_bit bits i s))

-- A run of set bits that reaches the end of the mask is left out: the text is that of the bits
-- before it.
pub bits_to_string-last_run :
    (bits : Bits) (start n : ℕ)
    → ((j : ℕ) → start ≤ j → j < start + n → bits j ≡ true)
    → bits_to_string bits (start + n) ≡ bits_to_string bits start
unfolding bits_to_string
bits_to_string-last_run bits start n set =
    let s : Scan = record { start_idx = none; ret = [] } in
    let e : 0 + start ≡ start = omega arith in
    ap (λ (t : Scan). t.ret) (scan_bits-add bits start n 0 s)
    ∙ ap (λ k. (scan_bits bits n k (scan_bits bits start 0 s)).ret) e
    ∙ ret-set bits n start (scan_bits bits start 0 s) set

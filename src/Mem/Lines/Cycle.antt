-- ===== src/Mem/Lines/Cycle.antt =====
-- The area as one cycle through all its cache lines, and what a try of the shuffle makes of it.
use micbench.Base.{
  ℕ, suc, ◌+◌, ◌*◌, ◌≤◌, ◌<◌, ◌≡◌, ◌≢◌, refl, true, false, ◌==◌, arith, ok, ltb, ap, sym, ◌∙◌, ◌/◌,
  ℕ_discrete,
}
use micbench.Mem.Lines.{Longs, load, attempt}
use micbench.Mem.Lines.Swap.{swapped, swapped_twice, exchanged, exchange-ok, exchanged-swapped}

-- `spot` walks round a cycle of `n` lines, of which `at` finds each.
pub record IsCycle (n : ℕ) (h : Longs) : Type 0 where
  pub spot : ℕ → ℕ
  pub at : ℕ → ℕ
  pub linked : (k : ℕ) → h (spot k) ≡ spot (suc k)
  pub period : (k : ℕ) → spot (n + k) ≡ spot k
  pub distinct : (k l : ℕ) → k < l → l < n + k → spot k ≢ spot l
  pub before : (k l : ℕ) → spot (suc k) ≡ spot (suc l) → spot k ≡ spot l
  pub found : (i : ℕ) → i < n → spot (at i) ≡ i * 8
  pub line : (k : ℕ) → (i : ℕ) × (i < n) × (spot k ≡ i * 8)

swapped-injective : (x y p q : ℕ) → swapped x y p ≡ swapped x y q → p ≡ q
swapped-injective x y p q e = sym (swapped_twice x y p) ∙ ap (swapped x y) e ∙ swapped_twice x y q

swapped-either : (P : ℕ → Type 0) (x y p : ℕ) → P x → P y → P p → P (swapped x y p)
unfolding swapped
swapped-either P x y p hx hy hp = elim (ℕ_discrete p x) [
  | yes e ↦ let t : (p == x) ≡ true = ground arith in rw t hy
  | no ne ↦
      let t : (p == x) ≡ false = ground arith in
      elim (ℕ_discrete p y) [
        | yes e' ↦ let t' : (p == y) ≡ true = ground arith in rw (t, t') hx
        | no ne' ↦ let t' : (p == y) ≡ false = ground arith in rw (t, t') hp
      ]
]

module _ {n : ℕ} {h : Longs} (c : IsCycle n h) where
  pub spot-lt : (size k : ℕ) → n * 8 ≤ size → c.spot k < size
  spot-lt size k fits = let (i, lt, e) = c.line k in omega arith

  pub load-spot : (size k : ℕ) → n * 8 ≤ size → load size h (c.spot k) ≡ ok (c.spot (suc k))
  unfolding load
  load-spot size k fits =
      let inside : ltb (c.spot k) size ≡ true = let lt = spot-lt size k fits in ground arith in
      rw (inside, c.linked k) refl

  -- With two lines or more no line is its own successor.
  pub spot-ne : (k : ℕ) → 2 ≤ n → c.spot (suc k) ≢ c.spot k
  spot-ne k two e = c.distinct k (suc k) (omega arith) (omega arith) (sym e)

  pub next-ne : (i : ℕ) → i < n → 2 ≤ n → h (i * 8) ≢ i * 8
  next-ne i lt two e =
      let f = c.found i lt in spot-ne (c.at i) two (sym (c.linked (c.at i)) ∙ ap h f ∙ e ∙ sym f)

  line-test : (p i : ℕ) → i < n → p ≡ i * 8 → 2 ≤ n → (p == h p) ≡ false
  line-test p i lt e two =
      let ne = next-ne i lt two in
      let e' : h p ≡ h (i * 8) = ap h e in
      let differ : p ≢ h p = λ q. ne (sym e' ∙ sym q ∙ e) in ground arith

  -- The exchange of the successors of the spots `k` and `l`.
  module _ (k l : ℕ) (two : 2 ≤ n) where
    abbrev x : ℕ
    x = c.spot (suc k)

    abbrev y : ℕ
    y = c.spot (suc l)

    -- the first word of a line
    abbrev IsLine : ℕ → Type 0
    IsLine p = (i : ℕ) × (i < n) × (p ≡ i * 8)

    exchanged-IsCycle : IsCycle n (exchanged h (c.spot k) x (c.spot l) y)
    exchanged-IsCycle = record {
      spot = λ j. swapped x y (c.spot j);
      at = λ i. c.at (swapped x y (i * 8) / 8);
      linked = λ j.
          exchanged-swapped h (c.spot k) x (c.spot l) y (c.spot j) (c.spot (suc j)) (c.linked k)
            (c.linked l) (c.linked j) (c.before j k) (c.before j l) (spot-ne k two) (spot-ne l two);
      period = λ j. ap (swapped x y) (c.period j);
      distinct =
          λ i j lt near e. c.distinct i j lt near (swapped-injective x y (c.spot i) (c.spot j) e);
      before = λ i j e.
          ap (swapped x y)
            (c.before i j (swapped-injective x y (c.spot (suc i)) (c.spot (suc j)) e));
      found = λ i lt.
          let (j, inside, e) =
            swapped-either IsLine x y (i * 8) (c.line (suc k)) (c.line (suc l)) (i, lt, refl) in
          let number : swapped x y (i * 8) / 8 ≡ j = omega arith in
          let there : c.spot (c.at (swapped x y (i * 8) / 8)) ≡ swapped x y (i * 8) =
            ap (λ m. c.spot (c.at m)) number ∙ c.found j inside ∙ sym e in
          ap (swapped x y) there ∙ swapped_twice x y (i * 8);
      line = λ j. swapped-either IsLine x y (c.spot j) (c.line (suc k)) (c.line (suc l)) (c.line j);
    }

-- On a cycle of two lines or more, the exchange of the successors of any two lines, the same one
-- twice included, leaves the area, asks for no second try, and leaves one cycle of all the lines.
pub attempt-IsCycle :
    {n : ℕ} {h : Longs} (c : IsCycle n h) (size i j : ℕ)
    → n * 8 ≤ size
    → 2 ≤ n
    → i < n
    → j < n
    → (h' : Longs) × (attempt size h (i * 8) (j * 8) ≡ ok (h', false)) × IsCycle n h'
unfolding attempt load
attempt-IsCycle {n} {h} c size i j fits two li lj =
    let k = c.at i in
    let l = c.at j in
    let a : i * 8 ≡ c.spot k = sym (c.found i li) in
    let b : j * 8 ≡ c.spot l = sym (c.found j lj) in
    let h' = exchanged h (c.spot k) (c.spot (suc k)) (c.spot l) (c.spot (suc l)) in
    let c' : IsCycle n h' = exchanged-IsCycle c k l two in
    let in_bounds : (m : ℕ) → ltb (c.spot m) size ≡ true =
      λ m. let lt = spot-lt c size m fits in ground arith in
    let run =
      exchange-ok size h (c.spot k) (c.spot (suc k)) (c.spot l) (c.spot (suc l))
        (spot-lt c size k fits) (spot-lt c size (suc k) fits) (spot-lt c size l fits)
        (spot-lt c size (suc l) fits) in
    let (i₂, l₂, e₂) = c.line (suc l) in
    let t₁ : (c.spot k == h' (c.spot k)) ≡ false = line-test c' (c.spot k) i li (sym a) two in
    let t₂ : (c.spot l == h' (c.spot l)) ≡ false = line-test c' (c.spot l) j lj (sym b) two in
    let t₃ : (c.spot (suc l) == h' (c.spot (suc l))) ≡ false =
      line-test c' (c.spot (suc l)) i₂ l₂ e₂ two in
    (
      h',
      rw
          (
            a,
            b,
            in_bounds k,
            in_bounds l,
            c.linked k,
            c.linked l,
            run,
            in_bounds (suc l),
            t₁,
            t₂,
            t₃,
          )
          refl,
      c',
    )

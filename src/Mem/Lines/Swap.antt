-- ===== src/Mem/Lines/Swap.antt =====
-- What the exchange of two successors does to a ring: it exchanges the two lines.
use micbench.Base.{
  ℕ, ◌<◌, ◌≡◌, ◌≢◌, true, ◌==◌, if◌then◌else◌, arith, ok, ltb, Bool-cases, inl, inr,
}
use micbench.Mem.Lines.{Longs, write, load, store, swap_long, exchange}

-- the exchange of the two addresses `x` and `y`
unfoldable pub swapped : (x y p : ℕ) → ℕ
swapped x y p = if p == x then y else if p == y then x else p

pub swapped_twice : (x y p : ℕ) → swapped x y (swapped x y p) ≡ p
unfolding swapped
swapped_twice x y p = ground arith

-- `exchange` on an area of which no access leaves the bounds
unfoldable pub exchanged : Longs → (a x b y : ℕ) → Longs
exchanged h a x b y =
    if x == b
    then write (write (write h a y) x (write h a y y)) y x
    else if x == y
    then write (write h a y) b x
    else write (write (write (write h a y) b x) x (write (write h a y) b x y)) y
        (write (write h a y) b x x)

pub exchange-ok :
    (size : ℕ) (h : Longs) (a x b y : ℕ)
    → a < size
    → x < size
    → b < size
    → y < size
    → exchange size h a x b y ≡ ok (exchanged h a x b y)
unfolding exchange exchanged swap_long load store
exchange-ok size h a x b y la lx lb ly =
    let ta : ltb a size ≡ true = ground arith in
    let tx : ltb x size ≡ true = ground arith in
    let tb : ltb b size ≡ true = ground arith in
    let ty : ltb y size ≡ true = ground arith in
    elim (Bool-cases (x == b)) [
      | inl e ↦ rw (e, ta, ty, tx)
      | inr e ↦ elim (Bool-cases (x == y)) [
        | inl e' ↦ rw (e, e', ta, tb)
        | inr e' ↦ rw (e, e', ta, tb, tx, ty)
      ]
    ]

-- If `a` is the only line before `x`, and `b` the only one before `y`, and neither is its own
-- successor, the links after the exchange are those of the ring with `x` and `y` exchanged.
pub exchanged-swapped :
    (h : Longs) (a x b y q r : ℕ)
    → h a ≡ x
    → h b ≡ y
    → h q ≡ r
    → (r ≡ x → q ≡ a)
    → (r ≡ y → q ≡ b)
    → x ≢ a
    → y ≢ b
    → exchanged h a x b y (swapped x y q) ≡ swapped x y r
unfolding exchanged swapped write
exchanged-swapped h a x b y q r ha hb hq only_a only_b na nb = ground arith

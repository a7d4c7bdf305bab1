-- ===== src/ResPool/Make.antt =====
-- The ring that `mb_res_pool_make` builds.
use native.Mathlib.Nat.{mod-lt, mod-eq_of_lt}
use native.Mathlib.Numerals.{add-one}
use micbench.Base.{
  ℕ, zero, suc, ◌+◌, ◌-◌, ◌%◌, ◌<◌, ◌≡◌, ◌≢◌, refl, fault, subst, none, ap, sym, ◌∙◌, some, [],
  arith, ok, ℕ_discrete, ◌==◌, if◌then◌else◌, inl, inr, false, dec_lt,
}
use micbench.Base.Cyclic.{mod_ne, mod_suc}
use micbench.ResPool.{Ptr, null, Cell, Cells, ResPool, write, make_loop, make}
use micbench.ResPool.Ring.{IsRing, Holds, write_self, write_ne}

-- What malloc(3) promises: live blocks have distinct addresses. (That it does not fail is a
-- hypothesis of its own, `NoneFails`.)
abbrev pub Distinct : (ℕ → Ptr) → Type 0
Distinct malloc = (i j : ℕ) → i < j → malloc i ≢ malloc j

abbrev pub NoneFails : (ℕ → Ptr) → Type 0
NoneFails malloc = (i : ℕ) → malloc i ≢ null

module _ (malloc : ℕ → Ptr) where
  -- the cell made just before the `i`-th
  abbrev prev : ℕ → Ptr
  prev zero = null
  prev (suc i) = malloc i

  -- the first cell made, after `i` rounds
  abbrev first : ℕ → Ptr
  first zero = null
  first (suc i) = malloc 0

  -- The first `i` cells stand in `h`, each linked to the one made before it.
  abbrev Made : Cells → ℕ → Type 0
  Made h i = (j : ℕ) → j < i → h (malloc j) ≡ some (record { elem = null; next = prev j })

  -- the cell at the spot `i` of the ring of `n` cells, which begins at the last cell made
  abbrev pub spot_of : ℕ → ℕ → Ptr
  spot_of n i = malloc (n - 1 - i % n)

  module _ (live : NoneFails malloc) (apart : Distinct malloc) where
    ne_of_ne : {i j : ℕ} → i ≢ j → malloc i ≢ malloc j
    ne_of_ne {i} {j} ne same = elim (dec_lt i j) [
      | yes lt ↦ apart i j lt same
      | no ge ↦ apart j i (omega arith) (sym same)
    ]

    Made-write :
        (h : Cells) (i : ℕ)
        → Made h i
        → Made (write h (malloc i) (some (record { elem = null; next = prev i }))) (suc i)
    Made-write h i made j lt = elim (ℕ_discrete j i) [
      | yes e ↦ rw e (write_self h (malloc i) _)
      | no ne ↦ write_ne h _ (ne_of_ne ne) ∙ made j (omega arith)
    ]

    first_lem : (i : ℕ) → (if first i == null then malloc i else first i) ≡ first (suc i)
    first_lem zero = refl
    first_lem (suc i) = ground (arith, live 0)

    make_loop-ok :
        (n i : ℕ) (h : Cells)
        → Made h i
        → (h' : Cells) × (make_loop malloc n i (prev i) (first i) h
            ≡ ok (prev (i + n), first (i + n), h'))
          × Made h' (i + n)
    unfolding make_loop
    make_loop-ok zero i h made = let e : i + 0 ≡ i = omega arith in (h, rw e, rw e made)
    make_loop-ok (suc n) i h made =
        let cell : Cell = record { elem = null; next = prev i } in
        let h₁ = write h (malloc i) (some cell) in
        let (h', run, made') = make_loop-ok n (suc i) h₁ (Made-write h i made) in
        let e : i + suc n ≡ suc i + n = omega arith in
        let test : (malloc i == null) ≡ false = ground (arith, live i) in
        (h', rw (test, first_lem i, add-one, e) run, rw e made')

    -- The cells of the finished ring: the first one is linked to the last one.
    module _ (n : ℕ) (h : Cells) (made : Made h (suc n)) where
      closed : Cells
      closed = write h (malloc 0) (some (record { elem = null; next = malloc n }))

      linked_lem :
          (i : ℕ)
          → (e : Ptr) × (closed (spot_of (suc n) i)
              ≡ some (record { elem = e; next = spot_of (suc n) (suc i) }))
      unfolding closed
      linked_lem i = elim (mod_suc (suc n) i (omega arith)) [
        | inl (wraps, last) ↦
            let here : spot_of (suc n) i ≡ malloc 0 = ap malloc (omega arith) in
            let there : spot_of (suc n) (suc i) ≡ malloc n = ap malloc (omega arith) in
            (null, rw (here, there) (write_self h (malloc 0) _))
        | inr (steps, more) ↦
            let k = n - suc i % suc n in
            let here : spot_of (suc n) i ≡ malloc (suc k) = ap malloc (omega arith) in
            let there : spot_of (suc n) (suc i) ≡ malloc k = ap malloc (omega arith) in
            (
              null,
              rw (here, there) (write_ne h _ (ne_of_ne (omega arith)) ∙ made (suc k) (omega arith)),
            )
      ]

      closed-IsRing : IsRing closed (suc n) (spot_of (suc n))
      closed-IsRing = record {
        nonempty = omega arith;
        ne_null = λ i. live (suc n - 1 - i % suc n);
        linked = linked_lem;
        period =
            λ i. let e : (suc n + i) % suc n ≡ i % suc n = grind arith in ap malloc (omega arith);
        distinct = λ i j lt near.
            let differ = mod_ne (suc n) i j (omega arith) lt near in
            let a = mod-lt i {m = suc n} (omega arith) in
            let b = mod-lt j {m = suc n} (omega arith) in ne_of_ne (λ same. differ (omega arith));
      }

    -- If malloc(3) does not fail, `mb_res_pool_make` of one cell or more gives an empty pool with
    -- room for that many elements.
    pub make-Holds :
        (n : ℕ) → 0 < n → (pool : ResPool) × (make malloc n ≡ ok pool) × Holds pool n []
    unfolding make closed
    make-Holds zero pos = absurd (omega arith)
    make-Holds (suc n) pos =
        let start : Cells = λ _. none in
        let (h, run, made) = make_loop-ok (suc n) 0 start (λ j lt. absurd (omega arith)) in
        let e : 0 + suc n ≡ suc n = omega arith in
        let made' = subst (Made h) e made in
        let at_first = made' 0 (omega arith) in
        let test : (malloc 0 == null) ≡ false = ground (arith, live 0) in
        (
          record {
            nr_elems = suc n;
            nr_avail = 0;
            ring = malloc n;
            head = malloc n;
            tail = malloc 0;
            cells = closed n h made';
          },
          rw (run, e, test, at_first),
          record {
            size = refl;
            spot = spot_of (suc n);
            home = 0;
            gate = 0;
            ring_lem = ap malloc (omega arith);
            is_ring = closed-IsRing n h made';
            head_lem = ap malloc (omega arith);
            back = n;
            tail_lem =
                let e' = mod-eq_of_lt {n = n} {m = suc n} (omega arith) in ap malloc (omega arith);
            back_lem = ap malloc (let e' : suc n % suc n ≡ 0 = grind arith in omega arith);
            fits = omega arith;
            contents = refl;
          },
        )

-- With no cell to make, `mb_res_pool_make` writes through the NULL tail.
make-zero : (malloc : ℕ → Ptr) → make malloc 0 ≡ fault
unfolding make make_loop
make-zero malloc = refl

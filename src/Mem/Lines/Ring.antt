-- ===== src/Mem/Lines/Ring.antt =====
-- The ring that `make_ring` links, and the count of its lines.
use native.Mathlib.Nat.{mod-lt, mod-eq_of_lt}
use micbench.Base.{
  ℕ, zero, suc, ◌+◌, ◌*◌, ◌-◌, ◌/◌, ◌%◌, ◌≤◌, ◌<◌, ◌≡◌, ◌≢◌, refl, true, false, some, ◌==◌, arith,
  ok, ltb, ap, sym, ◌∙◌, inl, inr, ℕ_discrete,
}
use micbench.Base.Cyclic.{mod_ne, mod_suc}
use micbench.Mem.Lines.{
  Longs, write, load, store, link, make_ring, count_lines, lap, accept, check_ring,
}
use micbench.Mem.Lines.Cycle.{IsCycle, spot-lt}

link-ok :
    (size n ptr : ℕ) (h : Longs)
    → ptr + n * 8 ≤ size
    → (h' : Longs) × (link size n ptr h ≡ ok h')
      × ((i : ℕ) → i < n → h' (ptr + i * 8) ≡ ptr + i * 8 + 8)
      × ((p : ℕ) → p < ptr → h' p ≡ h p)
unfolding link store
link-ok size zero ptr h fits = (h, refl, (λ i lt. absurd (omega arith)), λ p lt. refl)
link-ok size (suc n) ptr h fits =
    let h₁ = write h ptr (ptr + 8) in
    let (h', run, links, rest) = link-ok size n (ptr + 8) h₁ (omega arith) in
    let t : ltb ptr size ≡ true = ground arith in
    (
      h',
      rw (t, run),
      (λ i lt. elim (ℕ_discrete i 0) [
        | yes e ↦
            let here : ptr + i * 8 ≡ ptr = omega arith in
            let kept : h₁ ptr ≡ ptr + 8 = unfold write in ground arith in
            rw here (rest ptr (omega arith) ∙ kept)
        | no ne ↦
            let there : ptr + i * 8 ≡ ptr + 8 + (i - 1) * 8 = omega arith in
            rw there (links (i - 1) (omega arith))
      ]),
      λ p lt. rest p (omega arith) ∙ (unfold write in ground arith),
    )

-- Links from each of `n` lines to the next, the last one's back to the first, are a cycle.
links-IsCycle :
    (n : ℕ) (h : Longs)
    → 0 < n
    → ((i : ℕ) → suc i < n → h (i * 8) ≡ suc i * 8)
    → h ((n - 1) * 8) ≡ 0
    → IsCycle n h
links-IsCycle n h some_line links last = record {
  spot = λ k. k % n * 8;
  at = λ i. i;
  linked = λ k. elim (mod_suc n k some_line) [
    | inl (wraps, at_last) ↦ rw (at_last, wraps) last
    | inr (steps, more) ↦ rw steps (links (k % n) more)
  ];
  period = λ k. let e : (n + k) % n ≡ k % n = grind arith in rw e;
  distinct = λ k l lt near e. mod_ne n k l some_line lt near (omega arith);
  before = λ k l e. elim (mod_suc n k some_line) [
    | inl (a, b) ↦ elim (mod_suc n l some_line) [
      | inl (a', b') ↦ omega arith
      | inr (a', b') ↦ absurd (omega arith)
    ]
    | inr (a, b) ↦ elim (mod_suc n l some_line) [
      | inl (a', b') ↦ absurd (omega arith)
      | inr (a', b') ↦ omega arith
    ]
  ];
  found = λ i lt. rw (mod-eq_of_lt lt);
  line = λ k. (k % n, mod-lt k some_line, refl);
}

-- On an area of `n` lines, one or more, the links are a cycle through all of them.
pub make_ring-IsCycle :
    (n : ℕ) (h : Longs)
    → 0 < n
    → (h' : Longs) × (make_ring (n * 8) (n * 64) h ≡ ok h') × IsCycle n h'
unfolding make_ring store
make_ring-IsCycle n h some_line =
    let (h₁, run, links, rest) = link-ok (n * 8) n 0 h (omega arith) in
    let rounds : (n * 64 / 8 + 7) / 8 ≡ n = omega arith in
    let longs : n * 64 / 8 ≡ n * 8 = omega arith in
    let t : ltb (n * 8) 8 ≡ false = ground arith in
    let t' : ltb (n * 8 - 8) (n * 8) ≡ true = ground arith in
    let h' = write h₁ (n * 8 - 8) 0 in
    (
      h',
      rw (rounds, run, longs, t, t') refl,
      links-IsCycle n h' some_line
          (λ i lt.
            let kept : h' (i * 8) ≡ h₁ (i * 8) = unfold write in ground arith in
            let e : 0 + i * 8 ≡ i * 8 = omega arith in
            let l = rw e at (links i (omega arith)) in kept ∙ l ∙ omega arith)
          (let e : (n - 1) * 8 ≡ n * 8 - 8 = omega arith in unfold write in (rw e (ground arith))),
    )

module _ {n : ℕ} {h : Longs} (c : IsCycle n h) (size : ℕ) (fits : n * 8 ≤ size) (home : ℕ)
    (begins : c.spot home ≡ 0) where
  count_lines-from :
      (d fuel j : ℕ)
      → j + d ≡ n
      → 0 < j
      → d < fuel
      → count_lines size fuel h (c.spot (j + home)) j ≡ some (ok n)
  unfolding count_lines load
  count_lines-from d zero j sum pos enough = absurd (omega arith)
  count_lines-from zero (suc fuel) j sum pos enough =
      let back : c.spot (j + home) ≡ 0 =
        ap (λ i. c.spot (i + home)) (omega arith) ∙ c.period home ∙ begins in
      let e : j ≡ n = omega arith in rw back (rw e refl)
  count_lines-from (suc d) (suc fuel) j sum pos enough =
      let away : c.spot (j + home) ≢ 0 =
        λ e. c.distinct home (j + home) (omega arith) (omega arith) (begins ∙ sym e) in
      let t : (c.spot (j + home) == 0) ≡ false = ground arith in
      let t' : ltb (c.spot (j + home)) size ≡ true =
        let lt = spot-lt c size (j + home) fits in ground arith in
      let rest = count_lines-from d fuel (suc j) (omega arith) (omega arith) (omega arith) in
      let e : j + 1 ≡ suc j = omega arith in
      let e' : suc j + home ≡ suc (j + home) = omega arith in
      rw (t, t', c.linked (j + home), e) (rw e' at rest)

-- On a cycle of all the lines, the loop over them counts each line once; fuel for each line is enough.
pub lap-IsCycle :
    (n size fuel : ℕ) (h : Longs)
    → IsCycle n h
    → 0 < n
    → n * 8 ≤ size
    → n ≤ fuel
    → lap size fuel h ≡ some (ok n)
unfolding lap load
lap-IsCycle n size fuel h c some_line fits enough =
    let home = c.at 0 in
    let begins : c.spot home ≡ 0 = c.found 0 some_line in
    let t : ltb 0 size ≡ true = ground arith in
    let step : h 0 ≡ c.spot (suc home) = ap h (sym begins) ∙ c.linked home in
    let run =
      count_lines-from c size fits home begins (n - 1) fuel 1 (omega arith) (omega arith)
        (omega arith) in
    let e : 1 + home ≡ suc home = omega arith in rw (t, step) (rw e at run)

-- So the check does not exit.
pub check_ring-IsCycle :
    (n size fuel : ℕ) (h : Longs)
    → IsCycle n h
    → 0 < n
    → n * 8 ≤ size
    → n ≤ fuel
    → check_ring size n fuel h ≡ some (ok n)
unfolding check_ring accept
check_ring-IsCycle n size fuel h c some_line fits enough =
    let same : (n == n) ≡ true = ground arith in
    rw (lap-IsCycle n size fuel h c some_line fits enough, same) refl

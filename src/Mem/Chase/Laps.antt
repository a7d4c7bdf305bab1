-- ===== src/Mem/Chase/Laps.antt =====
-- Where the pointers lead.
use native.Mathlib.Nat.{div-add-mod, mod-lt}
use micbench.Base.{
  ℕ, zero, suc, ◌+◌, ◌*◌, ◌-◌, ◌/◌, ◌%◌, ◌^◌, ◌≤◌, ◌<◌, ◌≡◌, refl, true, false, some, List, [], ◌∷◌,
  ◌++◌, length, get_elem?, ltb, ok, arith, Bool-cases, inl, inr, length-append, sym, ap, ◌∙◌,
}
use micbench.Base.Int.{ℤ, ltb_ℤ}
use micbench.Rand.{Machine}
use micbench.Rand.Below.{DrawsBelow}
use micbench.Clock.{seconds}
use micbench.Mem.Lines.{Longs, lap, arrange, check_ring}
use micbench.Mem.Lines.Cycle.{IsCycle, spot-lt, load-spot}
use micbench.Mem.Lines.Ring.{lap-IsCycle, check_ring-IsCycle}
use micbench.Mem.Lines.Shuffle.{arrange-IsCycle}
use micbench.Mem.Stress.{Clocks, Stress, fresh}
use micbench.Mem.Stress.Within.{Inside, Inside-append}
use micbench.Mem.Chase.{chase, chase_round, chase_rounds, stress_rand}

module _ {n : ℕ} {h : Longs} (c : IsCycle n h) where
  -- the longs at the places `j` and on of the cycle
  abbrev spots : (d j : ℕ) → List ℕ
  spots zero j = []
  spots (suc d) j = c.spot j ∷ spots d (suc j)

  chase-spots : (size d j : ℕ) → n * 8 ≤ size → chase size d h (c.spot j) ≡ ok (spots d j)
  unfolding chase
  chase-spots size zero j fits = refl
  chase-spots size (suc d) j fits =
      rw (load-spot c size j fits, chase-spots size d (suc j) fits) refl

  spots-Inside : (size d j : ℕ) → n * 8 ≤ size → Inside 1 size (spots d j)
  spots-Inside size zero j fits = tt
  spots-Inside size (suc d) j fits =
      let lt = spot-lt c size j fits in (omega arith, spots-Inside size d (suc j) fits)

  spots-length : (d j : ℕ) → length (spots d j) ≡ d
  spots-length zero j = refl
  spots-length (suc d) j = ap suc (spots-length d (suc j))

  get_elem?-spots : (d j i : ℕ) → i < d → get_elem? (spots d j) i ≡ some (c.spot (j + i))
  get_elem?-spots zero j i lt = absurd (omega arith)
  get_elem?-spots (suc d) j zero lt = ap (λ k. some (c.spot k)) (omega arith)
  get_elem?-spots (suc d) j (suc i) lt =
      get_elem?-spots d (suc j) i (omega arith) ∙ ap (λ k. some (c.spot k)) (omega arith)

  laps-spot : (q r : ℕ) → c.spot (n * q + r) ≡ c.spot r
  laps-spot zero r = ap c.spot (grind arith)
  laps-spot (suc q) r =
      let e : n * suc q + r ≡ n + (n * q + r) = grind arith in
      ap c.spot e ∙ c.period (n * q + r) ∙ laps-spot q r

  spot-mod : (k : ℕ) → c.spot (k % n) ≡ c.spot k
  spot-mod k = sym (laps-spot (k / n) (k % n)) ∙ ap c.spot (div-add-mod k n)

  -- On the way from the first line on, each line is at most `n` steps away.
  reach : (i : ℕ) → i < n → (d : ℕ) × (d < n) × (c.spot (c.at 0 % n + d) ≡ i * 8)
  reach i lt =
      let some_line : 0 < n = omega arith in
      let a = mod-lt (c.at 0) some_line in
      let b = mod-lt (c.at i) some_line in
      let there = spot-mod (c.at i) ∙ c.found i lt in
      elim (Bool-cases (ltb (c.at i % n) (c.at 0 % n))) [
        | inl behind ↦ (
          n + c.at i % n - c.at 0 % n,
          ground arith,
          ap c.spot (ground (arith, a)) ∙ c.period (c.at i % n) ∙ there,
        )
        | inr ahead ↦ (c.at i % n - c.at 0 % n, ground arith, ap c.spot (ground arith) ∙ there)
      ]

  -- A round: `d` pointers are followed, inside the area.
  round-spots :
      (size d : ℕ)
      → 0 < n
      → n * 8 ≤ size
      → (j : ℕ) × (chase size d h 0 ≡ ok (spots d j))
        × ((i : ℕ) → i < n → (e : ℕ) × (e < n) × (c.spot (j + e) ≡ i * 8))
  round-spots size d some_line fits =
      let home = c.at 0 % n in
      let begins : c.spot home ≡ 0 = spot-mod (c.at 0) ∙ c.found 0 some_line in
      (home, ap (chase size d h) (sym begins) ∙ chase-spots size d home fits, reach)

  chase_round-ok :
      (num_ops : ℕ) (clocks : Clocks) (i : ℕ) (s : Stress)
      → 0 < n
      → s.ops ≡ length s.touched % 2 ^ 64
      → Inside 1 (n * 8) s.touched
      → (s' : Stress) × (chase_round num_ops (n * 64) clocks i h s ≡ ok s')
        × (s'.ops ≡ length s'.touched % 2 ^ 64)
        × (length s'.touched ≡ length s.touched + 1024 * num_ops)
        × Inside 1 (n * 8) s'.touched
  unfolding chase_round
  chase_round-ok num_ops clocks i s some_line counted inside =
      let steps = 1024 * num_ops in
      let (j, run, lines) = round-spots (n * 8) steps some_line (omega arith) in
      let ps = spots steps j in
      let longs : n * 64 / 8 ≡ n * 8 = omega arith in
      let run' : chase (n * 64 / 8) steps h 0 ≡ ok ps = ap (λ z. chase z steps h 0) longs ∙ run in
      let len : length (s.touched ++ ps) ≡ length s.touched + steps =
        length-append s.touched ps ∙ ap (λ x. length s.touched + x) (spots-length steps j) in
      (
        record s {
          ops = (s.ops + steps) % 2 ^ 64;
          clk = (s.clk + (clocks.t1 i + 2 ^ 64 - clocks.t0 i)) % 2 ^ 64;
          touched = s.touched ++ ps;
        },
        rw run' refl,
        rw (len, counted) (omega arith),
        len,
        Inside-append 1 (n * 8) s.touched ps inside (spots-Inside (n * 8) steps j (omega arith)),
      )

  rounds-end :
      (num_ops : ℕ) (timeout : ℤ) (clocks : Clocks) (fuel k i d : ℕ) (s : Stress)
      → 0 < n
      → i + d ≡ k
      → d < fuel
      → ((j : ℕ) → j < k → ltb_ℤ (clocks.elapsed j) (seconds timeout) ≡ true)
      → ltb_ℤ (clocks.elapsed k) (seconds timeout) ≡ false
      → s.ops ≡ length s.touched % 2 ^ 64
      → Inside 1 (n * 8) s.touched
      → (s' : Stress) × (chase_rounds num_ops (n * 64) timeout clocks h fuel i s ≡ some (ok s'))
        × (s'.ops ≡ length s'.touched % 2 ^ 64)
        × (length s'.touched ≡ length s.touched + d * (1024 * num_ops))
        × Inside 1 (n * 8) s'.touched
  unfolding chase_rounds
  rounds-end num_ops timeout clocks zero k i d s some_line at enough before after counted inside =
      absurd (omega arith)
  rounds-end num_ops timeout clocks (suc fuel) k i zero s some_line at enough before after counted
        inside =
      let here : i ≡ k = omega arith in
      (
        record s { wallclocktime = clocks.elapsed i },
        rw (here, after) refl,
        counted,
        omega arith,
        inside,
      )
  rounds-end num_ops timeout clocks (suc fuel) k i (suc d) s some_line at enough before after
        counted inside =
      let (s₁, run, counted₁, len, inside₁) =
        chase_round-ok num_ops clocks i s some_line counted inside in
      let (s', rest, h', total, inside') =
        rounds-end num_ops timeout clocks fuel k (i + 1) d s₁ some_line (omega arith) (omega arith)
          before after counted₁ inside₁ in
      (
        s',
        rw (chase_rounds, before i (omega arith), run) rest,
        h',
        grind (arith, total, len),
        inside',
      )

module _ (m : Machine) (law : DrawsBelow m) where
  -- On a working area of two cache lines or more, a whole number of them, `do_memory_stress_rand` ends
  -- as soon as a look at the clock finds the timeout reached: the shuffle and the check end, all loads
  -- lie inside the area, and the counter holds the number of the measured ones, modulo 2 ^ 64.
  pub stress_rand-counts :
      (num_ops n : ℕ) (timeout : ℤ) (clocks : Clocks) (ring_fuel fuel k : ℕ) (rand : m.Seed)
      (h : Longs)
      → 2 ≤ n
      → n ≤ 2 ^ 53
      → n < ring_fuel
      → k < fuel
      → ((j : ℕ) → j < k → ltb_ℤ (clocks.elapsed j) (seconds timeout) ≡ true)
      → ltb_ℤ (clocks.elapsed k) (seconds timeout) ≡ false
      → (s : Stress) × (stress_rand num_ops (n * 64) m timeout clocks ring_fuel fuel rand h
          ≡ some (ok s))
        × (s.ops ≡ length s.touched % 2 ^ 64)
        × (length s.touched ≡ k * (1024 * num_ops))
        × Inside 1 (n * 8) s.touched
  unfolding stress_rand
  stress_rand-counts num_ops n timeout clocks ring_fuel fuel k rand h two small rf enough before
        after =
      let (h', arranged, c) = arrange-IsCycle m law n ring_fuel rand h two small rf in
      let longs : n * 64 / 8 ≡ n * 8 = omega arith in
      let lines : n * 64 / 64 ≡ n = omega arith in
      let checked : check_ring (n * 64 / 8) (n * 64 / 64) ring_fuel h' ≡ some (ok n) =
        rw (longs, lines)
          (check_ring-IsCycle n (n * 8) ring_fuel h' c (omega arith) (omega arith) (omega arith)) in
      let once : lap (n * 64 / 8) ring_fuel h' ≡ some (ok n) =
        rw longs (lap-IsCycle n (n * 8) ring_fuel h' c (omega arith) (omega arith) (omega arith)) in
      let (s, run, counted, total, inside) =
        rounds-end c num_ops timeout clocks fuel k 0 k fresh (omega arith) (omega arith) enough
          before after (omega arith) tt in
      (s, rw (arranged, checked, once, run) refl, counted, omega (arith, total), inside)

  -- On the ring that the shuffle leaves, `d` pointers followed from the first line on touch every
  -- line, if there are not more lines than pointers.
  pub chase-lines :
      (n fuel d : ℕ) (rand : m.Seed) (h : Longs) (line : ℕ)
      → 2 ≤ n
      → n ≤ 2 ^ 53
      → n < fuel
      → n ≤ d
      → line < n
      → (h' : Longs) × (ps : List ℕ) × (i : ℕ) × (arrange m (n * 64) fuel rand h ≡ some (ok h'))
        × (chase (n * 8) d h' 0 ≡ ok ps)
        × (get_elem? ps i ≡ some (line * 8))
  chase-lines n fuel d rand h line two small enough long lt =
      let (h', arranged, c) = arrange-IsCycle m law n fuel rand h two small enough in
      let (j, run, lines) = round-spots c (n * 8) d (omega arith) (omega arith) in
      let (i, near, e) = lines line lt in
      (h', spots c d j, i, arranged, run, get_elem?-spots c d j i (omega arith) ∙ ap some e)

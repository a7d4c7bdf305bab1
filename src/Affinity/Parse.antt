-- ===== src/Affinity/Parse.antt =====
-- What `mb_parse_affinity` makes of the texts that it is meant for.
use micbench.Base.{
  ℕ, zero, suc, ◌+◌, ◌≤◌, ◌<◌, ◌≡◌, refl, Bool, true, false, ◌&&◌, ◌||◌, some, none, List, [], ◌∷◌,
  ◌++◌, arith, ok, length, ltb, ◌==◌, if◌then◌else◌, fun_ext, ◌^◌, sym, ap, ◌∙◌, length-append,
}
use micbench.Base.Int.{pos}
use micbench.Base.Text.{Text, to_int, show_nat, is_digit}
use micbench.Base.Text.Decimal.{strtol-show_nat, length-show_nat}
use micbench.Affinity.{
  Bits, no_bits, cpu_setsize, cpu_set, make_affinity, parse_cpumask, or_shifted_one, parse_nodemask,
  parse_nodes, parse_masks, parse_affinity,
}

-- A mask as it stands on the command line, bit 0 first.
abbrev pub mask_text : List Bool → Text
mask_text [] = []
mask_text (b ∷ bs) = (if b then b'1' else b'0') ∷ mask_text bs

abbrev pub nth : List Bool → Bits
nth [] i = false
nth (b ∷ bs) zero = b
nth (b ∷ bs) (suc i) = nth bs i

-- The bits of `bs`, counted from `idx` on.
abbrev shifted : List Bool → ℕ → Bits
shifted [] idx i = false
shifted (b ∷ bs) idx i = ((i == idx) && b) || shifted bs (idx + 1) i

shifted-below : (bs : List Bool) (idx i : ℕ) → i < idx → shifted bs idx i ≡ false
shifted-below [] idx i lt = refl
shifted-below (b ∷ bs) idx i lt = ground (arith, shifted-below bs (idx + 1) i)

shifted-nth : (bs : List Bool) (idx i : ℕ) → shifted bs idx (idx + i) ≡ nth bs i
shifted-nth [] idx i = refl
shifted-nth (b ∷ bs) idx zero =
    let e : idx + 0 ≡ idx = omega arith in
    let here : (idx == idx) ≡ true = ground arith in
    rw (e, shifted-below bs (idx + 1) idx (omega arith), here) (ground arith)
shifted-nth (b ∷ bs) idx (suc i) =
    let e : idx + suc i ≡ idx + 1 + i = omega arith in
    let apart : (idx + 1 + i == idx) ≡ false = ground arith in
    rw (e, shifted-nth bs (idx + 1) i, apart)

shifted-zero : (bs : List Bool) (i : ℕ) → shifted bs 0 i ≡ nth bs i
shifted-zero bs i =
    let e : 0 + i ≡ i = omega arith in ap (shifted bs 0) (sym e) ∙ shifted-nth bs 0 i

parse_nodemask-bits :
    (bs : List Bool) (idx : ℕ) (mask : Bits)
    → idx + length bs ≤ 31
    → (m : Bits) × (parse_nodemask (mask_text bs) idx mask ≡ ok (some m))
      × ((i : ℕ) → m i ≡ (shifted bs idx i || mask i))
unfolding parse_nodemask or_shifted_one
parse_nodemask-bits [] idx mask fits = (mask, refl, λ i. refl)
parse_nodemask-bits (true ∷ bs) idx mask fits =
    let test : ltb idx 31 ≡ true = ground arith in
    let mask' : Bits = λ i. (i == idx) || mask i in
    let (m, run, e) = parse_nodemask-bits bs (idx + 1) mask' (omega arith) in
    (m, rw test run, λ i. ground (arith, e i))
parse_nodemask-bits (false ∷ bs) idx mask fits =
    let (m, run, e) = parse_nodemask-bits bs (idx + 1) mask (omega arith) in
    (m, run, λ i. ground (arith, e i))

parse_cpumask-bits :
    (bs : List Bool) (t : Text) (idx : ℕ) (mask : Bits)
    → (m : Bits) × (parse_cpumask (mask_text bs ++ b':' ∷ t) idx mask ≡ some (m, t))
      × ((i : ℕ) → m i ≡ ((ltb i cpu_setsize && shifted bs idx i) || mask i))
unfolding parse_cpumask cpu_set
parse_cpumask-bits [] t idx mask = (mask, refl, λ i. ground arith)
parse_cpumask-bits (true ∷ bs) t idx mask =
    let (m, run, e) = parse_cpumask-bits bs t (idx + 1) (cpu_set idx mask) in
    (m, run, λ i. ground (arith, e i))
parse_cpumask-bits (false ∷ bs) t idx mask =
    let (m, run, e) = parse_cpumask-bits bs t (idx + 1) mask in (m, run, λ i. ground (arith, e i))

to_int_small : (n : ℕ) → n < 2 ^ 31 → to_int (pos n) ≡ pos n
unfolding to_int
to_int_small n lt = ground arith

-- An affinity written as `tid:cpus:nodes`, with at most 31 node bits, is read as its thread id, the
-- CPU bits below CPU_SETSIZE and the node bits.
pub parse_affinity-print :
    (tid : ℕ) (cpus nodes : List Bool)
    → tid < 2 ^ 31
    → length nodes ≤ 31
    → parse_affinity (show_nat tid ++ (b':' ∷ (mask_text cpus ++ b':' ∷ mask_text nodes)))
      ≡ ok (
          some (record {
            tid = pos tid;
            cpumask = λ i. ltb i cpu_setsize && nth cpus i;
            nodemask = nth nodes;
            optarg = none;
          }))
unfolding parse_affinity parse_masks parse_nodes make_affinity is_digit
parse_affinity-print tid cpus nodes small fits =
    let rest : Text = b':' ∷ (mask_text cpus ++ b':' ∷ mask_text nodes) in
    let read = strtol-show_nat tid rest (omega arith) refl in
    let (c, run_c, e_c) = parse_cpumask-bits cpus (mask_text nodes) 0 no_bits in
    let (m, run_m, e_m) = parse_nodemask-bits nodes 0 no_bits (omega arith) in
    let nodes_eq : m ≡ nth nodes = fun_ext (λ i. ground (arith, e_m i, shifted-zero nodes i)) in
    let cpus_eq : c ≡ (λ i. ltb i cpu_setsize && nth cpus i) =
      fun_ext (λ i. ground (arith, e_c i, shifted-zero cpus i)) in
    let longer : (length rest == length (show_nat tid ++ rest)) ≡ false =
      ground (arith, length-append (show_nat tid) rest, length-show_nat tid) in
    rw (read, longer, run_c, parse_masks, read, to_int_small tid small, run_m, nodes_eq, cpus_eq)

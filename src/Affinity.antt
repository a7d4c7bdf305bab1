-- ===== src/Affinity.antt =====
-- The thread affinities of src/micbench-utils.c: `mb_make_affinity`, `mb_parse_affinity`,
-- `__mb_bits_to_string` and `mb_affinity_to_string`. A mask is the set of its bits. `cpu_set_t` has
-- 1024 of them, and CPU_SET(3) passes over the others.
pub mod Parse
pub mod Arguments
pub mod Ranges
pub mod Line
pub mod Tests
use micbench.Base.{
  ℕ, zero, suc, ◌+◌, ◌-◌, ◌/◌, ◌%◌, ◌<◌, Bool, true, false, ◌&&◌, ◌||◌, not, Option, none, some,
  List, [], ◌∷◌, ◌++◌, ltb, ◌==◌, if◌then◌else◌, Outcome, ok, fault, ◌>>=◌, length, leb,
}
use micbench.Base.Int.{ℤ, pos, negsuc}
use micbench.Base.Text.{Text, strtol, to_int, show_nat, show_int}
use mathlib.Core.Option

abbrev pub Bits : Type 0
Bits = ℕ → Bool

abbrev pub no_bits : Bits
no_bits = λ _. false

abbrev pub cpu_setsize : ℕ
cpu_setsize = 1024

-- CPU_SET(3)
pub cpu_set : ℕ → Bits → Bits
cpu_set idx mask = λ i. ((i == idx) && ltb idx cpu_setsize) || mask i

-- `mb_affinity_t`; its `optarg` is set by the callers.
pub record Affinity : Type 0 where
  pub tid : ℤ
  pub cpumask : Bits
  pub nodemask : Bits
  pub optarg : Option Text

-- `mb_make_affinity`
pub make_affinity : Affinity
make_affinity = record { tid = negsuc 0; cpumask = no_bits; nodemask = no_bits; optarg = none }

-- The loop over the CPU mask: the mask and what follows the `:`; `none` for NULL.
pub parse_cpumask : Text → ℕ → Bits → Option (Bits × Text)
parse_cpumask [] idx mask = none
parse_cpumask (c ∷ s) idx mask =
    let one = parse_cpumask s (idx + 1) (cpu_set idx mask) in
    let other = parse_cpumask s (idx + 1) mask in
    if c == b':'
    then some (mask, s)
    else if c == b'1'
    then one
    else if c == b'0'
    then other
    else none

-- `mask |= (1 << idx)`, where `1` is an int and the mask an unsigned long: bit 31 is the sign, which
-- fills the upper half, and a shift by 32 or more is undefined.
pub or_shifted_one : Bits → ℕ → Outcome Bits
or_shifted_one mask idx =
    if ltb idx 31
    then ok (λ i. (i == idx) || mask i)
    else if idx == 31
    then ok (λ i. (leb 31 i && ltb i 64) || mask i)
    else fault

-- The loop over the node mask.
pub parse_nodemask : Text → ℕ → Bits → Outcome (Option Bits)
parse_nodemask [] idx mask = ok (some mask)
parse_nodemask (c ∷ s) idx mask =
    let one = (or_shifted_one mask idx >>= λ mask'. parse_nodemask s (idx + 1) mask') in
    let other = parse_nodemask s (idx + 1) mask in
    if c == b'1' then one else if c == b'0' then other else ok none

-- The last part of `mb_parse_affinity`: the node mask stands at `s`.
parse_nodes : ℤ → Bits → Text → Outcome (Option Affinity)
parse_nodes tid cpumask s = do
  nodes ← parse_nodemask s 0 no_bits
  ok (Option.map (λ m. record make_affinity { tid = tid; cpumask = cpumask; nodemask = m }) nodes)

-- The part of `mb_parse_affinity` after the thread id: `rest` is what strtol(3) left.
parse_masks : ℤ → Text → Outcome (Option Affinity)
parse_masks tid [] = ok none
parse_masks tid (c ∷ s) =
    if c == b':'
    then elim (parse_cpumask s 0 no_bits) [
      | none ↦ ok none
      | some (cpumask, s') ↦ parse_nodes tid cpumask s'
    ]
    else ok none

-- `mb_parse_affinity(NULL, optarg)`; `none` for NULL. strtol(3) consumed nothing if what it left is
-- as long as the whole.
pub parse_affinity : Text → Outcome (Option Affinity)
parse_affinity optarg =
    if length (strtol optarg).1 == length optarg
    then ok none
    else parse_masks (to_int (strtol optarg).0) (strtol optarg).1

-- The variables of the loop of `__mb_bits_to_string`; `none` is a negative `start_idx`.
pub record Scan : Type 0 where
  pub start_idx : Option ℕ
  pub ret : Text

-- `%d` for one bit, `%d-%d` for more.
pub print_run : ℕ → ℕ → Text
print_run start end = if start == end then show_nat start else show_nat start ++ b'-' ∷ show_nat end

-- strcat(3) after a `,` if there is something to its left
pub append_item : Text → Text → Text
append_item [] item = item
append_item (c ∷ ret) item = (c ∷ ret) ++ b',' ∷ item

pub scan_bit : Bits → ℕ → Scan → Scan
scan_bit bits i s = elim s.start_idx [
  | none ↦ if bits i then record s { start_idx = some i } else s
  | some start ↦
      if bits i
      then s
      else record { start_idx = none; ret = append_item s.ret (print_run start (i - 1)) }
]

-- The loop of `__mb_bits_to_string`, `n` rounds from the bit `i` on.
pub scan_bits : Bits → ℕ → ℕ → Scan → Scan
scan_bits bits zero i s = s
scan_bits bits (suc n) i s = scan_bits bits n (i + 1) (scan_bit bits i s)

-- `__mb_bits_to_string`, on an empty `ret`.
pub bits_to_string : Bits → ℕ → Text
bits_to_string bits nbits = (scan_bits bits nbits 0 (record { start_idx = none; ret = [] })).ret

-- Is one of the first `n` bits set?
pub any_bit : Bits → ℕ → Bool
any_bit bits zero = false
any_bit bits (suc n) = bits n || any_bit bits n

-- `__mb_bits_to_string` on the `buf` of `mb_affinity_to_string`, which has 1024 bytes, the NUL included:
-- a longer text is written beyond its end.
pub bits_in_buf : Bits → ℕ → Outcome Text
bits_in_buf bits nbits =
    let ret = bits_to_string bits nbits in if ltb (length ret) 1024 then ok ret else fault

-- The text of the node mask: it is made if a node is set.
pub nodes_in_buf : Bits → Outcome Text
nodes_in_buf nodemask =
    if any_bit nodemask 64 then (bits_in_buf nodemask 64 >>= λ nodes. ok (b':' ∷ nodes)) else ok []

-- `mb_affinity_to_string` of an affinity that is not NULL.
pub affinity_to_string : Affinity → Outcome Text
affinity_to_string a = do
  cpus ← bits_in_buf a.cpumask cpu_setsize
  nodes ← nodes_in_buf a.nodemask
  ok (show_int a.tid ++ (b':' ∷ (cpus ++ nodes)))

-- ===== src/Affinity/Line.antt =====
-- `mb_affinity_to_string` prints one line.
use micbench.Base.{
  ℕ, zero, suc, ◌+◌, ◌-◌, ◌≡◌, refl, true, Option, none, some, [], ◌∷◌, ◌++◌, ◌==◌, arith,
  Bool-cases, inl, inr, ok, fault, ltb, length, subst, ok-injective, >>=-eq-ok,
}
use micbench.Base.Text.{Text, show_nat, show_int}
use micbench.Base.Table.{without, without-append, show_nat-without, show_int-without}
use micbench.Affinity.{
  Affinity, Bits, Scan, print_run, append_item, scan_bit, scan_bits, bits_to_string, any_bit,
  bits_in_buf, nodes_in_buf, cpu_setsize, affinity_to_string,
}

print_run-without : (start end : ℕ) → without 10 (print_run start end) ≡ true
unfolding print_run without
print_run-without start end = elim (Bool-cases (start == end)) [
  | inl one ↦ rw one (show_nat-without 10 start (omega arith))
  | inr more ↦ rw more (
      without-append 10 (show_nat start) (b'-' ∷ show_nat end)
        (show_nat-without 10 start (omega arith)) (show_nat-without 10 end (omega arith)))
]

append_item-without :
    (ret item : Text)
    → without 10 ret ≡ true
    → without 10 item ≡ true
    → without 10 (append_item ret item) ≡ true
unfolding append_item without
append_item-without [] item r h = h
append_item-without (c ∷ ret) item r h = without-append 10 (c ∷ ret) (b',' ∷ item) r h

scan_bit-without :
    (bits : Bits) (i : ℕ) (start : Option ℕ) (ret : Text)
    → without 10 ret ≡ true
    → without 10 (scan_bit bits i (record { start_idx = start; ret = ret })).ret ≡ true
unfolding scan_bit
scan_bit-without bits i none ret h = ground arith
scan_bit-without bits i (some start) ret h = elim (Bool-cases (bits i)) [
  | inl set ↦ rw set h
  | inr clear ↦
      rw clear
        (append_item-without ret (print_run start (i - 1)) h (print_run-without start (i - 1)))
]

scan_bits-without :
    (bits : Bits) (n i : ℕ) (s : Scan)
    → without 10 s.ret ≡ true
    → without 10 (scan_bits bits n i s).ret ≡ true
unfolding scan_bits
scan_bits-without bits zero i s h = h
scan_bits-without bits (suc n) i s h =
    scan_bits-without bits n (i + 1) (scan_bit bits i s)
      (scan_bit-without bits i s.start_idx s.ret h)

bits_to_string-without : (bits : Bits) (n : ℕ) → without 10 (bits_to_string bits n) ≡ true
unfolding bits_to_string without
bits_to_string-without bits n =
    scan_bits-without bits n 0 (record { start_idx = none; ret = [] }) refl

bits_in_buf-without :
    (bits : Bits) (n : ℕ) (t : Text) → bits_in_buf bits n ≡ ok t → without 10 t ≡ true
unfolding bits_in_buf
bits_in_buf-without bits n t h = elim (Bool-cases (ltb (length (bits_to_string bits n)) 1024)) [
  | inl fits ↦
      let e : ok (bits_to_string bits n) ≡ ok t = rw fits at h in
      subst (λ x. without 10 x ≡ true) (ok-injective e) (bits_to_string-without bits n)
  | inr longer ↦ let e : fault ≡ ok t = rw longer at h in cc
]

nodes_in_buf-without : (nodes : Bits) (t : Text) → nodes_in_buf nodes ≡ ok t → without 10 t ≡ true
unfolding nodes_in_buf without
nodes_in_buf-without nodes t h = elim (Bool-cases (any_bit nodes 64)) [
  | inl some_node ↦
      let (u, run, e) = >>=-eq-ok (bits_in_buf nodes 64) _ (rw some_node at h) in
      subst (λ x. without 10 x ≡ true) (ok-injective e) (bits_in_buf-without nodes 64 u run)
  | inr none_set ↦
      let e : ok [] ≡ ok t = rw none_set at h in
      subst (λ x. without 10 x ≡ true) (ok-injective e) refl
]

pub affinity_to_string-without :
    (a : Affinity) (t : Text) → affinity_to_string a ≡ ok t → without 10 t ≡ true
unfolding affinity_to_string without
affinity_to_string-without a t h =
    let (cpus, one, rest) = >>=-eq-ok (bits_in_buf a.cpumask cpu_setsize) _ h in
    let (nodes, other, e) = >>=-eq-ok (nodes_in_buf a.nodemask) _ rest in
    subst (λ x. without 10 x ≡ true) (ok-injective e)
      (without-append 10 (show_int a.tid) (b':' ∷ (cpus ++ nodes))
        (show_int-without 10 a.tid (omega arith))
        (without-append 10 cpus nodes (bits_in_buf-without a.cpumask cpu_setsize cpus one)
          (nodes_in_buf-without a.nodemask nodes other)))

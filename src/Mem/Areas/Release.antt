-- ===== src/Mem/Areas/Release.antt =====
-- What `main` of src/micbench-mem.c has opened and mapped for its threads is closed and unmapped.
use micbench.Base.{
  ok-injective, if◌then◌else◌, sym, ℕ, ◌+◌, ◌≡◌, refl, true, false, Option, List, [], ◌∷◌, ◌++◌, ok,
  arith, ap, ◌∙◌, >>=-eq-ok, Bool-cases, inl, inr, map, subst,
}
use mathlib.Core.List.{append_assoc, append-nil}
use micbench.Base.Int.{ℤ, negsuc, pos_part}
use micbench.Affinity.{Affinity}
use micbench.Affinity.Arguments.{thread_affinities}
use micbench.Mem.Args.{MemOption}
use micbench.Mem.Areas.{
  Address, Kernel, Area, Areas, Held, open_hugetlb, map_file, bind_nodes, map_each, first_affinity,
  map_local, map_shared, allocate, close_file, close_each, unmap_each, unmap_first, release,
}

abbrev pub nothing : Held
nothing = record { opened = []; mapped = [] }

-- A call adds `fds` to the open descriptors and `areas` to the areas.
record Adds (h h' : Held) (fds : List ℤ) (areas : List Address) : Type 0 where
  opened : h'.opened ≡ h.opened ++ fds
  mapped : h'.mapped ≡ h.mapped ++ areas

Adds-trans :
    {h h₁ h₂ : Held} (fds fds' : List ℤ) (areas areas' : List Address)
    → Adds h h₁ fds areas
    → Adds h₁ h₂ fds' areas'
    → Adds h h₂ (fds ++ fds') (areas ++ areas')
Adds-trans {h} fds fds' areas areas' a b = record {
  opened = b.opened ∙ ap (λ xs. xs ++ fds') a.opened ∙ append_assoc h.opened fds fds';
  mapped = b.mapped ∙ ap (λ xs. xs ++ areas') a.mapped ∙ append_assoc h.mapped areas areas';
}

open_hugetlb-Adds :
    (opt : MemOption) (k : Kernel) (i : ℕ) (h : Held) (r : ℤ × Held)
    → open_hugetlb opt k i h ≡ ok r
    → Adds h r.1 (close_file r.0) []
unfolding open_hugetlb close_file
open_hugetlb-Adds opt k i h r e = ground (arith, append-nil h.opened, append-nil h.mapped)

map_file-Adds :
    (k : Kernel) (i : ℕ) (fd : ℤ) (h : Held) (r : Address × Held)
    → map_file k i fd h ≡ ok r
    → Adds h r.1 [] (r.0 ∷ [])
unfolding map_file
map_file-Adds k i fd h r e = ground (arith, append-nil h.opened)

-- A descriptor and an area, and then others.
one_more :
    {h h₁ h₂ h₃ : Held} (fd : ℤ) (area : Address) (rest : List Area)
    → Adds h h₁ (close_file fd) []
    → Adds h₁ h₂ [] (area ∷ [])
    → Adds h₂ h₃ (close_each rest) (unmap_each rest)
    → Adds h h₃ (close_file fd ++ close_each rest) (area ∷ unmap_each rest)
one_more fd area rest a b c =
    Adds-trans (close_file fd) (close_each rest) [] (area ∷ unmap_each rest) a
      (Adds-trans [] (close_each rest) (area ∷ []) (unmap_each rest) b c)

map_each-Adds :
    (opt : MemOption) (k : Kernel) (affs : List (Option Affinity)) (i : ℕ) (h : Held)
    → (r : List Area × Held) → map_each opt k affs i h ≡ ok r
    → Adds h r.1 (close_each r.0) (unmap_each r.0)
unfolding map_each close_each unmap_each
map_each-Adds opt k [] i h r e = ground (arith, append-nil h.opened, append-nil h.mapped)
map_each-Adds opt k (aff ∷ affs) i h r e =
    let (o, one, e₁) = >>=-eq-ok (open_hugetlb opt k i h) _ e in
    let (m, two, e₂) = >>=-eq-ok (map_file k i o.0 o.1) _ e₁ in
    let (bound, three, e₃) = >>=-eq-ok (bind_nodes k i aff) _ e₂ in
    let (each, four, e₄) = >>=-eq-ok (map_each opt k affs (i + 1) m.1) _ e₃ in
    let all =
      one_more o.0 m.0 each.0 (open_hugetlb-Adds opt k i h o one) (map_file-Adds k i o.0 o.1 m two)
        (map_each-Adds opt k affs (i + 1) m.1 each four) in
    subst (λ x. Adds h x.1 (close_each x.0) (unmap_each x.0)) (ok-injective e₄) all

no_files :
    {A : Type 0} (area : Address) (affs : List A)
    → close_each (map (λ _. record { working_area = area; fd = negsuc 0 }) affs) ≡ []
unfolding close_each close_file
no_files area [] = refl
no_files area (aff ∷ affs) = no_files area affs

each-release :
    (opt : MemOption) (r : List Area × Held)
    → opt.local ≡ true
    → Adds nothing r.1 (close_each r.0) (unmap_each r.0)
    → release opt (record { args = r.0; fd = negsuc 0 }) ≡ ok (r.1.mapped, r.1.opened)
unfolding release close_file
each-release opt r each a = rw (each, a.opened, a.mapped) refl

shared-release :
    (opt : MemOption) (fd : ℤ) (area : Address) (affs : List (Option Affinity))
    → (aff : Option Affinity) (h : Held) → opt.local ≡ false
    → first_affinity affs ≡ ok aff
    → Adds nothing h (close_file fd) (area ∷ [])
    → release opt
        (record { args = map (λ _. record { working_area = area; fd = negsuc 0 }) affs; fd = fd })
      ≡ ok (h.mapped, h.opened)
unfolding release first_affinity unmap_first
shared-release opt fd area [] aff h shared first a = cc
shared-release opt fd area (x ∷ affs) aff h shared first a =
    rw (shared, no_files area (x ∷ affs), append-nil (close_file fd), a.opened, a.mapped) refl

allocated-each :
    (opt : MemOption) (k : Kernel) (affs : List (Option Affinity)) (s : Areas) (h : Held)
    → opt.local ≡ true
    → map_local opt k affs nothing ≡ ok (s, h)
    → release opt s ≡ ok (h.mapped, h.opened)
unfolding map_local
allocated-each opt k affs s h each e =
    let (r, run, e₁) = >>=-eq-ok (map_each opt k affs 0 nothing) _ e in
    subst (λ x. release opt x.0 ≡ ok (x.1.mapped, x.1.opened)) (ok-injective e₁)
      (each-release opt r each (map_each-Adds opt k affs 0 nothing r run))

allocated-shared :
    (opt : MemOption) (k : Kernel) (affs : List (Option Affinity)) (s : Areas) (h : Held)
    → opt.local ≡ false
    → map_shared opt k affs nothing ≡ ok (s, h)
    → release opt s ≡ ok (h.mapped, h.opened)
unfolding map_shared
allocated-shared opt k affs s h shared e =
    let (o, one, e₁) = >>=-eq-ok (open_hugetlb opt k 0 nothing) _ e in
    let (m, two, e₂) = >>=-eq-ok (map_file k 0 o.0 o.1) _ e₁ in
    let (aff, three, e₃) = >>=-eq-ok (first_affinity affs) _ e₂ in
    let (bound, four, e₄) = >>=-eq-ok (bind_nodes k 0 aff) _ e₃ in
    let both =
      Adds-trans (close_file o.0) [] [] (m.0 ∷ []) (open_hugetlb-Adds opt k 0 nothing o one)
        (map_file-Adds k 0 o.0 o.1 m two) in
    let held : Adds nothing m.1 (close_file o.0) (m.0 ∷ []) =
      subst (λ fds. Adds nothing m.1 fds (m.0 ∷ [])) (append-nil (close_file o.0)) both in
    subst (λ x. release opt x.0 ≡ ok (x.1.mapped, x.1.opened)) (ok-injective e₄)
      (shared-release opt o.0 m.0 affs aff m.1 shared three held)

-- When `main` has opened its files and mapped the areas of its threads, it unmaps at its end exactly
-- these areas and closes exactly these files, each once and in order, with `-L` and without.
pub release-allocate :
    (opt : MemOption) (k : Kernel) (s : Areas) (h : Held)
    → allocate opt k nothing ≡ ok (s, h)
    → release opt s ≡ ok (h.mapped, h.opened)
unfolding allocate
release-allocate opt k s h e =
    let (affs, zeroth, e₀) =
      >>=-eq-ok (thread_affinities opt.affinities (pos_part opt.multi) 0) _ e in
    let own = map_local opt k affs nothing in
    let one = map_shared opt k affs nothing in
    elim (Bool-cases opt.local) [
      | inl each ↦
          allocated-each opt k affs s h each (sym (ap (λ b. if b then own else one) each) ∙ e₀)
      | inr shared ↦
          allocated-shared opt k affs s h shared
            (sym (ap (λ b. if b then own else one) shared) ∙ e₀)
    ]

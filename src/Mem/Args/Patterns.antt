-- ===== src/Mem/Args/Patterns.antt =====
-- What `parse_args` leaves of the two patterns of access.
use micbench.Base.{◌≡◌, refl, not, List, [], ◌∷◌, ok, >>=-eq-ok, subst, arith}
use micbench.Affinity.Arguments.{Opt}
use micbench.Mem.Args.{MemOption, defaults, set_option, set_options, parse_args}

abbrev pub OnePattern : MemOption → Type 0
OnePattern opt = opt.seq ≡ not opt.rand

set_option-OnePattern :
    (o : Opt) (opt opt' : MemOption) → OnePattern opt → set_option o opt ≡ ok opt' → OnePattern opt'
unfolding set_option
set_option-OnePattern o opt opt' one h = ground arith

set_options-OnePattern :
    (os : List Opt) (opt opt' : MemOption)
    → OnePattern opt
    → set_options os opt ≡ ok opt'
    → OnePattern opt'
unfolding set_options
set_options-OnePattern [] opt opt' one h = let same : opt ≡ opt' = cc in subst OnePattern same one
set_options-OnePattern (o ∷ os) opt opt' one h =
    let (opt₁, first, rest) = >>=-eq-ok (set_option o opt) (set_options os) h in
    set_options-OnePattern os opt₁ opt' (set_option-OnePattern o opt opt₁ one first) rest

-- Whatever the options and their order, options that `parse_args` accepts leave exactly one pattern of
-- access set.
parse_args-OnePattern :
    (opts : List Opt) (opt : MemOption) → parse_args opts ≡ ok opt → opt.seq ≡ not opt.rand
unfolding parse_args
parse_args-OnePattern opts opt h = set_options-OnePattern opts defaults opt refl h

-- ===== src/Lock/Args/Sizes.antt =====
-- What `parse_args` leaves of the sizes of the jobs.
use micbench.Base.{
  ℕ, zero, suc, ◌≡◌, refl, List, [], ◌∷◌, ok, >>=-eq-ok, inl, inr, subst, sym, arith, ◌⊎◌,
}
use micbench.Base.Int.{ℤ, pos, negsuc}
use micbench.Affinity.Arguments.{Opt, long_arg}
use micbench.Lock.Args.{LockOption, defaults, job_size, set_option, set_options, parse_args}

abbrev pub IsPositive : ℤ → Type 0
IsPositive z = (n : ℕ) × (z ≡ pos (suc n))

-- The sizes of both jobs are positive.
pub record Sizes (opt : LockOption) : Type 0 where
  pub critical : IsPositive opt.critical_job_size
  pub noncritical : IsPositive opt.noncritical_job_size

job_size-IsPositive : (z z' : ℤ) → job_size z ≡ ok z' → IsPositive z'
unfolding job_size
job_size-IsPositive (pos zero) z' h = cc
job_size-IsPositive (pos (suc n)) z' h = (n, cc)
job_size-IsPositive (negsuc n) z' h = cc

set_option-critical :
    (o : Opt) (opt opt' : LockOption)
    → set_option o opt ≡ ok opt'
    → (opt'.critical_job_size ≡ opt.critical_job_size)
      ⊎ (job_size (long_arg o.optarg) ≡ ok opt'.critical_job_size)
unfolding set_option
set_option-critical o opt opt' h = ground arith

set_option-noncritical :
    (o : Opt) (opt opt' : LockOption)
    → set_option o opt ≡ ok opt'
    → (opt'.noncritical_job_size ≡ opt.noncritical_job_size)
      ⊎ (job_size (long_arg o.optarg) ≡ ok opt'.noncritical_job_size)
unfolding set_option
set_option-noncritical o opt opt' h = ground arith

kept_or_checked : (z z' arg : ℤ) → IsPositive z → (z' ≡ z) ⊎ (job_size arg ≡ ok z') → IsPositive z'
kept_or_checked z z' arg v (inl e) = subst IsPositive (sym e) v
kept_or_checked z z' arg v (inr h) = job_size-IsPositive arg z' h

set_options-Sizes :
    (os : List Opt) (opt opt' : LockOption) → Sizes opt → set_options os opt ≡ ok opt' → Sizes opt'
unfolding set_options
set_options-Sizes [] opt opt' v h = let same : opt ≡ opt' = cc in subst Sizes same v
set_options-Sizes (o ∷ os) opt opt' v h =
    let (opt₁, first, rest) = >>=-eq-ok (set_option o opt) (set_options os) h in
    let size = long_arg o.optarg in
    let v₁ : Sizes opt₁ = record {
      critical =
          kept_or_checked opt.critical_job_size opt₁.critical_job_size size v.critical
            (set_option-critical o opt opt₁ first);
      noncritical =
          kept_or_checked opt.noncritical_job_size opt₁.noncritical_job_size size v.noncritical
            (set_option-noncritical o opt opt₁ first);
    } in
    set_options-Sizes os opt₁ opt' v₁ rest

-- Whatever the options and their order, options that `parse_args` accepts leave the sizes of both jobs
-- positive.
pub parse_args-Sizes : (opts : List Opt) (opt : LockOption) → parse_args opts ≡ ok opt → Sizes opt
unfolding parse_args
parse_args-Sizes opts opt h =
    set_options-Sizes opts defaults opt (record { critical = (9, refl); noncritical = (999, refl) })
      h

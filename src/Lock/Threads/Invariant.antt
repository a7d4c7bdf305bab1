-- ===== src/Lock/Threads/Invariant.antt =====
-- Who holds the lock.
use micbench.Base.{
  ℕ, zero, suc, ◌≤◌, ◌<◌, ◌≡◌, ◌≢◌, refl, Option, none, some, List, [], ◌∷◌, length, get_elem?, set,
  ltb, replicate, arith, Bool-cases, inl, inr, get_elem?-set_self, get_elem?-set_ne, ℕ_discrete,
  sym, ◌∙◌, Option-cases, ◌⊎◌, subst, ap, some-injective,
}
use micbench.Lock.Threads.{
  Pc, starting, at_barrier, ready, holding, resting, finished, System, some_starting, advance, move,
  Run, here, later, start,
}

-- a thread has done no more rounds than there are
abbrev pub InRounds : ℕ → Pc → Type 0
InRounds count (ready i) = i ≤ count
InRounds count (holding i) = i < count
InRounds count (resting i) = i < count
InRounds count _ = Unit {0}

-- The holder of the lock is the one thread that stands behind `lock` and before `unlock`.
pub record Inv (count : ℕ) (s : System) : Type 0 where
  pub owner : (t i : ℕ) → get_elem? s.pcs t ≡ some (holding i) → s.lock ≡ some t
  pub held : (t : ℕ) → s.lock ≡ some t → (i : ℕ) × (get_elem? s.pcs t ≡ some (holding i))
  pub rounds : (t : ℕ) (p : Pc) → get_elem? s.pcs t ≡ some p → InRounds count p

pub get_elem?-lt {ℓ} :
    {A : Type ℓ} (xs : List A) (i : ℕ) {x : A} → get_elem? xs i ≡ some x → i < length xs
get_elem?-lt [] i e = cc
get_elem?-lt (x ∷ xs) zero e = omega arith
get_elem?-lt (x ∷ xs) (suc i) e = omega (arith, get_elem?-lt xs i e)

-- A thread after a change of one thread: it is that one, or it stands as before.
set-cases :
    (ps : List Pc) (t u : ℕ) (p q r : Pc)
    → get_elem? ps t ≡ some p
    → get_elem? (set ps t q) u ≡ some r
    → ((u ≡ t) × (r ≡ q)) ⊎ ((u ≢ t) × (get_elem? ps u ≡ some r))
set-cases ps t u p q r at_t at_u = elim (ℕ_discrete t u) [
  | yes same ↦
      let here = get_elem?-set_self ps t q (get_elem?-lt ps t at_t) in
      let at : get_elem? (set ps t q) t ≡ some r = ap (get_elem? (set ps t q)) same ∙ at_u in
      inl (sym same, some-injective (sym at ∙ here))
  | no other ↦ inr ((λ e. other (sym e)), sym (get_elem?-set_ne ps q other) ∙ at_u)
]

module _ {count : ℕ} {s : System} (v : Inv count s) (t : ℕ) (p : Pc)
    (at_t : get_elem? s.pcs t ≡ some p) where
  -- The thread `t` goes to `q`, and the lock to `lock`, which changes for no other thread.
  change-Inv :
      (q : Pc) (lock : Option ℕ)
      → InRounds count q
      → ((i : ℕ) → q ≡ holding i → lock ≡ some t)
      → (lock ≡ some t → (i : ℕ) × (q ≡ holding i))
      → ((u : ℕ) → u ≢ t → s.lock ≡ some u → lock ≡ some u)
      → ((u : ℕ) → u ≢ t → lock ≡ some u → s.lock ≡ some u)
      → Inv count (record { lock = lock; pcs = set s.pcs t q })
  change-Inv q lock in_rounds takes holds kept back = record {
    owner = λ u i at_u. elim (set-cases s.pcs t u p q (holding i) at_t at_u) [
      | inl (same, e) ↦ rw same (takes i (sym e))
      | inr (other, before) ↦ kept u other (v.owner u i before)
    ];
    held = λ u taken. elim (ℕ_discrete u t) [
      | yes same ↦
          let (i, e) = holds (rw same at taken) in
          (i, rw (same, ← e) (get_elem?-set_self s.pcs t q (get_elem?-lt s.pcs t at_t)))
      | no other ↦
          let (i, at_u) = v.held u (back u other taken) in
          (i, get_elem?-set_ne s.pcs q (λ e. other (sym e)) ∙ at_u)
    ];
    rounds = λ u r at_u. elim (set-cases s.pcs t u p q r at_t at_u) [
      | inl (same, e) ↦ rw e in_rounds
      | inr (other, before) ↦ v.rounds u r before
    ];
  }

  -- A step outside the lock: neither place has the lock.
  outside-Inv :
      (q : Pc)
      → InRounds count q
      → ((i : ℕ) → p ≢ holding i)
      → ((i : ℕ) → q ≢ holding i)
      → Inv count (record s { pcs = set s.pcs t q })
  outside-Inv q in_rounds before after =
      change-Inv q s.lock in_rounds (λ i e. absurd (after i e))
        (λ mine. let (i, at) = v.held t mine in absurd (before i (some-injective (sym at_t ∙ at))))
        (λ u other e. e) (λ u other e. e)

-- Every step keeps the invariant.
advance-Inv :
    (count : ℕ) (s s' : System) (t : ℕ) (p : Pc)
    → Inv count s
    → get_elem? s.pcs t ≡ some p
    → advance count s t p ≡ some s'
    → Inv count s'
unfolding advance
advance-Inv count s s' t starting v at_t h =
    subst (Inv count) (some-injective h)
      (outside-Inv v t starting at_t at_barrier tt (λ i e. cc) (λ i e. cc))
advance-Inv count s s' t at_barrier v at_t h = elim (Bool-cases (some_starting s.pcs)) [
  | inl wait ↦ cc (rw wait at h)
  | inr pass ↦
      subst (Inv count) (some-injective (rw pass at h))
        (outside-Inv v t at_barrier at_t (ready 0) (omega arith) (λ i e. cc) (λ i e. cc))
]
advance-Inv count s s' t (ready i) v at_t h = elim (Bool-cases (ltb i count)) [
  | inr over ↦
      subst (Inv count) (some-injective (rw over at h))
        (outside-Inv v t (ready i) at_t finished tt (λ j e. cc) (λ j e. cc))
  | inl more ↦ elim (Option-cases s.lock) [
    | inr (u, taken) ↦ cc (rw (more, taken) at h)
    | inl free ↦ subst (Inv count) (some-injective (rw (more, free) at h)) (
        change-Inv v t (ready i) at_t (holding i) (some t) (ground arith) (λ j e. refl)
          (λ e. (i, refl)) (λ u other e. cc) (λ u other e. absurd (other (sym (some-injective e)))))
  ]
]
advance-Inv count s s' t (holding i) v at_t h =
    let mine = v.owner t i at_t in
    subst (Inv count) (some-injective h) (
      change-Inv v t (holding i) at_t (resting i) none (v.rounds t (holding i) at_t) (λ j e. cc)
        (λ e. cc) (λ u other e. absurd (other (sym (some-injective (sym mine ∙ e)))))
        (λ u other e. cc))
advance-Inv count s s' t (resting i) v at_t h =
    let below = v.rounds t (resting i) at_t in
    subst (Inv count) (some-injective h)
      (outside-Inv v t (resting i) at_t (ready (suc i)) (omega arith) (λ j e. cc) (λ j e. cc))
advance-Inv count s s' t finished v at_t h = cc

pub move-Inv :
    (count : ℕ) (s s' : System) (t : ℕ) → Inv count s → move count s t ≡ some s' → Inv count s'
unfolding move
move-Inv count s s' t v h = elim (Option-cases (get_elem? s.pcs t)) [
  | inl gone ↦ cc (rw (move, gone) at h)
  | inr (p, at_t) ↦ advance-Inv count s s' t p v at_t (rw (move, at_t) at h)
]

replicate-starting : (n t : ℕ) (p : Pc) → get_elem? (replicate n starting) t ≡ some p → p ≡ starting
replicate-starting zero t p e = cc
replicate-starting (suc n) zero p e = cc
replicate-starting (suc n) (suc t) p e = replicate-starting n t p e

pub start-Inv : (count multi : ℕ) → Inv count (start multi)
start-Inv count multi = record {
  owner = λ t i at_t. let e = replicate-starting multi t (holding i) at_t in cc;
  held = λ t e. cc;
  rounds = λ t p at_t. let e = replicate-starting multi t p at_t in rw e tt;
}

pub Run-Inv : {count n : ℕ} {s s' : System} → Run count n s s' → Inv count s → Inv count s'
Run-Inv (here s) v = v
Run-Inv {count} (later {s = s} {s' = s'} t step run) v = Run-Inv run (move-Inv count s s' t v step)

-- Whatever the threads have done since `main` created them, two of them are never between the lock and
-- the unlock together.
pub mutual_exclusion :
    (count multi n : ℕ) (s : System)
    → Run count n (start multi) s
    → (t u i j : ℕ) → get_elem? s.pcs t ≡ some (holding i)
    → get_elem? s.pcs u ≡ some (holding j)
    → t ≡ u
mutual_exclusion count multi n s run t u i j at_t at_u =
    let v = Run-Inv run (start-Inv count multi) in
    some-injective (sym (v.owner t i at_t) ∙ v.owner u j at_u)

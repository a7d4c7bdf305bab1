-- ===== src/Btreplay/Threads/Performs.antt =====
-- What the workers do of the requests that they take.
use micbench.Base.{
  ℕ, zero, suc, ◌≡◌, ◌≢◌, refl, Bool, true, false, some, List, [], ◌∷◌, ◌++◌, get_elem?, set, ◌==◌,
  if◌then◌else◌, arith, sym, ◌∙◌, Option-cases, Bool-cases, some-injective, ap, subst, inl, inr,
  get_elem?-set_ne, ℕ_discrete,
}
use micbench.Btreplay.{Trace, Ioreq, stop, trace, is_issue, is_write, ofst_of}
use micbench.Btreplay.Replay.{Transfer, performed, issued, do_thread_job-issued}
use micbench.Btreplay.Threads.{
  Replay, Thread, reader, worker, push, after_take, pop, take_turn, move, Run, here, later, start,
  taken_by, calls_of,
}

-- The transfers that requests ask for, also behind a sign to stop.
pub transfers : List Ioreq → List Transfer
transfers [] = []
transfers (stop ∷ q) = transfers q
transfers (trace t ∷ q) =
    let rest = transfers q in if is_issue t then (is_write t, ofst_of t, t.bytes) ∷ rest else rest

has_stop : List Ioreq → Bool
has_stop [] = false
has_stop (stop ∷ q) = true
has_stop (trace t ∷ q) = has_stop q

-- No worker takes a request behind a sign to stop.
record Obeys (s : Replay) : Type 0 where
  none_missed : (t : ℕ) → issued (taken_by t s.history) ≡ transfers (taken_by t s.history)
  runs_on : (t : ℕ) → get_elem? s.running t ≡ some true → has_stop (taken_by t s.history) ≡ false

issued-last :
    (q : List Ioreq) (r : Ioreq)
    → has_stop q ≡ false
    → issued (q ++ r ∷ []) ≡ transfers (q ++ r ∷ [])
unfolding has_stop transfers issued
issued-last [] stop h = refl
issued-last [] (trace t) h = refl
issued-last (stop ∷ q) r h = cc
issued-last (trace t ∷ q) r h = rw (issued-last q r h) refl

has_stop-last :
    (q : List Ioreq) (t : Trace) → has_stop q ≡ false → has_stop (q ++ trace t ∷ []) ≡ false
unfolding has_stop
has_stop-last [] t h = refl
has_stop-last (stop ∷ q) t h = cc
has_stop-last (trace u ∷ q) t h = has_stop-last q t h

taken_by-own :
    (h : List (ℕ × Ioreq)) (t : ℕ) (r : Ioreq)
    → taken_by t (h ++ (t, r) ∷ []) ≡ taken_by t h ++ r ∷ []
unfolding taken_by
taken_by-own [] t r = let same : (t == t) ≡ true = ground arith in rw same refl
taken_by-own ((u, x) ∷ h) t r = elim (Bool-cases (u == t)) [
  | inl own ↦ rw (own, taken_by-own h t r) refl
  | inr other ↦ rw (other, taken_by-own h t r) refl
]

taken_by-other :
    (h : List (ℕ × Ioreq)) (t u : ℕ) (r : Ioreq)
    → u ≢ t
    → taken_by t (h ++ (u, r) ∷ []) ≡ taken_by t h
unfolding taken_by
taken_by-other [] t u r ne = let differ : (u == t) ≡ false = ground arith in rw differ refl
taken_by-other ((v, x) ∷ h) t u r ne = elim (Bool-cases (v == t)) [
  | inl own ↦ rw (own, taken_by-other h t u r ne) refl
  | inr other ↦ rw (other, taken_by-other h t u r ne) refl
]

set-false-ne : (bs : List Bool) (t : ℕ) → get_elem? (set bs t false) t ≢ some true
set-false-ne [] t e = cc
set-false-ne (b ∷ bs) zero e = cc
set-false-ne (b ∷ bs) (suc t) e = set-false-ne bs t e

-- The worker `t`, which runs, takes `r`.
take-runs_on :
    (s : Replay) (t u : ℕ) (r : Ioreq)
    → get_elem? s.running t ≡ some true
    → Obeys s
    → get_elem? (after_take s.running t r) u ≡ some true
    → has_stop (taken_by u (s.history ++ (t, r) ∷ [])) ≡ false
unfolding after_take
take-runs_on s t u (trace x) runs v e = elim (ℕ_discrete t u) [
  | yes same ↦
      rw (← same, taken_by-own s.history t (trace x))
        (has_stop-last (taken_by t s.history) x (v.runs_on t runs))
  | no other ↦ rw (taken_by-other s.history u t (trace x) other) (v.runs_on u e)
]
take-runs_on s t u stop runs v e = elim (ℕ_discrete t u) [
  | yes same ↦ absurd (set-false-ne s.running t (ap (get_elem? (set s.running t false)) same ∙ e))
  | no other ↦
      rw (taken_by-other s.history u t stop other)
        (v.runs_on u (sym (get_elem?-set_ne s.running false other) ∙ e))
]

take-Obeys :
    (s : Replay) (t : ℕ) (r : Ioreq) (q : List Ioreq)
    → get_elem? s.running t ≡ some true
    → Obeys s
    → Obeys (record s {
      queue = q;
      running = after_take s.running t r;
      history = s.history ++ (t, r) ∷ [];
    })
take-Obeys s t r q runs v = record {
  none_missed = λ u. elim (ℕ_discrete t u) [
    | yes same ↦
        rw (← same, taken_by-own s.history t r)
          (issued-last (taken_by t s.history) r (v.runs_on t runs))
    | no other ↦ rw (taken_by-other s.history u t r other) (v.none_missed u)
  ];
  runs_on = λ u e. take-runs_on s t u r runs v e;
}

push-Obeys : (s s' : Replay) (rs : List Ioreq) → Obeys s → push s rs ≡ some s' → Obeys s'
unfolding push
push-Obeys s s' [] v h = cc
push-Obeys s s' (r ∷ rs) v h =
    subst Obeys (some-injective h) (record { none_missed = v.none_missed; runs_on = v.runs_on })

pop-Obeys :
    (s s' : Replay) (t : ℕ) (q : List Ioreq)
    → get_elem? s.running t ≡ some true
    → Obeys s
    → pop s t q ≡ some s'
    → Obeys s'
unfolding pop
pop-Obeys s s' t [] runs v h = cc
pop-Obeys s s' t (r ∷ q) runs v h = subst Obeys (some-injective h) (take-Obeys s t r q runs v)

move-Obeys : (s s' : Replay) (t : Thread) → Obeys s → move s t ≡ some s' → Obeys s'
unfolding move take_turn
move-Obeys s s' reader v h = push-Obeys s s' s.unread v h
move-Obeys s s' (worker t) v h = elim (Option-cases (get_elem? s.running t)) [
  | inl gone ↦ cc (rw (move, gone) at h)
  | inr (true, runs) ↦ pop-Obeys s s' t s.queue runs v (rw (move, runs) at h)
  | inr (false, ended) ↦ cc (rw (move, ended) at h)
]

Run-Obeys : {n : ℕ} {s s' : Replay} → Run n s s' → Obeys s → Obeys s'
Run-Obeys (here s) v = v
Run-Obeys (later {s = s} {s' = s₁} t step run) v = Run-Obeys run (move-Obeys s s₁ t v step)

start-Obeys : (multi : ℕ) (traces : List Trace) → Obeys (start multi traces)
unfolding taken_by transfers issued has_stop
start-Obeys multi traces = record { none_missed = λ t. refl; runs_on = λ t e. refl }

-- At any moment of any interleaving, wherever the file stood, and if every seek and every transfer
-- succeeds as a whole, the system calls of each worker perform all the issued requests that it has
-- taken from the queue, in order, each at its own offset and with its own length and direction.
pub worker_performs :
    (multi : ℕ) (traces : List Trace) (n : ℕ) (s : Replay) (t at : ℕ)
    → Run n (start multi traces) s
    → performed at (calls_of t s) ≡ transfers (taken_by t s.history)
unfolding calls_of
worker_performs multi traces n s t at run =
    let v = Run-Obeys run (start-Obeys multi traces) in
    do_thread_job-issued (taken_by t s.history) at ∙ v.none_missed t

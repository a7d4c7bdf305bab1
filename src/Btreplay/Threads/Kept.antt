-- ===== src/Btreplay/Threads/Kept.antt =====
-- Where the requests are.
use mathlib.Core.List.{append_assoc}
use micbench.Base.{
  ℕ, zero, suc, ◌+◌, ◌*◌, ◌≡◌, refl, Bool, true, false, some, List, [], ◌∷◌, ◌++◌, length,
  get_elem?, set, replicate, arith, sym, ◌∙◌, Option-cases, some-injective, ap, length-append,
  subst, inl, inr,
}
use micbench.Btreplay.{Trace, Ioreq, stop, trace}
use micbench.Btreplay.Threads.{
  Replay, Thread, reader, worker, push, after_take, pop, take_turn, move, Run, here, later,
  all_requests, start, taken,
}

unfoldable pub stops : List Ioreq → ℕ
stops [] = 0
stops (stop ∷ rs) = suc (stops rs)
stops (trace x ∷ rs) = stops rs

unfoldable pub running_count : List Bool → ℕ
running_count [] = 0
running_count (true ∷ bs) = suc (running_count bs)
running_count (false ∷ bs) = running_count bs

stops-append : (xs ys : List Ioreq) → stops (xs ++ ys) ≡ stops xs + stops ys
unfolding stops
stops-append [] ys = omega arith
stops-append (stop ∷ xs) ys = omega (arith, stops-append xs ys)
stops-append (trace x ∷ xs) ys = stops-append xs ys

taken-append : (h k : List (ℕ × Ioreq)) → taken (h ++ k) ≡ taken h ++ taken k
unfolding taken
taken-append [] k = refl
taken-append ((t, r) ∷ h) k = ap (λ rs. r ∷ rs) (taken-append h k)

running_count-set :
    (bs : List Bool) (t : ℕ)
    → get_elem? bs t ≡ some true
    → suc (running_count (set bs t false)) ≡ running_count bs
unfolding running_count
running_count-set [] t e = cc
running_count-set (true ∷ bs) zero e = refl
running_count-set (false ∷ bs) zero e = cc
running_count-set (true ∷ bs) (suc t) e = ap suc (running_count-set bs t e)
running_count-set (false ∷ bs) (suc t) e = running_count-set bs t e

-- Each request of `all` has been taken, is in the queue or is unread, in this order; and there is a
-- sign to stop for each worker that runs.
pub record Kept (all : List Ioreq) (s : Replay) : Type 0 where
  pub whole : taken s.history ++ (s.queue ++ s.unread) ≡ all
  pub signs : stops (s.queue ++ s.unread) ≡ running_count s.running

-- the steps left
abbrev pub steps_left : Replay → ℕ
steps_left s = 2 * length s.unread + length s.queue

push-Kept :
    (all : List Ioreq) (s s' : Replay) (rs : List Ioreq)
    → rs ≡ s.unread
    → Kept all s
    → push s rs ≡ some s'
    → Kept all s' × (steps_left s' + 1 ≡ steps_left s)
unfolding push
push-Kept all s s' [] e v h = cc
push-Kept all s s' (r ∷ rs) e v h =
    let same = append_assoc s.queue (r ∷ []) rs in
    let whole = v.whole in
    let signs = v.signs in
    subst (λ x. Kept all x × (steps_left x + 1 ≡ steps_left s)) (some-injective h)
      (
        record { whole = rw (same, e) whole; signs = rw (same, e) signs },
        omega (arith, length-append s.queue (r ∷ []), ap length e),
      )

after_take-signs :
    (bs : List Bool) (t : ℕ) (r : Ioreq) (rest : List Ioreq)
    → get_elem? bs t ≡ some true
    → stops (r ∷ rest) ≡ running_count bs
    → stops rest ≡ running_count (after_take bs t r)
unfolding stops after_take
after_take-signs bs t stop rest runs e = omega (arith, running_count-set bs t runs)
after_take-signs bs t (trace x) rest runs e = e

pop-Kept :
    (all : List Ioreq) (s s' : Replay) (t : ℕ) (q : List Ioreq)
    → q ≡ s.queue
    → get_elem? s.running t ≡ some true
    → Kept all s
    → pop s t q ≡ some s'
    → Kept all s' × (steps_left s' + 1 ≡ steps_left s)
unfolding pop taken
pop-Kept all s s' t [] e runs v h = cc
pop-Kept all s s' t (r ∷ q) e runs v h =
    let before : stops ((r ∷ q) ++ s.unread) ≡ running_count s.running =
      ap (λ x. stops (x ++ s.unread)) e ∙ v.signs in
    subst (λ x. Kept all x × (steps_left x + 1 ≡ steps_left s)) (some-injective h)
      (
        record {
          whole =
              ap (λ x. x ++ (q ++ s.unread)) (taken-append s.history ((t, r) ∷ []))
              ∙ append_assoc (taken s.history) (r ∷ []) (q ++ s.unread)
              ∙ ap (λ x. taken s.history ++ (x ++ s.unread)) e
              ∙ v.whole;
          signs = after_take-signs s.running t r (q ++ s.unread) runs before;
        },
        omega (arith, ap length e),
      )

pub move-Kept :
    (all : List Ioreq) (s s' : Replay) (t : Thread)
    → Kept all s
    → move s t ≡ some s'
    → Kept all s' × (steps_left s' + 1 ≡ steps_left s)
unfolding move take_turn
move-Kept all s s' reader v h = push-Kept all s s' s.unread refl v h
move-Kept all s s' (worker t) v h = elim (Option-cases (get_elem? s.running t)) [
  | inl gone ↦ cc (rw (move, gone) at h)
  | inr (true, runs) ↦ pop-Kept all s s' t s.queue refl runs v (rw (move, runs) at h)
  | inr (false, ended) ↦ cc (rw (move, ended) at h)
]

pub Run-Kept :
    (all : List Ioreq) {n : ℕ} {s s' : Replay}
    → Run n s s'
    → Kept all s
    → Kept all s' × (n + steps_left s' ≡ steps_left s)
Run-Kept all (here s) v = (v, omega arith)
Run-Kept all (later {s = s} {s' = s₁} t step run) v =
    let (v₁, less) = move-Kept all s s₁ t v step in
    let (v', rest) = Run-Kept all run v₁ in (v', omega arith)

pub stops-all_requests :
    (multi : ℕ) (traces : List Trace) → stops (all_requests multi traces) ≡ multi
unfolding stops all_requests
stops-all_requests zero [] = refl
stops-all_requests (suc multi) [] = ap suc (stops-all_requests multi [])
stops-all_requests multi (x ∷ xs) = stops-all_requests multi xs

running_count-replicate : (n : ℕ) → running_count (replicate n true) ≡ n
unfolding running_count
running_count-replicate zero = refl
running_count-replicate (suc n) = ap suc (running_count-replicate n)

pub start-Kept :
    (multi : ℕ) (traces : List Trace) → Kept (all_requests multi traces) (start multi traces)
unfolding taken
start-Kept multi traces = record {
  whole = refl;
  signs = stops-all_requests multi traces ∙ sym (running_count-replicate multi);
}

-- At any moment of any interleaving each record of the dump and each sign to stop has been taken by
-- one worker, is in the queue, or is still to be put into it, in the order of the dump.
pub none_lost :
    (multi : ℕ) (traces : List Trace) (n : ℕ) (s : Replay)
    → Run n (start multi traces) s
    → taken s.history ++ (s.queue ++ s.unread) ≡ all_requests multi traces
none_lost multi traces n s run =
    let (v, steps) = Run-Kept (all_requests multi traces) run (start-Kept multi traces) in v.whole

-- ===== src/Base/Outcomes.antt =====
-- What a call of the program comes to: it returns, it calls exit(3), it goes through a pointer that
-- points at nothing, or it waits for an event that does not come.
use mathlib.Core.Path.{◌≡◌, refl, ap}
use mathlib.Core.Option.{Option, none, some}

pub data Outcome {ℓ} (A : Type ℓ) : Type ℓ where
  ok : A → Outcome A
  exit_failure : Outcome A
  fault : Outcome A
  waits : Outcome A

infixl 5 ◌>>=◌
abbrev pub ◌>>=◌ {ℓ κ} : {A : Type ℓ} {B : Type κ} → Outcome A → (A → Outcome B) → Outcome B
ok a >>= f = f a
exit_failure >>= f = exit_failure
fault >>= f = fault
waits >>= f = waits

-- A chain of two calls returns only if both return.
pub >>=-eq-ok {ℓ κ} :
    {X : Type ℓ} {Y : Type κ} (call : Outcome X) (k : X → Outcome Y) {y : Y}
    → (call >>= k) ≡ ok y
    → (x : X) × (call ≡ ok x) × (k x ≡ ok y)
>>=-eq-ok (ok x) k e = (x, refl, e)
>>=-eq-ok exit_failure k e = cc
>>=-eq-ok fault k e = cc
>>=-eq-ok waits k e = cc

-- The rest of a loop that runs on fuel, where `none` means that the fuel ran out.
abbrev pub resume {ℓ} : {A B : Type ℓ} → Outcome A → (A → Option (Outcome B)) → Option (Outcome B)
resume (ok a) f = f a
resume exit_failure f = some exit_failure
resume fault f = some fault
resume waits f = some waits

-- What follows a loop that runs on fuel.
abbrev pub resume_loop {ℓ} :
    {A B : Type ℓ} → Option (Outcome A) → (A → Option (Outcome B)) → Option (Outcome B)
resume_loop none f = none
resume_loop (some r) f = resume r f

pub ok-injective {ℓ} : {A : Type ℓ} {x y : A} → ok x ≡ ok y → x ≡ y
ok-injective e = cc

pub resume-eq-ok {ℓ} :
    {A B : Type ℓ} (r : Outcome A) (f : A → Option (Outcome B)) {b : B}
    → resume r f ≡ some (ok b)
    → (a : A) × (r ≡ ok a) × (f a ≡ some (ok b))
resume-eq-ok (ok a) f h = (a, refl, h)
resume-eq-ok exit_failure f h = cc
resume-eq-ok fault f h = cc
resume-eq-ok waits f h = cc

pub resume_loop-eq-ok {ℓ} :
    {A B : Type ℓ} (r : Option (Outcome A)) (f : A → Option (Outcome B)) {b : B}
    → resume_loop r f ≡ some (ok b)
    → (a : A) × (r ≡ some (ok a)) × (f a ≡ some (ok b))
resume_loop-eq-ok none f h = cc
resume_loop-eq-ok (some r) f h = let (a, e, rest) = resume-eq-ok r f h in (a, ap some e, rest)

-- A part of a function with an error label: it goes on, it jumps to the label, or it goes through a
-- bad pointer.
pub data Step {ℓ} (A : Type ℓ) : Type ℓ where
  next : A → Step A
  goto_error : A → Step A
  crash : Step A

abbrev pub and_then {ℓ} : {A : Type ℓ} → Step A → (A → Step A) → Step A
and_then (next a) f = f a
and_then (goto_error a) f = goto_error a
and_then crash f = crash

-- ===== src/Base/Cyclic.antt =====
-- Going round `n` places.
use native.Mathlib.Nat.{div-add-mod}
use Prim.Native.Nat.{ℕ, suc, ◌+◌, ◌-◌, ◌/◌, ◌%◌, ◌<◌}
use mathlib.Core.Path.{◌≡◌}
use mathlib.Core.Logic.{◌≢◌, ◌⊎◌}
use native.Mathlib.Omega.{arith}
use native.Mathlib.Decide.{dec_lt}

pub mod_ne : (n i j : ℕ) → 0 < n → i < j → j < n + i → i % n ≢ j % n
mod_ne n i j pos lt near same =
    let ei = div-add-mod i n in
    let ej = div-add-mod j n in
    elim (dec_lt (i / n) (j / n)) [ yes h ↦ grind arith | no h ↦ grind arith ]

pub mod_suc :
    (n i : ℕ)
    → 0 < n
    → ((suc i % n ≡ 0) × (i % n ≡ n - 1)) ⊎ ((suc i % n ≡ suc (i % n)) × (suc (i % n) < n))
mod_suc n i pos = grind arith

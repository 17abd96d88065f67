-- ===== src/Prelude/Tables.antt =====
-- Checks of every number in a small range.
use Prim.Native.Nat.{ℕ, zero, suc, ◌<◌}
use mathlib.Core.Path.{◌≡◌}
use mathlib.Core.Logic.{inl, inr}
use mathlib.Core.Bool.{Bool, true, ◌&&◌}
use native.Mathlib.Omega.{arith}
use ws_fabric.Prelude.Tests.{◌==◌, Bool-cases}

-- A property of the numbers below a bound, checked one by one.
unfoldable pub all_below : ℕ → (ℕ → Bool) → Bool
all_below zero p = true
all_below (suc n) p = p n && all_below n p

pub all_below_lem : (n : ℕ) (p : ℕ → Bool) (x : ℕ) → all_below n p ≡ true → x < n → p x ≡ true
unfolding all_below
all_below_lem zero p x h below = elim below [ ]
all_below_lem (suc n) p x h below = elim (Bool-cases (x == n)) [
  | inl e ↦ let same : x ≡ n = ground (arith, e) in rw same (ground (arith, h))
  | inr e ↦ all_below_lem n p x (ground (arith, h)) (ground (arith, e, below))
]

-- ===== src/Prelude/Words.antt =====
-- Machine words as native numbers. `usize` is 64 bits wide; `+` wraps, as in a release build.
use Prim.Native.Nat.{ℕ, ◌+◌, ◌-◌, ◌%◌, ◌^◌, ◌<◌}
use mathlib.Core.Path.{◌≡◌}
use native.Mathlib.Omega.{arith}

abbrev pub u64_mod : ℕ
u64_mod = 2 ^ 64

abbrev pub u64_max : ℕ
u64_max = 2 ^ 64 - 1

abbrev pub add64 : ℕ → ℕ → ℕ
add64 a b = (a + b) % 2 ^ 64

-- `fetch_sub` and `-` in a release build
abbrev pub sub64 : ℕ → ℕ → ℕ
sub64 a b = (a + 2 ^ 64 - b) % 2 ^ 64

abbrev pub saturating_add64 : ℕ → ℕ → ℕ
saturating_add64 a b = Prim.Native.Nat.min (a + b) (2 ^ 64 - 1)

abbrev pub add32 : ℕ → ℕ → ℕ
add32 a b = (a + b) % 2 ^ 32

abbrev pub add8 : ℕ → ℕ → ℕ
add8 a b = (a + b) % 2 ^ 8

pub add64-eq : (a b : ℕ) → a + b < u64_mod → add64 a b ≡ a + b
add64-eq a b h = omega arith

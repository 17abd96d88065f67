-- ===== src/Float.antt =====
-- IEEE doubles, which no source file implements: a parameter with the operations that the program
-- calls and the documented facts that it relies on.
pub mod Rationals
use ws_fabric.Prelude.{
  Bool, ℕ, ◌+◌, ◌-◌, ◌*◌, ◌/◌, ◌^◌, ◌≤◌, ◌<◌, ◌≡◌, refl, min, arith, leb, if◌then◌else◌, Bool-cases,
  inl, inr,
}

pub record F64 : Type 1 where
  pub Float : Type 0
  -- `as f64` from an unsigned integer, and the saturating `as u64`
  pub of_ℕ : ℕ → Float
  pub to_ℕ : Float → ℕ
  pub mul : Float → Float → Float
  pub div : Float → Float → Float
  -- `f64::min`
  pub minimum : Float → Float → Float
  -- `<=`
  pub le : Float → Float → Bool
  -- `Duration::from_secs_f64`, in nanoseconds
  pub from_secs : Float → ℕ
  -- Casts are exact up to 2 ^ 53 and saturate; the minimum with an integer is no larger than
  -- that, also beside a NaN; zero divided by a positive number stays zero under a product.
  pub to_ℕ-of_ℕ : (n : ℕ) → n ≤ 2 ^ 53 → to_ℕ (of_ℕ n) ≡ n
  pub to_ℕ-lt : (x : Float) → to_ℕ x < 2 ^ 64
  pub to_ℕ-minimum-le : (x : Float) (n : ℕ) → to_ℕ (minimum x (of_ℕ n)) ≤ to_ℕ (of_ℕ n)
  pub to_ℕ-zero : (n k : ℕ) → 0 < n → n < 2 ^ 64 → to_ℕ (mul (div (of_ℕ 0) (of_ℕ n)) (of_ℕ k)) ≡ 0

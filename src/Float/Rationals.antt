-- ===== src/Float/Rationals.antt =====
-- Fractions in place of doubles, as test data.
use ws_fabric.Prelude.{
  ℕ, ◌-◌, ◌*◌, ◌/◌, ◌^◌, ◌≤◌, ◌<◌, ◌≡◌, refl, min, arith, leb, if◌then◌else◌, Bool-cases, inl, inr,
}
use native.Mathlib.Nat.{zero-div}
use ws_fabric.Float.{F64}

-- Numerator and denominator.
abbrev Fraction : Type 0
Fraction = ℕ × ℕ

abbrev whole : Fraction → ℕ
whole x = min (x.0 / x.1) (2 ^ 64 - 1)

abbrev smaller : Fraction → Fraction → Fraction
smaller x y = if leb (whole x) (whole y) then x else y

abbrev product : Fraction → Fraction → Fraction
product x y = (x.0 * y.0, x.1 * y.1)

abbrev quotient : Fraction → Fraction → Fraction
quotient x y = (x.0 * y.1, x.1 * y.0)

pub whole-of : (n : ℕ) → n ≤ 2 ^ 53 → whole (n, 1) ≡ n
whole-of n h = omega arith

pub whole-lt : (x : Fraction) → whole x < 2 ^ 64
whole-lt x = omega arith

pub whole-smaller : (x y : Fraction) → whole (smaller x y) ≤ whole y
whole-smaller x y = elim (Bool-cases (leb (whole x) (whole y))) [
  | inl e ↦ rw e (ground arith)
  | inr e ↦ rw e (omega arith)
]

pub whole-zero :
    (n k : ℕ) → 0 < n → n < 2 ^ 64 → whole (product (quotient (0, 1) (n, 1)) (k, 1)) ≡ 0
whole-zero n k h s = let nothing : 0 * k ≡ 0 = omega arith in rw (nothing, zero-div) refl

abbrev pub rationals : F64
rationals = record {
  Float = Fraction;
  of_ℕ = λ n. (n, 1);
  to_ℕ = whole;
  mul = product;
  div = quotient;
  minimum = smaller;
  le = λ x y. leb (x.0 * y.1) (y.0 * x.1);
  from_secs = λ x. x.0 * 1000000000 / x.1;
  to_ℕ-of_ℕ = whole-of;
  to_ℕ-lt = whole-lt;
  to_ℕ-minimum-le = λ x n. whole-smaller x (n, 1);
  to_ℕ-zero = whole-zero;
}

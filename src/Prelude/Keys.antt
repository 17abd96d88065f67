-- ===== src/Prelude/Keys.antt =====
-- Equality tests as an interface, for keys and texts.
use Prim.Native.Nat.{ℕ}
use Prim.Native.Char.{code}
use Prim.Native.String.{String}
use mathlib.Core.Path.{◌≡◌, refl}
use mathlib.Core.Logic.{◌↔◌}
use mathlib.Core.Bool.{Bool, true, false, ◌&&◌}
use mathlib.Core.List.{List, [], ◌∷◌}
use native.Mathlib.Omega.{arith}
use ws_fabric.Prelude.Tests.{◌==◌, ==_iff}

pub record Eq {ℓ} (A : Type ℓ) : Type ℓ where
  pub beq : A → A → Bool
  pub beq_iff : (x y : A) → (beq x y ≡ true) ↔ (x ≡ y)

-- A text is the list of its code points.
abbrev pub Text : Type 0
Text = List ℕ

-- A literal as a text. `String` has its own constructors.
abbrev pub text_of : String → Text
text_of String.[] = []
text_of (String.◌∷◌ c s) = code c ∷ text_of s

abbrev pub text_eq : Text → Text → Bool
text_eq [] [] = true
text_eq [] (d ∷ t) = false
text_eq (c ∷ s) [] = false
text_eq (c ∷ s) (d ∷ t) = c == d && text_eq s t

infix 50 ◌=?◌
abbrev pub ◌=?◌ {ℓ} : {A : Type ℓ} ⦃e : Eq A⦄ → A → A → Bool
◌=?◌ ⦃e⦄ = e.beq

pub text_eq_iff : (s t : Text) → (text_eq s t ≡ true) ↔ (s ≡ t)
text_eq_iff [] [] = ((λ h. refl), (λ h. refl))
text_eq_iff [] (d ∷ t) = ((λ h. cc), (λ h. cc))
text_eq_iff (c ∷ s) [] = ((λ h. cc), (λ h. cc))
text_eq_iff (c ∷ s) (d ∷ t) =
    ((λ h. ground (arith, text_eq_iff s t)), (λ h. ground (arith, text_eq_iff s t)))

instance abbrev pub list_eq : Eq (List ℕ)
list_eq = record { beq = text_eq; beq_iff = text_eq_iff }

instance abbrev pub nat_eq : Eq ℕ
nat_eq = record { beq = ◌==◌; beq_iff = ==_iff }

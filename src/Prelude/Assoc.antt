-- ===== src/Prelude/Assoc.antt =====
-- A `HashMap` as an association list. The order of the entries stands for the unspecified order
-- of iteration.
use mathlib.Core.Path.{◌≡◌, refl, ap, subst}
use mathlib.Core.List.{List, [], ◌∷◌}
use mathlib.Core.Option.{Option, none, some}
use mathlib.Core.Bool.{true, false}
use mathlib.Core.Logic.{inl, inr}
use native.Mathlib.Omega.{arith}
use ws_fabric.Prelude.Tests.{if◌then◌else◌, Bool-cases}
use ws_fabric.Prelude.Lists.{All, length}
use Prim.Native.Nat.{◌+◌, ◌≤◌}
use ws_fabric.Prelude.Keys.{Eq}

pub beq_refl {ℓ} : {K : Type ℓ} ⦃e : Eq K⦄ (k : K) → e.beq k k ≡ true
beq_refl ⦃e⦄ k = (e.beq_iff k k).1 refl

module _ {ℓ κ} {K : Type ℓ} {V : Type κ} ⦃e : Eq K⦄ where
  -- `get`
  unfoldable pub lookup : K → List (K × V) → Option V
  lookup k [] = none
  lookup k ((j, v) ∷ m) = if e.beq j k then some v else lookup k m

  pub lookup-nil : (k : K) → lookup k [] ≡ none
  unfolding lookup
  lookup-nil k = refl

  -- `remove`
  pub remove : K → List (K × V) → List (K × V)
  remove k [] = []
  remove k ((j, v) ∷ m) = let rest = remove k m in if e.beq j k then rest else (j, v) ∷ rest

  -- `insert`
  pub insert : K → V → List (K × V) → List (K × V)
  insert k v m = (k, v) ∷ remove k m

  pub lookup-remove :
      (k j : K) (m : List (K × V))
      → lookup j (remove k m) ≡ (if e.beq k j then none else lookup j m)
  unfolding lookup remove
  lookup-remove k j [] = ground arith
  lookup-remove k j ((i, v) ∷ m) =
      ground (arith, lookup-remove k j m, e.beq_iff i k, e.beq_iff i j, e.beq_iff k j)

  pub lookup-insert :
      (k j : K) (v : V) (m : List (K × V))
      → lookup j (insert k v m) ≡ (if e.beq k j then some v else lookup j m)
  unfolding lookup insert
  lookup-insert k j v m = ground (arith, lookup-remove k j m)

  pub length-remove : (k : K) (m : List (K × V)) → length (remove k m) ≤ length m
  unfolding remove
  length-remove k [] = omega arith
  length-remove k ((j, v) ∷ m) = ground (arith, length-remove k m)

  pub length-insert : (k : K) (v : V) (m : List (K × V)) → length (insert k v m) ≤ 1 + length m
  unfolding insert
  length-insert k v m = omega (arith, length-remove k m)

  pub remove-absent : (k : K) (m : List (K × V)) → lookup k m ≡ none → remove k m ≡ m
  unfolding lookup remove
  remove-absent k [] h = refl
  remove-absent k ((j, v) ∷ m) h = elim (Bool-cases (e.beq j k)) [
    | inl same ↦ absurd (cc (rw same at h))
    | inr other ↦ rw other (ap (◌∷◌ (j, v)) (remove-absent k m (rw other at h)))
  ]

  pub length-insert_absent :
      (k : K) (v : V) (m : List (K × V)) → lookup k m ≡ none → length (insert k v m) ≡ 1 + length m
  unfolding insert
  length-insert_absent k v m h = let same = ap length (remove-absent k m h) in omega (arith, same)

  -- No key has two entries.
  abbrev pub HasUniqueKeys : List (K × V) → Type κ
  HasUniqueKeys [] = Unit
  HasUniqueKeys ((k, v) ∷ m) = (lookup k m ≡ none) × HasUniqueKeys m

  pub remove-HasUniqueKeys :
      (k : K) (m : List (K × V)) → HasUniqueKeys m → HasUniqueKeys (remove k m)
  unfolding remove
  remove-HasUniqueKeys k [] h = tt
  remove-HasUniqueKeys k ((j, v) ∷ m) h = elim (Bool-cases (e.beq j k)) [
    | inl same ↦ rw same (remove-HasUniqueKeys k m h.1)
    | inr other ↦ rw other (ground (arith, lookup-remove k j m, h.0), remove-HasUniqueKeys k m h.1)
  ]

  pub insert-HasUniqueKeys :
      (k : K) (v : V) (m : List (K × V)) → HasUniqueKeys m → HasUniqueKeys (insert k v m)
  unfolding insert
  insert-HasUniqueKeys k v m h =
      (ground (arith, lookup-remove k k m, beq_refl k), remove-HasUniqueKeys k m h)

  pub length-remove_present :
      (k : K) (v : V) (m : List (K × V))
      → HasUniqueKeys m
      → lookup k m ≡ some v
      → 1 + length (remove k m) ≡ length m
  unfolding lookup remove
  length-remove_present k v [] unique found = absurd (cc found)
  length-remove_present k v ((j, w) ∷ m) unique found = elim (Bool-cases (e.beq j k)) [
    | inl same ↦
        let equal : j ≡ k = (e.beq_iff j k).0 same in
        let kept = ap length (remove-absent k m (subst (λ i. lookup i m ≡ none) equal unique.0)) in
        rw same (omega (arith, kept))
    | inr other ↦
        let later = length-remove_present k v m unique.1 (rw other at found) in
        rw other (omega (arith, later))
  ]

  -- What holds of every entry is kept by the operations, and holds of what is found.
  pub All-remove {μ} :
      (P : K × V → Type μ) (k : K) (m : List (K × V)) → All P m → All P (remove k m)
  unfolding remove
  All-remove P k [] h = tt
  All-remove P k ((j, v) ∷ m) h = elim (Bool-cases (e.beq j k)) [
    | inl same ↦ rw same (All-remove P k m h.1)
    | inr other ↦ rw other (h.0, All-remove P k m h.1)
  ]

  pub All-insert {μ} :
      (P : K × V → Type μ) (k : K) (v : V) (m : List (K × V))
      → P (k, v)
      → All P m
      → All P (insert k v m)
  unfolding insert
  All-insert P k v m p h = (p, All-remove P k m h)

  pub All-lookup {μ} :
      (P : V → Type μ) (k : K) (v : V) (m : List (K × V))
      → All (λ e. P e.1) m
      → lookup k m ≡ some v
      → P v
  unfolding lookup
  All-lookup P k v [] h e = absurd (cc)
  All-lookup P k v ((j, w) ∷ m) h e' = elim (Bool-cases (e.beq j k)) [
    | inl same ↦
        let q : some w ≡ some v = rw same at e' in
        let same_value : w ≡ v = cc q in subst P same_value h.0
    | inr other ↦ All-lookup P k v m h.1 (rw other at e')
  ]

  pub lookup-insert_self : (k : K) (v : V) (m : List (K × V)) → lookup k (insert k v m) ≡ some v
  lookup-insert_self k v m = rw (lookup-insert k k v m, beq_refl k)

  pub lookup-remove_self : (k : K) (m : List (K × V)) → lookup k (remove k m) ≡ none
  lookup-remove_self k m = rw (lookup-remove k k m, beq_refl k)

  pub lookup-insert_ne :
      (k j : K) (v : V) (m : List (K × V))
      → e.beq k j ≡ false
      → lookup j (insert k v m) ≡ lookup j m
  lookup-insert_ne k j v m h = rw (lookup-insert k j v m, h)

  pub lookup-remove_ne :
      (k j : K) (m : List (K × V)) → e.beq k j ≡ false → lookup j (remove k m) ≡ lookup j m
  lookup-remove_ne k j m h = rw (lookup-remove k j m, h)

pub ruleset map_laws = (lookup-insert_self, lookup-remove_self, lookup-insert_ne, lookup-remove_ne)

-- ===== src/Fragmentation/Chunks.antt =====
-- `chunks`: nothing is lost, no chunk is too long, and their number is the one computed.
use native.Mathlib.Decide.{dec_lt}
use native.Mathlib.Nat.{
  div-add-mod, div-eq-sub-div, mod-eq-sub-mod, div-eq_of_lt, mod-eq_of_lt, mod_self, div_self,
}
use ws_fabric.Prelude.{
  ℕ, zero, suc, ◌+◌, ◌-◌, ◌*◌, ◌/◌, ◌%◌, ◌≤◌, ◌<◌, ◌≡◌, refl, sym, ap, ◌∙◌, [], ◌∷◌, arith, length,
  drop, concat, All, take-append-drop, length-take, length-drop,
}
use ws_fabric.Message.{Bytes}
use ws_fabric.Fragmentation.{chunks_fuel, chunks, div_ceil}

concat-chunks_fuel :
    (fuel n : ℕ) (xs : Bytes) → 0 < n → length xs ≤ fuel → concat (chunks_fuel fuel n xs) ≡ xs
unfolding chunks_fuel
concat-chunks_fuel zero n [] p h = refl
concat-chunks_fuel zero n (x ∷ xs) p h = absurd (omega arith)
concat-chunks_fuel (suc fuel) n [] p h = refl
concat-chunks_fuel (suc fuel) n (x ∷ xs) p h =
    rw (concat-chunks_fuel fuel n (drop n (x ∷ xs)) p (omega (arith, length-drop n (x ∷ xs))))
      (take-append-drop n (x ∷ xs))

pub concat-chunks : (n : ℕ) (xs : Bytes) → 0 < n → concat (chunks n xs) ≡ xs
unfolding chunks
concat-chunks n xs p = concat-chunks_fuel (length xs) n xs p (omega arith)

no_chunks : (fuel n : ℕ) (xs : Bytes) → length xs ≡ 0 → length (chunks_fuel fuel n xs) ≡ 0
unfolding chunks_fuel
no_chunks zero n xs h = refl
no_chunks (suc fuel) n [] h = refl
no_chunks (suc fuel) n (x ∷ xs) h = absurd (omega arith)

abbrev pub Fits : ℕ → Bytes → Type 0
Fits n c = (0 < length c) × (length c ≤ n)

chunks_fuel-Fits : (fuel n : ℕ) (xs : Bytes) → 0 < n → All (Fits n) (chunks_fuel fuel n xs)
unfolding chunks_fuel
chunks_fuel-Fits zero n xs p = tt
chunks_fuel-Fits (suc fuel) n [] p = tt
chunks_fuel-Fits (suc fuel) n (x ∷ xs) p = (
  (omega (arith, length-take n (x ∷ xs)), omega (arith, length-take n (x ∷ xs))),
  chunks_fuel-Fits fuel n (drop n (x ∷ xs)) p,
)

pub chunks-Fits : (n : ℕ) (xs : Bytes) → 0 < n → All (Fits n) (chunks n xs)
unfolding chunks
chunks-Fits n xs p = chunks_fuel-Fits (length xs) n xs p

pub div_ceil-small : (a n : ℕ) → 0 < a → a ≤ n → div_ceil a n ≡ 1
div_ceil-small a n p h = elim (dec_lt a n) [
  | yes lt ↦ ground (arith, mod-eq_of_lt lt, div-eq_of_lt lt)
  | no ge ↦
      let e : a ≡ n = omega arith in
      rw e (ground (arith, mod_self n, div_self {n = n} (omega arith)))
]

pub div_ceil-step : (a n : ℕ) → 0 < n → n < a → div_ceil a n ≡ suc (div_ceil (a - n) n)
div_ceil-step a n p h =
    let le : n ≤ a = omega arith in ground (arith, div-eq-sub-div p le, mod-eq-sub-mod le)

length-chunks_fuel :
    (fuel n : ℕ) (xs : Bytes)
    → 0 < n
    → length xs ≤ fuel
    → 0 < length xs
    → length (chunks_fuel fuel n xs) ≡ div_ceil (length xs) n
unfolding chunks_fuel
length-chunks_fuel zero n xs p h q = absurd (omega arith)
length-chunks_fuel (suc fuel) n [] p h q = absurd (omega arith)
length-chunks_fuel (suc fuel) n (x ∷ xs) p h q = elim (dec_lt n (suc (length xs))) [
  | yes more ↦
      let rest : length (chunks_fuel fuel n (drop n (x ∷ xs))) ≡ div_ceil (suc (length xs) - n) n =
        rw (← length-drop n (x ∷ xs)) (
          length-chunks_fuel fuel n (drop n (x ∷ xs)) p (omega (arith, length-drop n (x ∷ xs)))
            (omega (arith, length-drop n (x ∷ xs)))) in
      ap suc rest ∙ sym (div_ceil-step (suc (length xs)) n p more)
  | no last ↦
      ap suc (no_chunks fuel n (drop n (x ∷ xs)) (omega (arith, length-drop n (x ∷ xs))))
      ∙ sym (div_ceil-small (suc (length xs)) n (omega arith) (omega arith))
]

pub length-chunks :
    (n : ℕ) (xs : Bytes) → 0 < n → 0 < length xs → length (chunks n xs) ≡ div_ceil (length xs) n
unfolding chunks
length-chunks n xs p q = length-chunks_fuel (length xs) n xs p (omega arith) q

div_ceil-pos : (a n : ℕ) → 0 < a → 0 < div_ceil a n
div_ceil-pos a n p = elim (dec_lt 0 (a / n)) [
  | yes q ↦ ground arith
  | no z ↦
      let e : a / n ≡ 0 = omega arith in
      let d : n * (a / n) + a % n ≡ a = div-add-mod a n in
      let r : n * 0 + a % n ≡ a = rw e at d in ground arith
]

-- More bytes than a chunk holds make at least two chunks.
pub length-chunks-gt-one : (n : ℕ) (xs : Bytes) → 0 < n → n < length xs → 1 < length (chunks n xs)
length-chunks-gt-one n xs p h = omega (
  arith,
  length-chunks n xs p (omega arith),
  div_ceil-step (length xs) n p h,
  div_ceil-pos (length xs - n) n (omega arith),
)

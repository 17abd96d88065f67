-- ===== src/Text/Decimal.antt =====
-- What the source uses of numbers as text: `to_string` of an unsigned integer and `str::parse`.
use ws_fabric.Prelude.{
  ℕ, zero, suc, ◌+◌, ◌-◌, ◌*◌, ◌/◌, ◌%◌, ◌≤◌, ◌<◌, ◌≡◌, refl, Bool, true, false, ◌&&◌, [], ◌∷◌,
  ◌++◌, Option, none, some, arith, inl, inr, leb, ltb, ◌==◌, if◌then◌else◌, Bool-cases, Text,
}

-- The digits by repeated division, with fuel.
print_from : ℕ → ℕ → Text
print_from zero n = []
print_from (suc f) n =
    let rest = print_from f (n / 10) in
    if ltb n 10 then (48 + n) ∷ [] else rest ++ (48 + n % 10) ∷ []

-- `n + 1` rounds are enough, since each divides by ten.
unfoldable pub print : ℕ → Text
unfolding print_from
print n = print_from (suc n) n

abbrev pub is_digit : ℕ → Bool
is_digit c = leb 48 c && leb c 57

-- One more digit, unless the value is then above the maximum.
abbrev pub push_digit : ℕ → ℕ → ℕ → Option ℕ
push_digit max c v =
    if is_digit c
    then (if leb (v * 10 + (c - 48)) max then some (v * 10 + (c - 48)) else none)
    else none

push_digits : ℕ → Option ℕ → Text → Option ℕ
push_digits max o [] = o
push_digits max none (c ∷ s) = none
push_digits max (some v) (c ∷ s) = push_digits max (push_digit max c v) s

-- A leading `+` is accepted, if something follows it; a text without a digit is not.
unfoldable pub parse : ℕ → Text → Option ℕ
unfolding push_digits
parse max [] = none
parse max (c ∷ []) = push_digit max c 0
parse max (c ∷ d ∷ s) =
    if c == b'+' then push_digits max (some 0) (d ∷ s) else push_digits max (some 0) (c ∷ d ∷ s)

push_digits-snoc :
    (max c v w : ℕ) (o : Option ℕ) (s : Text)
    → push_digits max o s ≡ some v
    → push_digit max c v ≡ some w
    → push_digits max o (s ++ c ∷ []) ≡ some w
unfolding push_digits
push_digits-snoc max c v w none [] e e' = cc
push_digits-snoc max c v w (some u) [] e e' = cc
push_digits-snoc max c v w none (d ∷ s) e e' = cc
push_digits-snoc max c v w (some u) (d ∷ s) e e' =
    push_digits-snoc max c v w (push_digit max d u) s e e'

push_digit-digit :
    (max d v : ℕ) → d < 10 → v * 10 + d ≤ max → push_digit max (48 + d) v ≡ some (v * 10 + d)
push_digit-digit max d v small fits =
    let back : 48 + d - 48 ≡ d = omega arith in ground (arith, back)

push_digits-print :
    (max f n : ℕ) → n < f → n ≤ max → push_digits max (some 0) (print_from f n) ≡ some n
unfolding push_digits print_from
push_digits-print max zero n enough fits = elim enough [ ]
push_digits-print max (suc f) n enough fits = elim (Bool-cases (ltb n 10)) [
  | inl e ↦
      let whole : 0 * 10 + n ≡ n = omega arith in
      rw e (rw whole at (push_digit-digit max n 0 (ground (arith, e)) (omega arith)))
  | inr e ↦
      let many : 10 ≤ n = ground (arith, e) in
      let whole : n / 10 * 10 + n % 10 ≡ n = omega arith in
      rw e (
        push_digits-snoc max (48 + n % 10) (n / 10) n (some 0) (print_from f (n / 10))
          (push_digits-print max f (n / 10) (omega arith) (omega arith))
          (rw whole at (push_digit-digit max (n % 10) (n / 10) (omega arith) (omega arith))))
]

abbrev pub StartsWithDigit : Text → Type 0
StartsWithDigit [] = ⊥
StartsWithDigit (c ∷ s) = is_digit c ≡ true

StartsWithDigit-append : (s t : Text) → StartsWithDigit s → StartsWithDigit (s ++ t)
StartsWithDigit-append [] t h = absurd h
StartsWithDigit-append (c ∷ s) t h = h

print_from-StartsWithDigit : (f n : ℕ) → n < f → StartsWithDigit (print_from f n)
unfolding print_from
print_from-StartsWithDigit zero n enough = elim enough [ ]
print_from-StartsWithDigit (suc f) n enough = elim (Bool-cases (ltb n 10)) [
  | inl e ↦ rw e (ground (arith, e))
  | inr e ↦
      let many : 10 ≤ n = ground (arith, e) in
      rw e (StartsWithDigit-append _ _ (print_from-StartsWithDigit f (n / 10) (omega arith)))
]

parse-push_digits :
    (max : ℕ) (s : Text) → StartsWithDigit s → parse max s ≡ push_digits max (some 0) s
unfolding parse push_digits
parse-push_digits max [] h = absurd h
parse-push_digits max (c ∷ []) h = refl
parse-push_digits max (c ∷ d ∷ s) h =
    let digit : (c == b'+') ≡ false = ground (arith, h) in rw digit refl

pub parse-print : (max n : ℕ) → n ≤ max → parse max (print n) ≡ some n
unfolding print
parse-print max n fits =
    rw (parse-push_digits max _ (print_from-StartsWithDigit (suc n) n (omega arith)))
      (push_digits-print max (suc n) n (omega arith) fits)

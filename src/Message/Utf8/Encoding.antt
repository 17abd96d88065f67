-- ===== src/Message/Utf8/Encoding.antt =====
-- `String` of the standard library as bytes: the UTF-8 encoding of its scalar values, which the
-- check of `as_text` accepts.
use ws_fabric.Prelude.{
  ℕ, suc, ◌+◌, ◌/◌, ◌%◌, ◌≤◌, ◌<◌, ◌≡◌, refl, ap, ◌∙◌, ◌⊎◌, inl, inr, true, List, [], ◌∷◌, ◌++◌,
  Option, arith, All, ltb, ◌==◌, if◌then◌else◌, Bool-cases,
}
use ws_fabric.Message.Utf8.{Due, due, between, lead, step_utf8, utf8_from, is_utf8}

abbrev pub encode_char : ℕ → List ℕ
encode_char c =
    if ltb c 0x80
    then c ∷ []
    else if ltb c 0x800
    then (0xC0 + c / 0x40) ∷ (0x80 + c % 0x40) ∷ []
    else if ltb c 0x10000
    then (0xE0 + c / 0x1000) ∷ (0x80 + c / 0x40 % 0x40) ∷ (0x80 + c % 0x40) ∷ []
    else (0xF0 + c / 0x40000)
      ∷ (0x80 + c / 0x1000 % 0x40)
      ∷ (0x80 + c / 0x40 % 0x40)
      ∷ (0x80 + c % 0x40)
      ∷ []

unfoldable pub encode : List ℕ → List ℕ
encode [] = []
encode (c ∷ cs) = encode_char c ++ encode cs

-- A Unicode scalar value: no surrogate.
abbrev pub IsScalar : ℕ → Type 0
IsScalar c = (c < 0xD800) ⊎ ((0xE000 ≤ c) × (c < 0x110000))

abbrev start : Option Due
start = due 0 0x80 0xBF

continues :
    (n lo hi b : ℕ) (rest : List ℕ)
    → lo ≤ b
    → b ≤ hi
    → utf8_from (due (suc n) lo hi) (b ∷ rest) ≡ utf8_from (due n 0x80 0xBF) rest
unfolding utf8_from step_utf8
continues n lo hi b rest above below =
    let inside : between lo hi b ≡ true = ground (arith, above, below) in
    let next : step_utf8 (suc n) lo hi b ≡ due n 0x80 0xBF = rw inside refl in
    ap (λ d. utf8_from d rest) next

begins :
    (n lo hi b : ℕ) (rest : List ℕ)
    → lead b ≡ due n lo hi
    → utf8_from start (b ∷ rest) ≡ utf8_from (due n lo hi) rest
unfolding utf8_from step_utf8
begins n lo hi b rest e = ap (λ d. utf8_from d rest) e

lead_two : (b : ℕ) → 0xC2 ≤ b → b ≤ 0xDF → lead b ≡ due 1 0x80 0xBF
unfolding lead
lead_two b above below = ground arith

lead_three : (b : ℕ) → 0xE1 ≤ b → b ≤ 0xEF → (b ≡ 0xED → ⊥) → lead b ≡ due 2 0x80 0xBF
unfolding lead
lead_three b above below other = ground arith

lead_four : (b : ℕ) → 0xF1 ≤ b → b ≤ 0xF3 → lead b ≡ due 3 0x80 0xBF
unfolding lead
lead_four b above below = ground arith

lead_one : (b : ℕ) → b < 0x80 → lead b ≡ due 0 0x80 0xBF
unfolding lead
lead_one b below = ground arith

lead_e0 : (b : ℕ) → b ≡ 0xE0 → lead b ≡ due 2 0xA0 0xBF
unfolding lead
lead_e0 b e = rw e refl

lead_ed : (b : ℕ) → b ≡ 0xED → lead b ≡ due 2 0x80 0x9F
unfolding lead
lead_ed b e = rw e refl

lead_f0 : (b : ℕ) → b ≡ 0xF0 → lead b ≡ due 3 0x90 0xBF
unfolding lead
lead_f0 b e = rw e refl

lead_f4 : (b : ℕ) → b ≡ 0xF4 → lead b ≡ due 3 0x80 0x8F
unfolding lead
lead_f4 b e = rw e refl

two :
    (c : ℕ) (rest : List ℕ)
    → 0x80 ≤ c
    → c < 0x800
    → utf8_from start ((0xC0 + c / 0x40) ∷ (0x80 + c % 0x40) ∷ rest) ≡ utf8_from start rest
two c rest above below =
    begins 1 0x80 0xBF (0xC0 + c / 0x40) ((0x80 + c % 0x40) ∷ rest)
      (lead_two (0xC0 + c / 0x40) (omega arith) (omega arith))
    ∙ continues 0 0x80 0xBF (0x80 + c % 0x40) rest (omega arith) (omega arith)

three_from :
    (lo hi b0 b1 b2 : ℕ) (rest : List ℕ)
    → lead b0 ≡ due 2 lo hi
    → lo ≤ b1
    → b1 ≤ hi
    → 0x80 ≤ b2
    → b2 ≤ 0xBF
    → utf8_from start (b0 ∷ b1 ∷ b2 ∷ rest) ≡ utf8_from start rest
three_from lo hi b0 b1 b2 rest e above below above2 below2 =
    begins 2 lo hi b0 (b1 ∷ b2 ∷ rest) e
    ∙ continues 1 lo hi b1 (b2 ∷ rest) above below
    ∙ continues 0 0x80 0xBF b2 rest above2 below2

four_from :
    (lo hi b0 b1 b2 b3 : ℕ) (rest : List ℕ)
    → lead b0 ≡ due 3 lo hi
    → lo ≤ b1
    → b1 ≤ hi
    → (0x80 ≤ b2) × (b2 ≤ 0xBF)
    → (0x80 ≤ b3) × (b3 ≤ 0xBF)
    → utf8_from start (b0 ∷ b1 ∷ b2 ∷ b3 ∷ rest) ≡ utf8_from start rest
four_from lo hi b0 b1 b2 b3 rest e above below inside2 inside3 =
    begins 3 lo hi b0 (b1 ∷ b2 ∷ b3 ∷ rest) e
    ∙ continues 2 lo hi b1 (b2 ∷ b3 ∷ rest) above below
    ∙ continues 1 0x80 0xBF b2 (b3 ∷ rest) inside2.0 inside2.1
    ∙ continues 0 0x80 0xBF b3 rest inside3.0 inside3.1

no_surrogate : (c : ℕ) → IsScalar c → c < 0xE000 → c < 0xD800
no_surrogate c (inl low) h = low
no_surrogate c (inr high) h = absurd (omega (arith, high.0, h))

scalar_bound : (c : ℕ) → IsScalar c → c < 0x110000
scalar_bound c (inl low) = omega (arith, low)
scalar_bound c (inr high) = high.1

three :
    (c : ℕ) (rest : List ℕ)
    → IsScalar c
    → 0x800 ≤ c
    → c < 0x10000
    → utf8_from start ((0xE0 + c / 0x1000) ∷ (0x80 + c / 0x40 % 0x40) ∷ (0x80 + c % 0x40) ∷ rest)
      ≡ utf8_from start rest
three c rest scalar above below =
    let second = 0x80 + c / 0x40 % 0x40 in
    let third = 0x80 + c % 0x40 in
    elim (Bool-cases (c / 0x1000 == 0)) [
      | inl e ↦
          let low : c / 0x1000 ≡ 0 = ground (arith, e) in
          three_from 0xA0 0xBF (0xE0 + c / 0x1000) second third rest
            (lead_e0 (0xE0 + c / 0x1000) (omega (arith, low))) (omega (arith, low)) (omega arith)
            (omega arith) (omega arith)
      | inr e ↦
          let more : 0 < c / 0x1000 = ground (arith, e) in
          elim (Bool-cases (c / 0x1000 == 13)) [
            | inl e' ↦
                let high : c / 0x1000 ≡ 13 = ground (arith, e') in
                let below_ed : c < 0xD800 = no_surrogate c scalar (omega (arith, high)) in
                three_from 0x80 0x9F (0xE0 + c / 0x1000) second third rest
                  (lead_ed (0xE0 + c / 0x1000) (omega (arith, high))) (omega arith)
                  (omega (arith, high, below_ed)) (omega arith) (omega arith)
            | inr e' ↦
                let other : c / 0x1000 ≡ 13 → ⊥ = λ same. ground (arith, e', same) in
                three_from 0x80 0xBF (0xE0 + c / 0x1000) second third rest
                  (lead_three (0xE0 + c / 0x1000) (omega (arith, more)) (omega (arith, below))
                    (λ same. other (omega (arith, same))))
                  (omega arith) (omega arith) (omega arith) (omega arith)
          ]
    ]

four :
    (c : ℕ) (rest : List ℕ)
    → 0x10000 ≤ c
    → c < 0x110000
    → utf8_from start (
        (0xF0 + c / 0x40000)
        ∷ (0x80 + c / 0x1000 % 0x40)
        ∷ (0x80 + c / 0x40 % 0x40)
        ∷ (0x80 + c % 0x40)
        ∷ rest)
      ≡ utf8_from start rest
four c rest above below =
    let first = 0xF0 + c / 0x40000 in
    let second = 0x80 + c / 0x1000 % 0x40 in
    let third = 0x80 + c / 0x40 % 0x40 in
    let fourth = 0x80 + c % 0x40 in
    elim (Bool-cases (c / 0x40000 == 0)) [
      | inl e ↦
          let low : c / 0x40000 ≡ 0 = ground (arith, e) in
          four_from 0x90 0xBF first second third fourth rest (lead_f0 first (omega (arith, low)))
            (omega (arith, low)) (omega arith) (omega arith, omega arith) (omega arith, omega arith)
      | inr e ↦
          let more : 0 < c / 0x40000 = ground (arith, e) in
          elim (Bool-cases (c / 0x40000 == 4)) [
            | inl e' ↦
                let high : c / 0x40000 ≡ 4 = ground (arith, e') in
                four_from 0x80 0x8F first second third fourth rest
                  (lead_f4 first (omega (arith, high))) (omega arith) (omega (arith, high))
                  (omega arith, omega arith) (omega arith, omega arith)
            | inr e' ↦
                let other : c / 0x40000 ≡ 4 → ⊥ = λ same. ground (arith, e', same) in
                four_from 0x80 0xBF first second third fourth rest
                  (lead_four first (omega (arith, more)) (omega (arith, other))) (omega arith)
                  (omega arith) (omega arith, omega arith) (omega arith, omega arith)
          ]
    ]

encode_char-accepted :
    (c : ℕ) (rest : List ℕ)
    → IsScalar c
    → utf8_from start (encode_char c ++ rest) ≡ utf8_from start rest
encode_char-accepted c rest scalar = elim (Bool-cases (ltb c 0x80)) [
  | inl e ↦ rw e (begins 0 0x80 0xBF c rest (lead_one c (ground (arith, e))))
  | inr e ↦ elim (Bool-cases (ltb c 0x800)) [
    | inl e' ↦ rw (e, e') (two c rest (ground (arith, e)) (ground (arith, e')))
    | inr e' ↦ elim (Bool-cases (ltb c 0x10000)) [
      | inl e'' ↦ rw (e, e', e'') (three c rest scalar (ground (arith, e')) (ground (arith, e'')))
      | inr e'' ↦ rw (e, e', e'') (four c rest (ground (arith, e'')) (scalar_bound c scalar))
    ]
  ]
]

pub is_utf8-encode : (cs : List ℕ) → All IsScalar cs → is_utf8 (encode cs) ≡ true
unfolding is_utf8 encode utf8_from
is_utf8-encode [] all = refl
is_utf8-encode (c ∷ cs) all = encode_char-accepted c (encode cs) all.0 ∙ is_utf8-encode cs all.1

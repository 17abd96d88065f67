-- ===== src/Message/Display/Boundary.antt =====
-- `str::is_char_boundary` of the standard library: it finds where characters end.
use ws_fabric.Prelude.{
  ℕ, zero, suc, ◌+◌, ◌-◌, ◌≤◌, ◌<◌, ◌≡◌, refl, ap, ◌∙◌, sym, subst, ◌⊎◌, ◌↔◌, inl, inr, Bool, true,
  false, List, [], ◌∷◌, ◌++◌, arith, All, length, length-append, get_elem?, ltb, ◌==◌, Bool-cases,
}
use ws_fabric.Message.{Bytes}
use ws_fabric.Message.Utf8.Encoding.{encode_char, encode}
use ws_fabric.Message.Display.{is_first_byte, starts_char, is_char_boundary}

-- A character of the text begins before byte n of its encoding, and ends after it.
abbrev pub Straddles : ℕ → List ℕ → Type 0
Straddles n cs =
    (ds : List ℕ) × (c : ℕ) × (es : List ℕ) × (cs ≡ ds ++ c ∷ es)
    × (length (encode ds) < n)
    × (n < length (encode ds) + length (encode_char c))

-- One byte that starts a character, and others that do not.
record Shape (bytes : Bytes) : Type 0 where
  first : ℕ
  others : Bytes
  split : bytes ≡ first ∷ others
  starts : is_first_byte first ≡ true
  continue : All (λ b. is_first_byte b ≡ false) others

encode_char-Shape : (c : ℕ) → Shape (encode_char c)
encode_char-Shape c = elim (Bool-cases (ltb c 0x80)) [
  | inl e ↦
      rw e
        (record { first = c; others = []; split = refl; starts = ground (arith, e); continue = tt })
  | inr e ↦ elim (Bool-cases (ltb c 0x800)) [
    | inl e' ↦
        rw (e, e')
          (record {
            first = _;
            others = _;
            split = refl;
            starts = ground arith;
            continue = (ground arith, tt);
          })
    | inr e' ↦ elim (Bool-cases (ltb c 0x10000)) [
      | inl e'' ↦
          rw (e, e', e'')
            (record {
              first = _;
              others = _;
              split = refl;
              starts = ground arith;
              continue = (ground arith, (ground arith, tt));
            })
      | inr e'' ↦
          rw (e, e', e'')
            (record {
              first = _;
              others = _;
              split = refl;
              starts = ground arith;
              continue = (ground arith, (ground arith, (ground arith, tt)));
            })
    ]
  ]
]

get-continues :
    (n : ℕ) (xs ys : Bytes) (at_end : Bool)
    → All (λ b. is_first_byte b ≡ false) xs
    → n < length xs
    → starts_char at_end (get_elem? (xs ++ ys) n) ≡ false
get-continues n [] ys at_end all below = elim below [ ]
get-continues zero (x ∷ xs) ys at_end all below = all.0
get-continues (suc n) (x ∷ xs) ys at_end all below =
    get-continues n xs ys at_end all.1 (omega arith)

get-append : (n : ℕ) (xs ys : Bytes) → get_elem? (xs ++ ys) (length xs + n) ≡ get_elem? ys n
get-append n [] ys = let e : 0 + n ≡ n = omega arith in rw e refl
get-append n (x ∷ xs) ys =
    let e : suc (length xs) + n ≡ suc (length xs + n) = omega arith in rw e (get-append n xs ys)

-- Behind the first bytes of a text, the boundaries are those of the rest.
boundary-append :
    (m : ℕ) (xs ys : Bytes)
    → 0 < length xs
    → (m ≡ 0 → starts_char (m == length ys) (get_elem? ys m) ≡ true)
    → is_char_boundary (length xs + m) (xs ++ ys) ≡ is_char_boundary m ys
unfolding is_char_boundary
boundary-append m xs ys some_bytes first =
    let inside : (length xs + m == 0) ≡ false = ground (arith, some_bytes) in
    let ends : (length xs + m == length (xs ++ ys)) ≡ (m == length ys) =
      ground (arith, length-append xs ys) in
    rw (inside, ends, get-append m xs ys)
      (elim (Bool-cases (m == 0)) [ inl e ↦ rw e (first (ground (arith, e))) | inr e ↦ rw e refl ])

encode-starts :
    (at_end : Bool) (cs : List ℕ)
    → 0 < length (encode cs)
    → starts_char at_end (get_elem? (encode cs) 0) ≡ true
unfolding encode
encode-starts at_end [] some_bytes = absurd (omega (arith, some_bytes))
encode-starts at_end (c ∷ cs) some_bytes =
    let shape = encode_char-Shape c in
    ap (λ bs. starts_char at_end (get_elem? (bs ++ encode cs) 0)) shape.split ∙ shape.starts

inside_char :
    (n c : ℕ) (ys : Bytes)
    → suc n < length (encode_char c)
    → is_char_boundary (suc n) (encode_char c ++ ys) ≡ false
unfolding is_char_boundary
inside_char n c ys below =
    let shape = encode_char-Shape c in
    let positive : (suc n == 0) ≡ false = ground arith in
    let short : suc n < suc (length shape.others) =
      subst (λ bs. suc n < length bs) shape.split below in
    let at_end = suc n == length (encode_char c ++ ys) in
    rw positive (
      ap (λ bs. starts_char at_end (get_elem? (bs ++ ys) (suc n))) shape.split
      ∙ get-continues n shape.others ys at_end shape.continue (omega (arith, short)))

Straddles-later :
    (m c : ℕ) (cs : List ℕ) → Straddles m cs → Straddles (length (encode_char c) + m) (c ∷ cs)
unfolding encode
Straddles-later m c cs s =
    let size = length-append (encode_char c) (encode s.0) in
    (c ∷ s.0, s.1, s.2, ap (◌∷◌ c) s.3, omega (arith, size, s.4), omega (arith, size, s.5))

Straddles-earlier :
    (m c : ℕ) (cs : List ℕ) → Straddles (length (encode_char c) + m) (c ∷ cs) → Straddles m cs
unfolding encode
Straddles-earlier m c cs ([], c', es, split, before, after) =
    let same : c ≡ c' = cc split in
    absurd (
      omega (
        arith,
        subst (λ d. length (encode_char c) + m < 0 + length (encode_char d)) (sym same) after,
      ))
Straddles-earlier m c cs (d ∷ ds, c', es, split, before, after) =
    let same : d ≡ c = cc split in
    let size = length-append (encode_char d) (encode ds) in
    let width : length (encode_char d) ≡ length (encode_char c) =
      ap (λ x. length (encode_char x)) same in
    (ds, c', es, cc split, omega (arith, size, width, before), omega (arith, size, width, after))

boundary_past :
    (m c : ℕ) (cs : List ℕ)
    → m < length (encode cs)
    → is_char_boundary (length (encode_char c) + m) (encode_char c ++ encode cs)
      ≡ is_char_boundary m (encode cs)
boundary_past m c cs below =
    let shape = encode_char-Shape c in
    let some_bytes : 0 < length (encode_char c) =
      subst (λ bs. 0 < length bs) (sym shape.split) (omega arith) in
    boundary-append m (encode_char c) (encode cs) some_bytes
      λ zero_lem. rw zero_lem (encode-starts (0 == length (encode cs)) cs (rw zero_lem at below))

abbrev Verdict : ℕ → List ℕ → Type 0
Verdict n cs =
    ((is_char_boundary n (encode cs) ≡ true) × (Straddles n cs → ⊥))
    ⊎ ((is_char_boundary n (encode cs) ≡ false) × Straddles n cs)

Verdict-later :
    (m c : ℕ) (cs : List ℕ)
    → m < length (encode cs)
    → Verdict m cs
    → Verdict (length (encode_char c) + m) (c ∷ cs)
unfolding encode
Verdict-later m c cs below (inl v) =
    inl (boundary_past m c cs below ∙ v.0, λ s. v.1 (Straddles-earlier m c cs s))
Verdict-later m c cs below (inr v) =
    inr (boundary_past m c cs below ∙ v.0, Straddles-later m c cs v.1)

verdict : (n : ℕ) (cs : List ℕ) → n < length (encode cs) → Verdict n cs
unfolding encode is_char_boundary
verdict n [] below = absurd (omega (arith, below))
verdict zero (c ∷ cs) below = inl (refl, λ s. omega (arith, s.4))
verdict (suc n) (c ∷ cs) below = elim (Bool-cases (ltb (suc n) (length (encode_char c)))) [
  | inl e ↦
      let short : suc n < length (encode_char c) = ground (arith, e) in
      inr (inside_char n c (encode cs) short, ([], c, cs, refl, omega arith, omega (arith, short)))
  | inr e ↦
      let long : length (encode_char c) ≤ suc n = ground (arith, e) in
      let whole : length (encode_char c) + (suc n - length (encode_char c)) ≡ suc n =
        omega (arith, long) in
      let size = length-append (encode_char c) (encode cs) in
      let rest : suc n - length (encode_char c) < length (encode cs) =
        omega (arith, long, size, below) in
      subst (λ k. Verdict k (c ∷ cs)) whole
        (Verdict-later (suc n - length (encode_char c)) c cs rest
          (verdict (suc n - length (encode_char c)) cs rest))
]

-- Byte n of a text starts a character unless one straddles it.
pub is_char_boundary-false_iff :
    (n : ℕ) (cs : List ℕ)
    → n < length (encode cs)
    → (is_char_boundary n (encode cs) ≡ false) ↔ Straddles n cs
is_char_boundary-false_iff n cs below = elim (verdict n cs below) [
  | inl v ↦ ((λ e. cc (v.0, e)), λ s. absurd (v.1 s))
  | inr v ↦ ((λ e. v.1), λ s. v.0)
]

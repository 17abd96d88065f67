-- ===== src/Metrics/Sorted.antt =====
-- The library's `sort` on numbers, as insertion: what is known of it is order and content.
use ws_fabric.Prelude.{
  ℕ, zero, suc, ◌≤◌, ◌<◌, ◌≡◌, refl, subst, List, [], ◌∷◌, some, arith, inl, inr, length, get_elem?,
  leb, if◌then◌else◌, Bool-cases, All,
}

pub insert_sorted : ℕ → List ℕ → List ℕ
insert_sorted x [] = x ∷ []
insert_sorted x (y ∷ ys) = let rest = insert_sorted x ys in if leb x y then x ∷ y ∷ ys else y ∷ rest

pub sort : List ℕ → List ℕ
sort [] = []
sort (x ∷ xs) = insert_sorted x (sort xs)

abbrev pub IsSorted : List ℕ → Type 0
IsSorted [] = Unit
IsSorted (x ∷ xs) = All (λ y. x ≤ y) xs × IsSorted xs

length-insert_sorted : (x : ℕ) (ys : List ℕ) → length (insert_sorted x ys) ≡ suc (length ys)
unfolding insert_sorted
length-insert_sorted x [] = refl
length-insert_sorted x (y ∷ ys) = ground (arith, length-insert_sorted x ys)

pub length-sort : (xs : List ℕ) → length (sort xs) ≡ length xs
unfolding sort
length-sort [] = refl
length-sort (x ∷ xs) = omega (arith, length-insert_sorted x (sort xs), length-sort xs)

All-le : (x y : ℕ) (zs : List ℕ) → x ≤ y → All (λ z. y ≤ z) zs → All (λ z. x ≤ z) zs
All-le x y [] h a = tt
All-le x y (z ∷ zs) h a = (omega (arith, a.0), All-le x y zs h a.1)

All-insert_sorted :
    (y x : ℕ) (zs : List ℕ) → y ≤ x → All (λ z. y ≤ z) zs → All (λ z. y ≤ z) (insert_sorted x zs)
unfolding insert_sorted
All-insert_sorted y x [] h a = (h, tt)
All-insert_sorted y x (z ∷ zs) h a = elim (Bool-cases (leb x z)) [
  | inl e ↦ rw e (h, a)
  | inr e ↦ rw e (a.0, All-insert_sorted y x zs h a.1)
]

insert_sorted-IsSorted : (x : ℕ) (ys : List ℕ) → IsSorted ys → IsSorted (insert_sorted x ys)
unfolding insert_sorted
insert_sorted-IsSorted x [] s = (tt, tt)
insert_sorted-IsSorted x (y ∷ ys) s = elim (Bool-cases (leb x y)) [
  | inl e ↦ let h : x ≤ y = ground arith in rw e ((h, All-le x y ys h s.0), s)
  | inr e ↦
      let h : y ≤ x = ground arith in
      rw e (All-insert_sorted y x ys h s.0, insert_sorted-IsSorted x ys s.1)
]

pub sort-IsSorted : (xs : List ℕ) → IsSorted (sort xs)
unfolding sort
sort-IsSorted [] = tt
sort-IsSorted (x ∷ xs) = insert_sorted-IsSorted x (sort xs) (sort-IsSorted xs)

-- Below the length there is an entry, and none below it is larger.
pub get_elem?-in :
    {A : Type 0} (xs : List A) (i : ℕ) → i < length xs → (x : A) × (get_elem? xs i ≡ some x)
get_elem?-in [] i h = absurd (omega arith)
get_elem?-in (x ∷ xs) zero h = (x, refl)
get_elem?-in (x ∷ xs) (suc i) h = get_elem?-in xs i (omega arith)

All-get_elem? : (P : ℕ → Type 0) (xs : List ℕ) (j x : ℕ) → All P xs → get_elem? xs j ≡ some x → P x
All-get_elem? P [] j x a e = absurd (cc)
All-get_elem? P (y ∷ ys) zero x a e = let same : y ≡ x = cc e in subst P same a.0
All-get_elem? P (y ∷ ys) (suc j) x a e = All-get_elem? P ys j x a.1 e

pub get_elem?_mono :
    (xs : List ℕ) (i j x y : ℕ)
    → IsSorted xs
    → i ≤ j
    → get_elem? xs i ≡ some x
    → get_elem? xs j ≡ some y
    → x ≤ y
get_elem?_mono [] i j x y s h e e' = absurd (cc)
get_elem?_mono (z ∷ zs) zero zero x y s h e e' = let same : x ≡ y = cc (e, e') in omega arith
get_elem?_mono (z ∷ zs) zero (suc j) x y s h e e' =
    let same : z ≡ x = cc e in
    let least : z ≤ y = All-get_elem? (λ w. z ≤ w) zs j y s.0 e' in omega arith
get_elem?_mono (z ∷ zs) (suc i) zero x y s h e e' = absurd (omega arith)
get_elem?_mono (z ∷ zs) (suc i) (suc j) x y s h e e' =
    get_elem?_mono zs i j x y s.1 (omega arith) e e'

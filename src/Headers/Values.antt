-- ===== src/Headers/Values.antt =====
-- src/headers.rs: what the operations of the header map do to the values of each name, and that
-- every value can stand in a header line.
use ws_fabric.Prelude.{
  ◌≤◌, ◌≡◌, refl, subst, ap, ◌∙◌, Bool, true, false, not, List, [], ◌∷◌, ◌++◌, Option, none, some,
  inl, inr, ◌⊎◌, arith, all, All, All-append, if◌then◌else◌, Bool-cases, Text, list_eq, ◌=?◌,
}
use ws_fabric.Prelude.Assoc
use ws_fabric.Prelude.Assoc.{lookup, lookup-insert, All-insert, All-lookup}
use ws_fabric.Text.{Unicode, is_empty, trim}
use ws_fabric.Error.{Error, Result, ok, err, ensure, ◌>>◌}
use ws_fabric.Headers.{
  HeaderMap, is_printable, is_ascii_control, is_name_char, values_or_default, check_value_chars,
  check_value_bytes, header_name, header_value, key, insert, append, get_all, insert_each,
  from_iter, extend,
}

Result-cases : {A : Type 0} (r : Result A) → ((a : A) × (r ≡ ok a)) ⊎ ((e : Error) × (r ≡ err e))
Result-cases (ok a) = inl (a, refl)
Result-cases (err e) = inr (e, refl)

-- A text of the characters that a header line may have: no line break is among them.
abbrev pub IsPrintable : Text → Type 0
IsPrintable s = All (λ c. (32 ≤ c) × (c ≤ 126)) s

check_value_bytes-IsPrintable : (s : Text) → check_value_bytes s ≡ ok tt → IsPrintable s
check_value_bytes-IsPrintable [] h = tt
check_value_bytes-IsPrintable (c ∷ s) h = elim (Bool-cases (is_printable c)) [
  | inl e ↦ ((ground arith, ground arith), check_value_bytes-IsPrintable s (rw e at h))
  | inr e ↦ absurd (cc (rw e at h))
]

checks_passed :
    (a b : Result (Unit {0})) (value v : Text)
    → (a >> (b >> ok value)) ≡ ok v
    → (b ≡ ok tt) × (value ≡ v)
checks_passed (err e) b value v h = absurd (cc h)
checks_passed (ok _) (err e) value v h = absurd (cc h)
checks_passed (ok _) (ok _) value v h = (refl, cc h)

-- Every value of every name is printable.
abbrev pub IsClean : HeaderMap → Type 0
IsClean m = All (λ e. All IsPrintable e.1) m

clean_values :
    (m : HeaderMap) (k : Text) → IsClean m → All IsPrintable (values_or_default (lookup k m))
clean_values m k h = found (lookup k m) refl
  where
    found : (o : Option (List Text)) → lookup k m ≡ o → All IsPrintable (values_or_default o)
    found none e = tt
    found (some vs) e = All-lookup (All IsPrintable) k vs m h e

-- A check that has one error and one result.
abbrev Either : {A : Type 0} → Result A → A → Type 0
Either {A} r v = (r ≡ err Error.invalid_state) ⊎ (r ≡ ok v)

ensure-Either :
    {A : Type 0} (b : Bool) (r : Result A) (v : A)
    → Either r v
    → Either (ensure b Error.invalid_state >> r) v
ensure-Either true r v h = h
ensure-Either false r v h = inl refl

then-Either :
    {A : Type 0} (a : Result (Unit {0})) (r : Result A) (v : A)
    → Either a tt
    → Either r v
    → Either (a >> r) v
then-Either a r v (inl e) h = inl (rw e refl)
then-Either a r v (inr e) h = rw e h

check_value_chars-Either : (s : Text) → Either (check_value_chars s) tt
check_value_chars-Either [] = inr refl
check_value_chars-Either (c ∷ s) =
    ensure-Either _ _ tt (ensure-Either _ (check_value_chars s) tt (check_value_chars-Either s))

check_value_bytes-Either : (s : Text) → Either (check_value_bytes s) tt
check_value_bytes-Either [] = inr refl
check_value_bytes-Either (c ∷ s) =
    ensure-Either (is_printable c) (check_value_bytes s) tt (check_value_bytes-Either s)

module _ (u : Unicode) where
  header_value-IsPrintable : (value v : Text) → header_value u value ≡ ok v → IsPrintable v
  header_value-IsPrintable value v h =
      let t : Text = trim u value in
      let (passed, same) = checks_passed (check_value_chars t) (check_value_bytes t) t v h in
      subst IsPrintable same (check_value_bytes-IsPrintable t passed)

  pub insert-IsClean :
      (name value : Text) (m : HeaderMap) → IsClean m → IsClean (insert u name value m).1
  insert-IsClean name value m h = elim (Result-cases (header_name u name)) [
    | inr (e, bad) ↦ rw bad h
    | inl (n, good) ↦ elim (Result-cases (header_value u value)) [
      | inr (e, bad) ↦ rw (good, bad) h
      | inl (v, fine) ↦
          rw (good, fine)
            (All-insert (λ e. All IsPrintable e.1) (key u n) (v ∷ []) m
              (header_value-IsPrintable value v fine, tt) h)
    ]
  ]

  pub append-IsClean :
      (name value : Text) (m : HeaderMap) → IsClean m → IsClean (append u name value m).1
  append-IsClean name value m h = elim (Result-cases (header_name u name)) [
    | inr (e, bad) ↦ rw bad h
    | inl (n, good) ↦ elim (Result-cases (header_value u value)) [
      | inr (e, bad) ↦ rw (good, bad) h
      | inl (v, fine) ↦
          rw (good, fine)
            (All-insert (λ e. All IsPrintable e.1) (key u n)
              (values_or_default (lookup (key u n) m) ++ (v ∷ [])) m
              (All-append IsPrintable (values_or_default (lookup (key u n) m)) (v ∷ [])
                (clean_values m (key u n) h) (header_value-IsPrintable value v fine, tt))
              h)
    ]
  ]

  pub insert_each-IsClean :
      (headers : List (Text × Text)) (m : HeaderMap) → IsClean m → IsClean (insert_each u headers m)
  insert_each-IsClean [] m h = h
  insert_each-IsClean ((name, value) ∷ headers) m h =
      insert_each-IsClean headers (insert u name value m).1 (insert-IsClean name value m h)

  header_name-Either : (name : Text) → Either (header_name u name) name
  header_name-Either name =
      let chars : Bool = all (is_name_char u) name in
      let plain : Bool = all (λ c. not (is_ascii_control c)) name in
      ensure-Either (not (is_empty name))
        (ensure chars Error.invalid_state >> (ensure plain Error.invalid_state >> ok name)) name
        (ensure-Either chars (ensure plain Error.invalid_state >> ok name) name
          (ensure-Either plain (ok name) name (inr refl)))

  header_value-Either : (value : Text) → Either (header_value u value) (trim u value)
  header_value-Either value =
      let t : Text = trim u value in
      then-Either (check_value_chars t) (check_value_bytes t >> ok t) t (check_value_chars-Either t)
        (then-Either (check_value_bytes t) (ok t) t (check_value_bytes-Either t) (inr refl))

  values_if :
      (b : Bool) (vs : List Text) (o : Option (List Text))
      → values_or_default (if b then some vs else o) ≡ (if b then vs else values_or_default o)
  values_if true vs o = refl
  values_if false vs o = refl

  get_all-insert :
      (k : Text) (vs : List Text) (other : Text) (m : HeaderMap)
      → get_all u other (Assoc.insert k vs m) ≡ (if k =? key u other then vs else get_all u other m)
  get_all-insert k vs other m =
      ap values_or_default (lookup-insert k (key u other) vs m)
      ∙ values_if (k =? key u other) vs (lookup (key u other) m)

  -- After an `insert` either a part was invalid and nothing changed, or the name, in any spelling,
  -- has the one value, trimmed, and all other names have the values that they had.
  pub insert_cases :
      (name value other : Text) (m : HeaderMap)
      → (insert u name value m ≡ (err Error.invalid_state, m))
        ⊎ (((insert u name value m).0 ≡ ok tt)
            × (get_all u other (insert u name value m).1
                ≡ (if key u name =? key u other then trim u value ∷ [] else get_all u other m)))
  insert_cases name value other m = elim (header_name-Either name) [
    | inl bad ↦ inl (rw bad refl)
    | inr good ↦ elim (header_value-Either value) [
      | inl bad ↦ inl (rw (good, bad) refl)
      | inr fine ↦
          inr (rw (good, fine) (refl, get_all-insert (key u name) (trim u value ∷ []) other m))
    ]
  ]

  -- After an `append` either a part was invalid and nothing changed, or the name, in any spelling,
  -- has the value, trimmed, behind those that it had, and all other names have what they had.
  pub append_cases :
      (name value other : Text) (m : HeaderMap)
      → (append u name value m ≡ (err Error.invalid_state, m))
        ⊎ (((append u name value m).0 ≡ ok tt)
            × (get_all u other (append u name value m).1 ≡ (
                if key u name =? key u other
                then get_all u name m ++ (trim u value ∷ [])
                else get_all u other m)))
  append_cases name value other m = elim (header_name-Either name) [
    | inl bad ↦ inl (rw bad refl)
    | inr good ↦ elim (header_value-Either value) [
      | inl bad ↦ inl (rw (good, bad) refl)
      | inr fine ↦ inr (
          rw (good, fine)
            (refl, get_all-insert (key u name) (get_all u name m ++ (trim u value ∷ [])) other m))
    ]
  ]

  pub extend-IsClean : (m other : HeaderMap) → IsClean m → IsClean other → IsClean (extend m other)
  extend-IsClean m [] h g = h
  extend-IsClean m ((k, vs) ∷ other) h g =
      extend-IsClean (Assoc.insert k (values_or_default (lookup k m) ++ vs) m) other
        (All-insert (λ e. All IsPrintable e.1) k (values_or_default (lookup k m) ++ vs) m
          (All-append IsPrintable (values_or_default (lookup k m)) vs (clean_values m k h) g.0) h)
        g.1

  -- However a header map is made, from pairs of texts, by further insertions, or by extending it
  -- with such a map, all of its values are printable ASCII: no text can smuggle in a line break.
  pub from_iter-IsClean :
      (headers more : List (Text × Text)) (name value : Text)
      → IsClean (extend (insert u name value (from_iter u headers)).1 (from_iter u more))
        × IsClean (append u name value (from_iter u headers)).1
  from_iter-IsClean headers more name value =
      let made : IsClean (from_iter u headers) = insert_each-IsClean headers [] tt in
      (
        extend-IsClean (insert u name value (from_iter u headers)).1 (from_iter u more)
            (insert-IsClean name value (from_iter u headers) made) (insert_each-IsClean more [] tt),
        append-IsClean name value (from_iter u headers) made,
      )

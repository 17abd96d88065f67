-- ===== src/Headers.antt =====
-- src/headers.rs: validated header names and values, and the map from lower-case names to lists
-- of values.
pub mod Values
pub mod Known
pub mod Http
pub mod Iter
mod Tests
use ws_fabric.Prelude.{
  ℕ, ◌≡◌, Bool, true, false, ◌&&◌, ◌||◌, not, List, [], ◌∷◌, ◌++◌, Option, none, some, ltb, leb,
  ◌==◌, all, length, if◌then◌else◌, Text, list_eq,
}
use ws_fabric.Prelude.Assoc
use ws_fabric.Prelude.Assoc.{lookup}
use ws_fabric.Text.{Unicode, is_empty, trim}
use ws_fabric.Error.{Error, Result, ok, err, ensure, ◌>>◌, ◌>>=◌}

abbrev pub is_ascii_control : ℕ → Bool
is_ascii_control c = ltb c 32 || c == 127

abbrev pub is_ascii : ℕ → Bool
is_ascii c = ltb c 128

-- `(0x20..=0x7E).contains(&byte)`
abbrev pub is_printable : ℕ → Bool
is_printable c = leb 32 c && leb c 126

abbrev pub HeaderMap : Type 0
HeaderMap = List (Text × List Text)

-- The first value.
abbrev pub first : List Text → Option Text
first [] = none
first (v ∷ vs) = some v

-- `pop`: the last value.
abbrev pub last : List Text → Option Text
last [] = none
last (v ∷ []) = some v
last (v ∷ w ∷ vs) = last (w ∷ vs)

abbrev pub values_or_default : Option (List Text) → List Text
values_or_default none = []
values_or_default (some vs) = vs

abbrev pub check_value_chars : Text → Result (Unit {0})
check_value_chars [] = ok tt
check_value_chars (c ∷ s) =
    ensure (not (is_ascii_control c && not (c == 32))) Error.invalid_state
    >> (ensure (not (not (is_ascii c) && not (c == 32))) Error.invalid_state >> check_value_chars s)

-- The bytes of a text that has only ASCII are its characters.
abbrev pub check_value_bytes : Text → Result (Unit {0})
check_value_bytes [] = ok tt
check_value_bytes (c ∷ s) = ensure (is_printable c) Error.invalid_state >> check_value_bytes s

module _ (u : Unicode) where
  abbrev pub is_name_char : ℕ → Bool
  is_name_char c = (u.is_alphanumeric c || c == 45) || c == 33

  -- `HeaderName::new`
  abbrev pub header_name : Text → Result Text
  header_name name =
      ensure (not (is_empty name)) Error.invalid_state
      >> (ensure (all is_name_char name) Error.invalid_state
          >> (ensure (all (λ c. not (is_ascii_control c)) name) Error.invalid_state >> ok name))

  abbrev pub checked_value : Text → Result Text
  checked_value value = check_value_chars value >> (check_value_bytes value >> ok value)

  -- `HeaderValue::new`
  abbrev pub header_value : Text → Result Text
  header_value value = checked_value (trim u value)

  abbrev pub key : Text → Text
  key name = u.to_lowercase name

  abbrev pub insert_valid : Result Text → Result Text → HeaderMap → Result (Unit {0}) × HeaderMap
  insert_valid (err e) value m = (err e, m)
  insert_valid (ok name) (err e) m = (err e, m)
  insert_valid (ok name) (ok value) m = (ok tt, Assoc.insert (key name) (value ∷ []) m)

  abbrev pub insert : Text → Text → HeaderMap → Result (Unit {0}) × HeaderMap
  insert name value m = insert_valid (header_name name) (header_value value) m

  abbrev pub append_valid : Result Text → Result Text → HeaderMap → Result (Unit {0}) × HeaderMap
  append_valid (err e) value m = (err e, m)
  append_valid (ok name) (err e) m = (err e, m)
  append_valid (ok name) (ok value) m =
      (ok tt, Assoc.insert (key name) (values_or_default (lookup (key name) m) ++ (value ∷ [])) m)

  abbrev pub append : Text → Text → HeaderMap → Result (Unit {0}) × HeaderMap
  append name value m = append_valid (header_name name) (header_value value) m

  abbrev pub get_all : Text → HeaderMap → List Text
  get_all name m = values_or_default (lookup (key name) m)

  abbrev pub get : Text → HeaderMap → Option Text
  get name m = elim (lookup (key name) m) [ none ↦ none | some vs ↦ first vs ]

  abbrev pub remove : Text → HeaderMap → Option Text × HeaderMap
  remove name m =
      (elim (lookup (key name) m) [ none ↦ none | some vs ↦ last vs ], Assoc.remove (key name) m)

  abbrev pub contains : Text → HeaderMap → Bool
  contains name m = elim (lookup (key name) m) [ none ↦ false | some vs ↦ true ]

  -- `FromIterator`: invalid headers are skipped.
  abbrev insert_each : List (Text × Text) → HeaderMap → HeaderMap
  insert_each [] m = m
  insert_each ((name, value) ∷ headers) m = insert_each headers (insert name value m).1

  abbrev pub from_iter : List (Text × Text) → HeaderMap
  from_iter headers = insert_each headers []

abbrev pub len : HeaderMap → ℕ
len m = length m

-- The entries of `other` in their order of iteration.
abbrev pub extend : HeaderMap → HeaderMap → HeaderMap
extend m [] = m
extend m ((k, vs) ∷ other) = extend (Assoc.insert k (values_or_default (lookup k m) ++ vs) m) other

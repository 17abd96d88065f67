-- ===== src/Headers/Iter.antt =====
-- src/headers.rs: going through a map, and emptying it.
use ws_fabric.Prelude.{
  ℕ, ◌≡◌, refl, Bool, false, List, [], ◌∷◌, ◌++◌, Option, none, some, arith, All, Text, list_eq,
}
use ws_fabric.Prelude.Assoc.{lookup, All-insert}
use ws_fabric.Error.{Result, ok, err}
use ws_fabric.Text.{Unicode, is_empty}
use ws_fabric.Headers.{
  HeaderMap, first, values_or_default, header_name, header_value, key, insert_valid, insert,
  append_valid, append, get,
}

abbrev pub new : HeaderMap
new = []

abbrev pub with_capacity : ℕ → HeaderMap
with_capacity capacity = []

abbrev pub is_empty_map : HeaderMap → Bool
is_empty_map m = is_empty m

abbrev pub clear : HeaderMap → HeaderMap
clear m = []

abbrev pub with_first : Text → Option Text → List (Text × Text) → List (Text × Text)
with_first name none rest = rest
with_first name (some v) rest = (name, v) ∷ rest

-- The names with their first values.
unfoldable pub iter : HeaderMap → List (Text × Text)
iter [] = []
iter ((name, vs) ∷ m) = with_first name (first vs) (iter m)

abbrev pub iter_all : HeaderMap → List (Text × List Text)
iter_all m = m

-- Every name has a value.
abbrev pub HasValues : HeaderMap → Type 0
HasValues = All (λ e. is_empty e.1 ≡ false)

-- In a map where every name has a value, `iter` shows for each name the value that `get` finds.
pub lookup-iter :
    (u : Unicode) (name : Text) (m : HeaderMap)
    → HasValues m
    → lookup (key u name) (iter m) ≡ get u name m
unfolding iter lookup
lookup-iter u name [] h = refl
lookup-iter u name ((k, []) ∷ m) h = absurd (cc h.0)
lookup-iter u name ((k, v ∷ vs) ∷ m) h = ground (arith, lookup-iter u name m h.1)

append_one : (vs : List Text) (v : Text) → is_empty (vs ++ (v ∷ [])) ≡ false
append_one [] v = refl
append_one (w ∷ vs) v = refl

insert_valid-HasValues :
    (u : Unicode) (name value : Result Text) (m : HeaderMap)
    → HasValues m
    → HasValues (insert_valid u name value m).1
insert_valid-HasValues u (err e) value m h = h
insert_valid-HasValues u (ok name) (err e) m h = h
insert_valid-HasValues u (ok name) (ok value) m h =
    All-insert (λ e. is_empty e.1 ≡ false) (key u name) (value ∷ []) m refl h

append_valid-HasValues :
    (u : Unicode) (name value : Result Text) (m : HeaderMap)
    → HasValues m
    → HasValues (append_valid u name value m).1
append_valid-HasValues u (err e) value m h = h
append_valid-HasValues u (ok name) (err e) m h = h
append_valid-HasValues u (ok name) (ok value) m h =
    let old = values_or_default (lookup (key u name) m) in
    All-insert (λ e. is_empty e.1 ≡ false) (key u name) (old ++ (value ∷ [])) m
      (append_one old value) h

-- Inserting and appending leave no name without a value, whether they succeed or fail.
pub insert-HasValues :
    (u : Unicode) (name value : Text) (m : HeaderMap)
    → HasValues m
    → HasValues (insert u name value m).1
insert-HasValues u name value m h =
    insert_valid-HasValues u (header_name u name) (header_value u value) m h

pub append-HasValues :
    (u : Unicode) (name value : Text) (m : HeaderMap)
    → HasValues m
    → HasValues (append u name value m).1
append-HasValues u name value m h =
    append_valid-HasValues u (header_name u name) (header_value u value) m h

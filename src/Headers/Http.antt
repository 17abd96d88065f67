-- ===== src/Headers/Http.antt =====
-- src/headers.rs: the conversions from and to the maps of the `http` crate. Such a map is the list
-- of its entries in their order of iteration, a value with its text (`to_str`) or none; which names
-- and values the crate accepts is a parameter.
use ws_fabric.Prelude.{
  ◌≡◌, sym, ap, ◌∙◌, Bool, true, ◌&&◌, List, [], ◌∷◌, ◌++◌, map, all, append_assoc, append-nil,
  Option, none, some, inl, inr, Text, Bool-cases,
}
use ws_fabric.Text.{Unicode}
use ws_fabric.Error.{Error, Result, ok, ensure, ◌>>◌, ◌>>=◌}
use ws_fabric.Headers.{HeaderMap, append}
use ws_fabric.Headers.Values.{IsClean, append-IsClean}

pub record HttpRules : Type 0 where
  -- `HeaderName::from_bytes` and `HeaderValue::from_str` succeed
  pub accepts_name : Text → Bool
  pub accepts_value : Text → Bool

abbrev pub text_or_empty : Option Text → Text
text_or_empty none = []
text_or_empty (some s) = s

-- Headers that are not valid here are skipped.
abbrev pub append_each : Unicode → List (Text × Option Text) → HeaderMap → HeaderMap
append_each u [] m = m
append_each u ((name, value) ∷ headers) m =
    append_each u headers (append u name (text_or_empty value) m).1

abbrev pub from_http_header_map : Unicode → List (Text × Option Text) → HeaderMap
from_http_header_map u headers = append_each u headers []

abbrev pub append_values :
    HttpRules → Text → List Text → List (Text × Text) → Result (List (Text × Text))
append_values r name [] http = ok http
append_values r name (v ∷ vs) http =
    ensure (r.accepts_value v) Error.invalid_state
    >> append_values r name vs (http ++ ((name, v) ∷ []))

abbrev pub append_entries : HttpRules → HeaderMap → List (Text × Text) → Result (List (Text × Text))
append_entries r [] http = ok http
append_entries r ((name, vs) ∷ m) http =
    ensure (r.accepts_name name) Error.invalid_state
    >> (append_values r name vs http >>= append_entries r m)

abbrev pub to_http_header_map : HttpRules → HeaderMap → Result (List (Text × Text))
to_http_header_map r m = append_entries r m []

abbrev pub entries : HeaderMap → List (Text × Text)
entries [] = []
entries ((name, vs) ∷ m) = map (λ v. (name, v)) vs ++ entries m

abbrev pub all_accepted : HttpRules → HeaderMap → Bool
all_accepted r [] = true
all_accepted r ((name, vs) ∷ m) =
    r.accepts_name name && (all r.accepts_value vs && all_accepted r m)

append_values-all :
    (r : HttpRules) (name : Text) (vs : List Text) (http : List (Text × Text))
    → all r.accepts_value vs ≡ true
    → append_values r name vs http ≡ ok (http ++ map (λ v. (name, v)) vs)
append_values-all r name [] http h = ap ok (sym (append-nil http))
append_values-all r name (v ∷ vs) http h = elim (Bool-cases (r.accepts_value v)) [
  | inl good ↦ rw good (
      append_values-all r name vs (http ++ ((name, v) ∷ [])) (rw good at h)
      ∙ ap ok (append_assoc http ((name, v) ∷ []) (map (λ w. (name, w)) vs)))
  | inr bad ↦ absurd (cc (rw bad at h))
]

-- If the crate accepts all names and values, the conversion gives every value with its name, in the
-- order of the map.
pub append_entries-all :
    (r : HttpRules) (m : HeaderMap) (http : List (Text × Text))
    → all_accepted r m ≡ true
    → append_entries r m http ≡ ok (http ++ entries m)
append_entries-all r [] http h = ap ok (sym (append-nil http))
append_entries-all r ((name, vs) ∷ m) http h = elim (Bool-cases (r.accepts_name name)) [
  | inl good ↦ elim (Bool-cases (all r.accepts_value vs)) [
    | inl fine ↦
        rw (good, append_values-all r name vs http fine)
          (append_entries-all r m (http ++ map (λ v. (name, v)) vs) (rw (good, fine) at h)
            ∙ ap ok (append_assoc http (map (λ v. (name, v)) vs) (entries m)))
    | inr bad ↦ absurd (cc (rw (good, bad) at h))
  ]
  | inr bad ↦ absurd (cc (rw bad at h))
]

append_each-IsClean :
    (u : Unicode) (headers : List (Text × Option Text)) (m : HeaderMap)
    → IsClean m
    → IsClean (append_each u headers m)
append_each-IsClean u [] m h = h
append_each-IsClean u ((name, value) ∷ headers) m h =
    append_each-IsClean u headers (append u name (text_or_empty value) m).1
      (append-IsClean u name (text_or_empty value) m h)

-- Whatever a map of the crate holds, all values of the map made from it are printable.
pub from_http_header_map-IsClean :
    (u : Unicode) (headers : List (Text × Option Text)) → IsClean (from_http_header_map u headers)
from_http_header_map-IsClean u headers = append_each-IsClean u headers [] tt

-- The conversions by `From` and `TryFrom`.
abbrev pub from_http : Unicode → List (Text × Option Text) → HeaderMap
from_http u headers = from_http_header_map u headers

abbrev pub try_into_http : HttpRules → HeaderMap → Result (List (Text × Text))
try_into_http r m = to_http_header_map r m

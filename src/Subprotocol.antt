-- ===== src/Subprotocol.antt =====
-- src/subprotocol.rs: the client's list and the server's negotiator.
pub mod Validation
pub mod Negotiation
pub mod RoundTrip
pub mod Server
mod Tests
use ws_fabric.Prelude.{
  ℕ, Bool, true, false, ◌&&◌, ◌||◌, not, List, [], ◌∷◌, ◌++◌, Option, none, some, Text, text_eq,
  all, ◌==◌, length, if◌then◌else◌,
}
use ws_fabric.Error.{Error, Result, ok, err, ◌>>=◌, ◌>>◌, ensure, is_ok}
use ws_fabric.Text.{Unicode, is_empty, join, split, trim}

pub record SubprotocolList : Type 0 where
  pub protocols : List Text

pub record SubprotocolNegotiator : Type 0 where
  pub protocols : List Text
  pub allow_wildcard : Bool

abbrev pub empty_list : SubprotocolList
empty_list = record { protocols = [] }

abbrev pub empty_negotiator : SubprotocolNegotiator
empty_negotiator = record { protocols = []; allow_wildcard = false }

-- `iter().any(|p| p == protocol)`
pub any_eq : List Text → Text → Bool
any_eq [] protocol = false
any_eq (p ∷ ps) protocol = text_eq p protocol || any_eq ps protocol

unfoldable pub contains : SubprotocolList → Text → Bool
unfolding any_eq
contains l protocol = any_eq l.protocols protocol

-- `", "`
abbrev pub separator : Text
separator = b',' ∷ b' ' ∷ []

unfoldable pub to_header_value : SubprotocolList → Text
to_header_value l = join separator l.protocols

unfoldable pub parse_response : SubprotocolList → Option Text → Result (Option Text)
parse_response l none = ok none
parse_response l (some protocol) =
    if not (contains l protocol)
    then err Error.subprotocol_negotiation_failed
    else ok (some protocol)

unfoldable pub supports : SubprotocolNegotiator → Text → Bool
unfolding any_eq
supports n protocol = any_eq n.protocols protocol

unfoldable pub with_wildcard : SubprotocolNegotiator → Bool → SubprotocolNegotiator
with_wildcard n allow = record n { allow_wildcard = allow }

unfoldable pub with_reject_on_no_match : SubprotocolNegotiator → Bool → SubprotocolNegotiator
with_reject_on_no_match n reject = n

-- The loop of `negotiate` over the client's protocols.
pub first_supported : SubprotocolNegotiator → List Text → Option Text
first_supported n [] = none
first_supported n (p ∷ ps) =
    let rest = first_supported n ps in if supports n p then some p else rest

abbrev first : List Text → Option Text
first [] = none
first (p ∷ ps) = some p

pub negotiate : SubprotocolNegotiator → SubprotocolList → Option Text
negotiate n c =
    if is_empty c.protocols
    then none
    else if n.allow_wildcard && not (is_empty c.protocols)
    then first c.protocols
    else first_supported n c.protocols

abbrev is_none {ℓ} : {A : Type ℓ} → Option A → Bool
is_none none = true
is_none (some a) = false

pub should_reject : SubprotocolNegotiator → SubprotocolList → Bool
should_reject n c = not (is_empty c.protocols) && is_none (negotiate n c)

module _ (u : Unicode) where
  abbrev pub is_name_char : ℕ → Bool
  is_name_char c = u.is_alphanumeric c || (c == b'-' || c == b'_')

  pub validate_protocol : Text → Result (Unit {0})
  validate_protocol protocol = do
    ensure (not (is_empty protocol)) Error.invalid_subprotocol
    ensure (all is_name_char protocol) Error.invalid_subprotocol

  unfoldable pub with_protocol : SubprotocolList → Text → Result SubprotocolList
  unfolding validate_protocol
  with_protocol l protocol = do
    validate_protocol protocol
    ok (record l { protocols = l.protocols ++ protocol ∷ [] })

  -- The loop of `from_slice`.
  pub add_all : SubprotocolList → List Text → Result SubprotocolList
  add_all l [] = ok l
  add_all l (p ∷ ps) = with_protocol l p >>= λ l'. add_all l' ps

  unfoldable pub from_slice : List Text → Result SubprotocolList
  unfolding add_all
  from_slice ps = add_all empty_list ps

  unfoldable pub support_protocol : SubprotocolNegotiator → Text → Result SubprotocolNegotiator
  unfolding validate_protocol any_eq
  support_protocol n protocol = do
    validate_protocol protocol
    ok (
        if any_eq n.protocols protocol
        then n
        else record n { protocols = n.protocols ++ protocol ∷ [] })

  pub support_all : SubprotocolNegotiator → List Text → Result SubprotocolNegotiator
  support_all n [] = ok n
  support_all n (p ∷ ps) = support_protocol n p >>= λ n'. support_all n' ps

  unfoldable pub negotiator_from_slice : List Text → Result SubprotocolNegotiator
  unfolding support_all
  negotiator_from_slice ps = support_all empty_negotiator ps

  -- The loop of `parse_header`.
  pub collect : List Text → List Text
  collect [] = []
  collect (piece ∷ pieces) =
      let more = collect pieces in
      let protocol = trim u piece in
      if not (is_empty protocol) && is_ok (validate_protocol protocol)
      then protocol ∷ more
      else more

  unfoldable pub parse_header : Text → SubprotocolList
  unfolding collect
  parse_header header = record { protocols = collect (split b',' header) }

unfoldable pub is_empty_list : SubprotocolList → Bool
is_empty_list l = is_empty l.protocols

abbrev pub list_len : SubprotocolList → ℕ
list_len l = length l.protocols

unfoldable pub is_empty_negotiator : SubprotocolNegotiator → Bool
is_empty_negotiator n = is_empty n.protocols

abbrev pub negotiator_len : SubprotocolNegotiator → ℕ
negotiator_len n = length n.protocols

-- `Display for SubprotocolList`
unfoldable pub display : SubprotocolList → Text
unfolding to_header_value
display l = to_header_value l

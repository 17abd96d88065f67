-- ===== src/Compression/Handshake/Layout.antt =====
-- src/compression.rs: what `parse_compression_response` looks for in an offer, as a test of one offer.
use ws_fabric.Prelude.{
  ◌≡◌, refl, ap, ◌∙◌, sym, subst, Bool, true, false, ◌&&◌, not, ◌++◌, map, some, ltb, all, length,
  Text, text_eq, text_eq_iff,
}
use ws_fabric.Text.{Unicode, is_empty, contains, ascii_lower}
use ws_fabric.Text.Decimal.{is_digit}
use ws_fabric.Compression.Handshake.{occurs_within, is_plain, ends_digits, Regex}

-- The texts at which the parser looks, in an offer.
pub record Layout : Type 0 where
  pub offer : Text
  pub before_server : Text
  pub before_client : Text
  pub server_digits : Text
  pub client_digits : Text
  pub after_server : Text
  pub after_client : Text
  pub server_key : Text
  pub client_key : Text
  pub extension : Text
  pub server_flag : Text
  pub client_flag : Text
  pub given_server : Bool
  pub given_client : Bool

is_same : Bool → Bool → Bool
is_same true b = b
is_same false b = not b

is_number : Text → Bool
is_number s = all is_digit s && not (is_empty s)

-- The offer is in lower case, has the extension's name and the flags, and its keys stand only where
-- they are meant.
unfoldable pub check : Layout → Bool
unfolding is_same contains is_number
check l =
    (all (λ x. ltb x 128) l.offer && text_eq (map ascii_lower l.offer) l.offer)
    && (text_eq l.offer (l.before_server ++ (l.server_key ++ (l.server_digits ++ l.after_server)))
        && text_eq l.offer
            (l.before_client ++ (l.client_key ++ (l.client_digits ++ l.after_client))))
    && (not (occurs_within (length l.before_server) l.server_key l.offer)
        && not (occurs_within (length l.before_client) l.client_key l.offer))
    && (is_number l.server_digits && is_number l.client_digits)
    && (ends_digits l.after_server && ends_digits l.after_client)
    && (contains l.offer l.extension
        && (is_same l.given_server (contains l.offer l.server_flag)
            && is_same l.given_client (contains l.offer l.client_flag)))

pub record Found (l : Layout) : Type 0 where
  pub ascii : all (λ x. ltb x 128) l.offer ≡ true
  pub lower : map ascii_lower l.offer ≡ l.offer
  pub server : l.offer ≡ l.before_server ++ (l.server_key ++ (l.server_digits ++ l.after_server))
  pub client : l.offer ≡ l.before_client ++ (l.client_key ++ (l.client_digits ++ l.after_client))
  pub server_first : occurs_within (length l.before_server) l.server_key l.offer ≡ false
  pub client_first : occurs_within (length l.before_client) l.client_key l.offer ≡ false
  pub server_number : (all is_digit l.server_digits ≡ true) × (is_empty l.server_digits ≡ false)
  pub client_number : (all is_digit l.client_digits ≡ true) × (is_empty l.client_digits ≡ false)
  pub server_ends : ends_digits l.after_server ≡ true
  pub client_ends : ends_digits l.after_client ≡ true
  pub extended : contains l.offer l.extension ≡ true
  pub server_flagged : contains l.offer l.server_flag ≡ l.given_server
  pub client_flagged : contains l.offer l.client_flag ≡ l.given_client

&&_lem : (a b : Bool) → (a && b) ≡ true → (a ≡ true) × (b ≡ true)
&&_lem true b h = (refl, h)
&&_lem false b h = cc

not_lem : (a : Bool) → not a ≡ true → a ≡ false
not_lem true h = sym h
not_lem false h = refl

is_same_lem : (f b : Bool) → is_same f b ≡ true → b ≡ f
unfolding is_same
is_same_lem true b h = h
is_same_lem false b h = not_lem b h

is_number_lem : (s : Text) → is_number s ≡ true → (all is_digit s ≡ true) × (is_empty s ≡ false)
unfolding is_number
is_number_lem s h = let both = &&_lem _ _ h in (both.0, not_lem _ both.1)

pub check_lem : (l : Layout) → check l ≡ true → Found l
unfolding check
check_lem l h =
    let part1 = &&_lem _ _ h in
    let part2 = &&_lem _ _ part1.0 in
    let part3 = &&_lem _ _ part2.0 in
    let part4 = &&_lem _ _ part3.0 in
    let part5 = &&_lem _ _ part4.0 in
    let case = &&_lem _ _ part5.0 in
    let shape = &&_lem _ _ part5.1 in
    let first = &&_lem _ _ part4.1 in
    let numbers = &&_lem _ _ part3.1 in
    let ends = &&_lem _ _ part2.1 in
    let names = &&_lem _ _ part1.1 in
    let flags = &&_lem _ _ names.1 in
    record {
      ascii = case.0;
      lower = (text_eq_iff _ l.offer).0 case.1;
      server = (text_eq_iff l.offer _).0 shape.0;
      client = (text_eq_iff l.offer _).0 shape.1;
      server_first = not_lem _ first.0;
      client_first = not_lem _ first.1;
      server_number = is_number_lem l.server_digits numbers.0;
      client_number = is_number_lem l.client_digits numbers.1;
      server_ends = ends.0;
      client_ends = ends.1;
      extended = names.0;
      server_flagged = is_same_lem l.given_server _ flags.0;
      client_flagged = is_same_lem l.given_client _ flags.1;
    }

-- What is captured behind a key that stands only where it is meant.
captured_lem :
    (r : Regex) (offer key before digits after : Text)
    → offer ≡ before ++ (key ++ (digits ++ after))
    → all is_plain key ≡ true
    → (all is_digit digits ≡ true) × (is_empty digits ≡ false)
    → ends_digits after ≡ true
    → occurs_within (length before) key offer ≡ false
    → r.captured offer key ≡ some digits
captured_lem r offer key before digits after shape plain number ends first =
    ap (λ t. r.captured t key) shape
    ∙ r.captured_leftmost key before digits after plain number.1 number.0 ends
        (subst (λ t. occurs_within (length before) key t ≡ false) shape first)

module _ (r : Regex) (l : Layout) (found : Found l) where
  pub captured_server :
      all is_plain l.server_key ≡ true → r.captured l.offer l.server_key ≡ some l.server_digits
  captured_server plain =
      captured_lem r l.offer l.server_key l.before_server l.server_digits l.after_server
        found.server plain found.server_number found.server_ends found.server_first

  pub captured_client :
      all is_plain l.client_key ≡ true → r.captured l.offer l.client_key ≡ some l.client_digits
  captured_client plain =
      captured_lem r l.offer l.client_key l.before_client l.client_digits l.after_client
        found.client plain found.client_number found.client_ends found.client_first

  pub offer_in_lower_case : (u : Unicode) → u.to_lowercase l.offer ≡ l.offer
  offer_in_lower_case u = u.to_lowercase_ascii l.offer found.ascii ∙ found.lower

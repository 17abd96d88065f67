-- ===== src/Compression/Handshake.antt =====
-- src/compression.rs: the offer of compression in the handshake, and reading the answer. Texts are
-- lists of code points.
pub mod Regexes
mod Layout
pub mod RoundTrip
use ws_fabric.Prelude.{
  ℕ, zero, suc, ◌+◌, ◌≤◌, ◌≡◌, Bool, true, false, ◌&&◌, ◌||◌, not, List, [], ◌∷◌, ◌++◌, Option,
  none, some, leb, ltb, ◌==◌, all, length, if◌then◌else◌, Text, text_of,
}
use ws_fabric.Error.{Result, ok}
use ws_fabric.Text.{Unicode, is_empty, join, starts_with, contains}
use ws_fabric.Text.Decimal.{print, parse, is_digit}
use ws_fabric.Compression.{CompressionConfig, default, disabled, is_window}

abbrev pub server_bits_key : Text
server_bits_key = text_of "server_max_window_bits="

abbrev pub client_bits_key : Text
client_bits_key = text_of "client_max_window_bits="

abbrev pub server_takeover : Text
server_takeover = text_of "server_no_context_takeover"

abbrev pub client_takeover : Text
client_takeover = text_of "client_no_context_takeover"

abbrev pub flag : Bool → Text → List Text
flag given name = if given then name ∷ [] else []

-- `params` of the source, before they are joined.
abbrev pub offered : CompressionConfig → List Text
offered c =
    (text_of "permessage-deflate; server_max_window_bits=" ++ print c.server_max_window_bits)
    ∷ (client_bits_key ++ print c.client_max_window_bits)
    ∷ (flag c.server_no_context_takeover server_takeover
        ++ flag c.client_no_context_takeover client_takeover)

unfoldable pub compression_offer : CompressionConfig → Text
compression_offer c = join (text_of "; ") (offered c)

-- The key stands in the text at one of its first places, as many as the number says.
abbrev pub occurs_within : ℕ → Text → Text → Bool
occurs_within zero key s = false
occurs_within (suc n) key [] = false
occurs_within (suc n) key (c ∷ s) = starts_with (c ∷ s) key || occurs_within n key s

-- Characters that a regular expression takes as they are.
abbrev pub is_plain : ℕ → Bool
is_plain c = (leb b'a' c && leb c b'z') || (c == b'_' || c == b'=')

-- The text does not go on with a digit.
abbrev pub ends_digits : Text → Bool
ends_digits [] = true
ends_digits (c ∷ s) = not (is_digit c)

-- `Regex::new(key(\d+))` and the first group of `captures`, in the crate regex_lite.
pub record Regex : Type 0 where
  pub captured : Text → Text → Option Text
  -- The leftmost match counts, with as many digits as there are.
  pub captured_leftmost :
      (key before digits after : Text)
      → all is_plain key ≡ true
      → is_empty digits ≡ false
      → all is_digit digits ≡ true
      → ends_digits after ≡ true
      → occurs_within (length before) key (before ++ (key ++ (digits ++ after))) ≡ false
      → captured (before ++ (key ++ (digits ++ after))) key ≡ some digits

abbrev pub parsed_or : ℕ → Option ℕ → ℕ
parsed_or old none = old
parsed_or old (some bits) = if is_window bits then bits else old

-- The bits that a capture gives, if they are a `u8` and a window, and otherwise the old ones.
abbrev pub window_or : ℕ → Option Text → ℕ
window_or old none = old
window_or old (some digits) = parsed_or old (parse 255 digits)

module _ (u : Unicode) (r : Regex) where
  -- The configuration that an answer with the extension gives.
  abbrev pub answered : Text → CompressionConfig
  answered header = record default {
    server_max_window_bits =
        window_or default.server_max_window_bits (r.captured header server_bits_key);
    client_max_window_bits =
        window_or default.client_max_window_bits (r.captured header client_bits_key);
    server_no_context_takeover = contains header server_takeover;
    client_no_context_takeover = contains header client_takeover;
  }

  abbrev pub parse_lower : Text → Result CompressionConfig
  parse_lower header =
      if not (contains header (text_of "permessage-deflate"))
      then ok disabled
      else ok (answered header)

  abbrev pub parse_compression_response : Text → Result CompressionConfig
  parse_compression_response header = parse_lower (u.to_lowercase header)

-- ===== src/Message/RoundTrip.antt =====
-- src/message.rs: a text goes through a message.
use ws_fabric.Prelude.{ℕ, ◌≡◌, refl, List, All}
use ws_fabric.Error.{ok}
use ws_fabric.Message.Make.{text, as_text}
use ws_fabric.Message.Utf8.Encoding.{encode, IsScalar, is_utf8-encode}

-- `as_text` gives back the text that a message was made from, whatever its characters: the check of
-- its bytes accepts the UTF-8 encoding of every list of Unicode scalar values.
pub as_text-text : (cs : List ℕ) → All IsScalar cs → as_text (text (encode cs)) ≡ ok (encode cs)
unfolding as_text text
as_text-text cs scalars = rw (is_utf8-encode cs scalars) refl

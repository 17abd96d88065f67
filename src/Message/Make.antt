-- ===== src/Message/Make.antt =====
-- src/message.rs: the constructors of `Message`, and `as_text`.
use ws_fabric.Prelude.{ℕ, ◌/◌, ◌%◌, Option, none, some, [], ◌∷◌, ◌++◌, if◌then◌else◌}
use ws_fabric.Error.{Result, ok, err, Error}
use ws_fabric.Message.{Bytes, Message, MessageType, is_text}
use ws_fabric.Message.Utf8.{is_utf8}

unfoldable pub text : Bytes → Message
text s = record { msg_type = MessageType.text; payload = s }

unfoldable pub binary : Bytes → Message
binary b = record { msg_type = MessageType.binary; payload = b }

unfoldable pub binary_from_slice : Bytes → Message
binary_from_slice b = record { msg_type = MessageType.binary; payload = b }

unfoldable pub ping : Bytes → Message
ping b = record { msg_type = MessageType.ping; payload = b }

unfoldable pub pong : Bytes → Message
pong b = record { msg_type = MessageType.pong; payload = b }

-- `u16::to_be_bytes`
abbrev pub be_bytes16 : ℕ → Bytes
be_bytes16 c = c / 256 ∷ (c % 256) ∷ []

close_payload : Option ℕ → Option Bytes → Bytes
close_payload none reason = []
close_payload (some code) none = be_bytes16 code
close_payload (some code) (some reason) = be_bytes16 code ++ reason

unfoldable pub close : Option ℕ → Option Bytes → Message
unfolding close_payload
close code reason = record { msg_type = MessageType.close; payload = close_payload code reason }

unfoldable pub as_text : Message → Result Bytes
as_text m =
    if is_text m
    then (if is_utf8 m.payload then ok m.payload else err Error.utf8_error)
    else err Error.invalid_frame

-- The `From` implementations, of texts and of bytes.
abbrev pub from_string : Bytes → Message
from_string s = text s

abbrev pub from_vec : Bytes → Message
from_vec b = binary b

abbrev pub from_slice : Bytes → Message
from_slice b = binary_from_slice b

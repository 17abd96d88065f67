-- ===== src/Message/Display.antt =====
-- src/message.rs: `Display` of message types and messages. A panic is `none`.
pub mod Boundary
pub mod Panics
use mathlib.Core.Option
use ws_fabric.Prelude.{
  ℕ, Bool, true, false, ◌||◌, List, ◌++◌, Option, none, some, length, get_elem?, take, ltb, leb,
  ◌==◌, if◌then◌else◌, Text, text_of,
}
use ws_fabric.Error.{Result, ok, err}
use ws_fabric.Text.Decimal.{print}
use ws_fabric.Message.{Bytes, Message, MessageType, is_text, len}
use ws_fabric.Message.Make.{as_text}

unfoldable pub type_name : MessageType → Bytes
type_name MessageType.text = text_of "text"
type_name MessageType.binary = text_of "binary"
type_name MessageType.ping = text_of "ping"
type_name MessageType.pong = text_of "pong"
type_name MessageType.close = text_of "close"
type_name MessageType.continuation = text_of "continuation"

-- `(byte as i8) >= -0x40`: no continuation byte of UTF-8.
abbrev pub is_first_byte : ℕ → Bool
is_first_byte b = ltb b 0x80 || leb 0xC0 b

abbrev pub starts_char : Bool → Option ℕ → Bool
starts_char at_end none = at_end
starts_char at_end (some b) = is_first_byte b

-- `str::is_char_boundary`
unfoldable pub is_char_boundary : ℕ → Bytes → Bool
is_char_boundary n s = n == 0 || starts_char (n == length s) (get_elem? s n)

-- `&text[..n]` panics where no character ends.
abbrev pub slice_to : ℕ → Bytes → Option Bytes
slice_to n s = if is_char_boundary n s then some (take n s) else none

unfoldable pub preview : Bytes → Option Bytes
preview text =
    if ltb 50 (length text)
    then Option.map (λ s. s ++ text_of "...") (slice_to 50 text)
    else some text

abbrev pub with_preview : Bytes → Result Bytes → Option Bytes
with_preview head (ok text) = Option.map (λ s. head ++ (text_of ": " ++ s)) (preview text)
with_preview head (err e) = some head

unfoldable pub display : Message → Option Bytes
unfolding type_name
display m =
    let head = type_name m.msg_type ++ (text_of " (" ++ (print (len m) ++ text_of " bytes)")) in
    if is_text m then with_preview head (as_text m) else some head

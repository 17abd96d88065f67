-- ===== src/Message.antt =====
-- src/message.rs: messages and frames. A payload is its list of bytes, and a `String` its UTF-8
-- bytes, as in memory.
pub mod Utf8
pub mod Make
pub mod RoundTrip
pub mod Json
mod Tests
pub mod Frames
pub mod Display
use ws_fabric.Prelude.{ℕ, Bool, true, false, List, [], ◌∷◌, length, ◌==◌}

abbrev pub Bytes : Type 0
Bytes = List ℕ

pub data MessageType : Type 0 where
  text binary ping pong close continuation : MessageType

pub record Message : Type 0 where
  pub msg_type : MessageType
  pub payload : Bytes

pub record Frame : Type 0 where
  pub fin : Bool
  pub rsv1 : Bool
  pub rsv2 : Bool
  pub rsv3 : Bool
  pub opcode : ℕ
  pub payload : Bytes

abbrev pub is_text : Message → Bool
is_text m = elim m.msg_type [ MessageType.text ↦ true | _ ↦ false ]

abbrev pub is_binary : Message → Bool
is_binary m = elim m.msg_type [ MessageType.binary ↦ true | _ ↦ false ]

abbrev pub is_ping : Message → Bool
is_ping m = elim m.msg_type [ MessageType.ping ↦ true | _ ↦ false ]

abbrev pub is_pong : Message → Bool
is_pong m = elim m.msg_type [ MessageType.pong ↦ true | _ ↦ false ]

abbrev pub is_close : Message → Bool
is_close m = elim m.msg_type [ MessageType.close ↦ true | _ ↦ false ]

abbrev pub len : Message → ℕ
len m = length m.payload

abbrev pub is_empty : Message → Bool
is_empty m = len m == 0

abbrev pub as_bytes : Message → Bytes
as_bytes m = m.payload

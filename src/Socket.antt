-- ===== src/Socket.antt =====
-- What src/client.rs and src/server.rs do alike with a WebSocket: the conversion of messages, and
-- the calls of `ws_stream.send`. The messages of tungstenite are the variants that the source
-- names, and `frame` for the rest of them.
use ws_fabric.Prelude.{Bool, true, false, List, [], ◌∷◌}
use ws_fabric.Error.{Result, ok, ◌>>=◌}
use ws_fabric.Message.{Bytes, Message, MessageType}
use ws_fabric.Message.Make.{as_text}

pub data WireMessage : Type 0 where
  text binary ping pong : Bytes → WireMessage
  close frame : WireMessage

-- What `ws_stream.next()` gives.
pub data Incoming : Type 0 where
  received : WireMessage → Incoming
  failed : Incoming

-- A message that was written: one of the channel's, or the answer to a ping.
pub data Written : Type 0 where
  forwarded answered : WireMessage → Written

-- The messages of the channel among those written.
unfoldable pub forwards : List Written → List WireMessage
forwards [] = []
forwards (Written.forwarded w ∷ ws) = w ∷ forwards ws
forwards (Written.answered w ∷ ws) = forwards ws

-- A task that runs, or what it returned.
pub data Task : Type 0 where
  running : Task
  returned : Result (Unit {0}) → Task

abbrev pub is_running : Task → Bool
is_running Task.running = true
is_running (Task.returned r) = false

-- `match msg.msg_type`, with the text checked again.
abbrev pub to_wire_as : MessageType → Message → Result WireMessage
to_wire_as MessageType.text m = as_text m >>= λ s. ok (WireMessage.text s)
to_wire_as MessageType.binary m = ok (WireMessage.binary m.payload)
to_wire_as MessageType.ping m = ok (WireMessage.ping m.payload)
to_wire_as MessageType.pong m = ok (WireMessage.pong m.payload)
to_wire_as MessageType.close m = ok WireMessage.close
to_wire_as MessageType.continuation m = ok (WireMessage.binary m.payload)

unfoldable pub to_wire : Message → Result WireMessage
to_wire m = to_wire_as m.msg_type m

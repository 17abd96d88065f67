-- ===== src/Fragmentation/Reassembler/Refinement.antt =====
-- src/fragmentation.rs, `Reassembler::ingest_frame`, beside a machine on the opcodes of RFC 6455 that
-- stands for one connection: a message in progress is its type, its bytes so far and its beginning.
use ws_fabric.Prelude.{ℕ, ◌+◌, ◌++◌, Option, none, some, ltb, ◌==◌, nat_eq, concat, if◌then◌else◌}
use ws_fabric.Prelude.Assoc.{lookup}
use ws_fabric.Error.{Error, Result, ok, err}
use ws_fabric.Message.{Bytes, Message, MessageType, Frame}
use ws_fabric.Fragmentation.Reassembler.{PartialMessage, Reassembler}
use ws_fabric.Fragmentation.Reassembler.Local.{Reaction}

-- The frames of RFC 6455 by their opcodes.
pub data Kind : Type 0 where
  continuation unknown : Kind
  first control : MessageType → Kind

abbrev pub kind_of : ℕ → Kind
kind_of op =
    if op == 0
    then Kind.continuation
    else if op == 1
    then Kind.first MessageType.text
    else if op == 2
    then Kind.first MessageType.binary
    else if op == 8
    then Kind.control MessageType.close
    else if op == 9
    then Kind.control MessageType.ping
    else if op == 10
    then Kind.control MessageType.pong
    else Kind.unknown

-- A message in progress.
pub record Pending : Type 0 where
  pub message_type : MessageType
  pub bytes : Bytes
  pub since : ℕ

abbrev pub Outcome : Type 0
Outcome = Result (Option Message) × Option Pending

-- A message in progress is given up when more than the timeout has passed.
abbrev pub still_pending : ℕ → ℕ → Option Pending → Option Pending
still_pending timeout now none = none
still_pending timeout now (some p) = if ltb (p.since + timeout) now then none else some p

abbrev pub completes : Frame → Option Pending → Outcome
completes f none = (err Error.protocol_violation, none)
completes f (some p) =
    let all = p.bytes ++ f.payload in
    if f.fin
    then (ok (some (record { msg_type = p.message_type; payload = all })), none)
    else (ok none, some (record p { bytes = all }))

abbrev pub begins : ℕ → MessageType → Frame → Option Pending → Outcome
begins now ty f (some p) = (err Error.protocol_violation, some p)
begins now ty f none =
    if f.fin
    then (ok (some (record { msg_type = ty; payload = f.payload })), none)
    else (ok none, some (record { message_type = ty; bytes = f.payload; since = now }))

-- The answer to a frame, and what is in progress after it.
abbrev pub receive_kind : Kind → ℕ → ℕ → Frame → Option Pending → Outcome
receive_kind (Kind.control ty) timeout now f o =
    (ok (some (record { msg_type = ty; payload = f.payload })), o)
receive_kind Kind.continuation timeout now f o = completes f (still_pending timeout now o)
receive_kind (Kind.first ty) timeout now f o = begins now ty f (still_pending timeout now o)
receive_kind Kind.unknown timeout now f o = (err Error.invalid_frame, still_pending timeout now o)

abbrev pub receive : ℕ → ℕ → Frame → Option Pending → Outcome
receive timeout now f o = receive_kind (kind_of f.opcode) timeout now f o

-- What a partial message stands for.
abbrev pub pending_of : PartialMessage → Pending
pending_of p = record {
  message_type = if p.opcode == 1 then MessageType.text else MessageType.binary;
  bytes = concat p.fragments;
  since = p.received_at;
}

abbrev pub pending : Option PartialMessage → Option Pending
pending none = none
pending (some p) = some (pending_of p)

-- What a connection sees of the reassembler.
abbrev pub seen : ℕ → Result (Option Message) × Reassembler → Outcome
seen id x = (x.0, pending (lookup id x.1.incomplete))

abbrev abstracted : Reaction → Outcome
abstracted x = (x.0, pending x.1)

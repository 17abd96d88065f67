-- ===== src/Fragmentation/Reassembler/Isolation.antt =====
-- Connections do not disturb one another, and control frames disturb none.
use ws_fabric.Prelude.{
  ℕ, ◌≡◌, ◌≢◌, ◌∙◌, refl, true, false, Option, none, some, arith, ◌==◌, nat_eq, inl, inr,
  Bool-cases, if◌then◌else◌,
}
use ws_fabric.Prelude.Assoc.{lookup, lookup-insert_ne, lookup-remove_ne}
use ws_fabric.Error.{ok}
use ws_fabric.Message.{Message, MessageType, Frame}
use ws_fabric.Fragmentation.{opcode_close, opcode_ping, whole_opcode}
use ws_fabric.Fragmentation.Reassembler.{
  PartialMessage, Reassembler, cleanup_expired, continue_message, start_message, ingest_data,
  ingest_frame, is_control_frame, frame_to_message,
}

module _ (id j : ℕ) (other : (id == j) ≡ false) (now : ℕ) (r : Reassembler) where
  lookup-cleanup_expired_ne : lookup j (cleanup_expired now r id).incomplete ≡ lookup j r.incomplete
  unfolding cleanup_expired
  lookup-cleanup_expired_ne = ground (arith, lookup-remove_ne id j r.incomplete)

  module _ (f : Frame) where
    lookup-continue_ne :
        (o : Option PartialMessage)
        → lookup j (continue_message r f id o).1.incomplete ≡ lookup j r.incomplete
    unfolding continue_message
    lookup-continue_ne none = refl
    lookup-continue_ne (some p) = elim (Bool-cases f.fin) [
      | inl fin ↦ rw fin (lookup-remove_ne id j r.incomplete other)
      | inr more ↦ rw more (lookup-insert_ne id j _ r.incomplete other)
    ]

    lookup-start_ne :
        (o : Option PartialMessage)
        → lookup j (start_message now r f id o).1.incomplete ≡ lookup j r.incomplete
    unfolding start_message
    lookup-start_ne none = elim (Bool-cases f.fin) [
      | inl fin ↦ rw fin
      | inr more ↦ rw more (lookup-insert_ne id j _ r.incomplete other)
    ]
    lookup-start_ne (some p) = refl

    lookup-ingest_data_ne : lookup j (ingest_data now r f id).1.incomplete ≡ lookup j r.incomplete
    unfolding ingest_data
    lookup-ingest_data_ne = ground (
      arith,
      lookup-continue_ne (lookup id r.incomplete),
      lookup-start_ne (lookup id r.incomplete),
    )

-- A frame for one connection leaves the partial message of every other connection as it was.
pub ingest_frame_isolated :
    (now : ℕ) (r : Reassembler) (f : Frame) (id j : ℕ)
    → id ≢ j
    → lookup j (ingest_frame now r f id).1.incomplete ≡ lookup j r.incomplete
unfolding ingest_frame
ingest_frame_isolated now r f id j h =
    let other : (id == j) ≡ false = ground arith in
    elim (Bool-cases (is_control_frame f.opcode)) [
      | inl control ↦ rw control
      | inr datum ↦ rw datum (
          lookup-ingest_data_ne id j other now (cleanup_expired now r id) f
          ∙ lookup-cleanup_expired_ne id j other now r)
    ]

-- The message of a control frame.
abbrev pub control_message : Frame → Message
control_message f = record {
  msg_type =
      if f.opcode == opcode_close
      then MessageType.close
      else if f.opcode == opcode_ping
      then MessageType.ping
      else MessageType.pong;
  payload = f.payload;
}

-- A control frame becomes a message of its own type at once, and changes nothing that is being
-- reassembled, also for the connection that it came on.
pub ingest_frame_control :
    (now : ℕ) (r : Reassembler) (f : Frame) (id : ℕ)
    → is_control_frame f.opcode ≡ true
    → (ingest_frame now r f id ≡ (ok (some (control_message f)), r))
      × (whole_opcode (control_message f).msg_type ≡ f.opcode)
unfolding ingest_frame is_control_frame frame_to_message
ingest_frame_control now r f id h = (rw h (ground arith), ground arith)

-- ===== src/Fragmentation/Reassembler/Local.antt =====
-- src/fragmentation.rs, `Reassembler::ingest_frame`: the part of it that concerns one
-- connection, as a function of the message that is in progress for it.
use ws_fabric.Prelude.{
  ℕ, ◌≡◌, ◌∙◌, refl, ap, true, false, ◌||◌, Option, none, some, arith, ◌==◌, nat_eq, inl, inr,
  Bool-cases, if◌then◌else◌,
}
use ws_fabric.Prelude.Assoc.{lookup, lookup-insert_self, lookup-remove_self}
use ws_fabric.Error.{Error, Result, ok, err}
use ws_fabric.Message.{Message, Frame}
use ws_fabric.Fragmentation.{opcode_continuation, opcode_text, opcode_binary}
use ws_fabric.Fragmentation.Reassembler.{
  PartialMessage, Reassembler, new_partial, add_fragment, assembled_type, assemble, is_expired,
  unexpired, drop_expired, cleanup_expired, continue_message, start_message, ingest_data,
  ingest_frame, is_control_frame, frame_to_message,
}
use ws_fabric.Fragmentation.Reassembler.RoundTrip.{ingest_frame-data}

-- The answer, and what is in progress after it.
abbrev pub Reaction : Type 0
Reaction = Result (Option Message) × Option PartialMessage

-- A continuation needs a message in progress, and ends it if it is final.
abbrev pub continues : Frame → Option PartialMessage → Reaction
continues f none = (err Error.protocol_violation, none)
continues f (some p) =
    let grown = add_fragment p f.payload in
    if f.fin then (ok (some (assemble grown)), none) else (ok none, some grown)

-- A text or binary frame needs none in progress, and is a message or begins one.
abbrev pub starts : ℕ → Frame → Option PartialMessage → Reaction
starts now f (some p) = (err Error.protocol_violation, some p)
starts now f none =
    if f.fin
    then (ok (some (record { msg_type = assembled_type f.opcode; payload = f.payload })), none)
    else (ok none, some (new_partial now f.opcode f.payload))

abbrev pub react : ℕ → Frame → Option PartialMessage → Reaction
react now f o =
    if f.opcode == opcode_continuation
    then continues f o
    else if f.opcode == opcode_text || f.opcode == opcode_binary
    then starts now f o
    else (err Error.invalid_frame, o)

-- What a connection sees.
abbrev pub observe : ℕ → Result (Option Message) × Reassembler → Reaction
observe id x = (x.0, lookup id x.1.incomplete)

module _ (now : ℕ) (r : Reassembler) (f : Frame) (id : ℕ) where
  continue_message-continues :
      (o : Option PartialMessage)
      → lookup id r.incomplete ≡ o
      → observe id (continue_message r f id o) ≡ continues f o
  unfolding continue_message
  continue_message-continues none h = rw h refl
  continue_message-continues (some p) h = elim (Bool-cases f.fin) [
    | inl e ↦ rw (e, lookup-remove_self id r.incomplete) refl
    | inr e ↦ rw (e, lookup-insert_self id (add_fragment p f.payload) r.incomplete) refl
  ]

  whole_message :
      (f.opcode == opcode_text || f.opcode == opcode_binary) ≡ true
      → frame_to_message f ≡ ok (record { msg_type = assembled_type f.opcode; payload = f.payload })
  unfolding frame_to_message
  whole_message h = ground arith

  start_message-starts :
      (o : Option PartialMessage)
      → (f.opcode == opcode_text || f.opcode == opcode_binary) ≡ true
      → lookup id r.incomplete ≡ o
      → observe id (start_message now r f id o) ≡ starts now f o
  unfolding start_message
  start_message-starts (some p) k h = rw h refl
  start_message-starts none k h = elim (Bool-cases f.fin) [
    | inl e ↦ rw (whole_message k, e, h) refl
    | inr e ↦ rw (e, lookup-insert_self id (new_partial now f.opcode f.payload) r.incomplete) refl
  ]

  ingest_data-react :
      (o : Option PartialMessage)
      → lookup id r.incomplete ≡ o
      → observe id (ingest_data now r f id) ≡ react now f o
  unfolding ingest_data
  ingest_data-react o h = elim (Bool-cases (f.opcode == opcode_continuation)) [
    | inl c ↦ rw (c, h) (continue_message-continues o h)
    | inr c ↦ elim (Bool-cases (f.opcode == opcode_text || f.opcode == opcode_binary)) [
      | inl k ↦ rw (c, k, h) (start_message-starts o k h)
      | inr k ↦ rw (c, k, h) refl
    ]
  ]

drop_expired-unexpired :
    (now : ℕ) (r : Reassembler) (id : ℕ) (o : Option PartialMessage)
    → lookup id r.incomplete ≡ o
    → lookup id (drop_expired now r id o).incomplete ≡ unexpired now r o
unfolding drop_expired
drop_expired-unexpired now r id none h = h
drop_expired-unexpired now r id (some p) h = elim (Bool-cases (is_expired now r.timeout p)) [
  | inl e ↦ rw e (lookup-remove_self id r.incomplete)
  | inr e ↦ rw e h
]

-- What a data frame does to its connection depends on the message in progress for it alone.
pub ingest_frame-react :
    (now : ℕ) (r : Reassembler) (f : Frame) (id : ℕ)
    → is_control_frame f.opcode ≡ false
    → observe id (ingest_frame now r f id) ≡ react now f (unexpired now r (lookup id r.incomplete))
unfolding cleanup_expired
ingest_frame-react now r f id datum =
    ap (observe id) (ingest_frame-data now r f id datum)
    ∙ ingest_data-react now (cleanup_expired now r id) f id
        (unexpired now r (lookup id r.incomplete))
        (drop_expired-unexpired now r id (lookup id r.incomplete) refl)

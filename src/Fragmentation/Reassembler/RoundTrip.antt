-- ===== src/Fragmentation/Reassembler/RoundTrip.antt =====
-- What `split_message` sends, `ingest_frame` puts together again.
use ws_fabric.Prelude.{
  ℕ, zero, suc, ◌+◌, ◌-◌, ◌≤◌, ◌<◌, ◌≡◌, ◌⊎◌, ◌∙◌, refl, ap, subst, true, false, List, [], ◌∷◌,
  ◌++◌, Option, none, some, arith, nat_eq, inl, inr, map, length, concat, All, append_assoc,
  append-nil, concat-append, le→ltb,
}
use ws_fabric.Prelude.Assoc.{lookup, insert, remove, lookup-insert_self, lookup-remove_self}
use ws_fabric.Error.{Result, ok}
use ws_fabric.Message.{Bytes, Message, MessageType, Frame}
use ws_fabric.Fragmentation.{
  opcode_continuation, opcode_text, opcode_binary, Fragmenter, new as new_fragmenter, split_message,
  first_opcode,
}
use ws_fabric.Fragmentation.Frames.{
  IsContinued, IsFragmented, payloads, split_message_lossless, split_message-IsFragmented,
}
use ws_fabric.Fragmentation.Reassembler.{
  PartialMessage, Reassembler, is_expired, cleanup_expired, add_fragment, continue_message,
  start_message, ingest_data, ingest_frame, is_control_frame, assembled_type, assemble, new_partial,
}

-- Frames of one connection with the times at which they come.
abbrev pub Schedule : Type 0
Schedule = List (ℕ × Frame)

abbrev pub frames : Schedule → List Frame
frames = map (λ e. e.1)

unfoldable pub ingest_all :
    Reassembler → ℕ → Schedule → List (Result (Option Message)) × Reassembler
ingest_all r id [] = ([], r)
ingest_all r id ((now, f) ∷ s) =
    let (answer, r') = ingest_frame now r f id in
    let (answers, r'') = ingest_all r' id s in (answer ∷ answers, r'')

-- `n` answers that ask for more, then the message.
abbrev pub message_after : ℕ → Message → List (Result (Option Message))
message_after zero m = ok (some m) ∷ []
message_after (suc n) m = ok none ∷ message_after n m

-- No frame comes later than the timeout after the start.
abbrev pub InTime : ℕ → ℕ → Schedule → Type 0
InTime start timeout = All (λ e. e.0 ≤ start + timeout)

pub ingest_frame-data :
    (now : ℕ) (r : Reassembler) (f : Frame) (id : ℕ)
    → is_control_frame f.opcode ≡ false
    → ingest_frame now r f id ≡ ingest_data now (cleanup_expired now r id) f id
unfolding ingest_frame
ingest_frame-data now r f id h = rw h

cleanup_expired-none :
    (now : ℕ) (r : Reassembler) (id : ℕ)
    → lookup id r.incomplete ≡ none
    → cleanup_expired now r id ≡ r
unfolding cleanup_expired
cleanup_expired-none now r id free = rw (free, cleanup_expired)

pub cleanup_expired-fresh :
    (now : ℕ) (r : Reassembler) (id : ℕ) (p : PartialMessage)
    → lookup id r.incomplete ≡ some p
    → now ≤ p.received_at + r.timeout
    → cleanup_expired now r id ≡ r
unfolding cleanup_expired is_expired
cleanup_expired-fresh now r id p found fresh =
    rw (found, cleanup_expired) (rw (le→ltb r.timeout (now - p.received_at) (omega arith)))

continuation_is_data :
    (f : Frame) → f.opcode ≡ opcode_continuation → is_control_frame f.opcode ≡ false
unfolding is_control_frame
continuation_is_data f e = ground arith

pub ingest_continuation :
    (id now : ℕ) (r : Reassembler) (f : Frame) (p : PartialMessage)
    → lookup id r.incomplete ≡ some p
    → now ≤ p.received_at + r.timeout
    → f.opcode ≡ opcode_continuation
    → ingest_frame now r f id ≡ continue_message r f id (some p)
unfolding ingest_data
ingest_continuation id now r f p found fresh op =
    ingest_frame-data now r f id (continuation_is_data f op)
    ∙ rw (cleanup_expired-fresh now r id p found fresh, found) (ground arith)

pub ingest_first :
    (id now : ℕ) (r : Reassembler) (f : Frame)
    → lookup id r.incomplete ≡ none
    → (f.opcode ≡ opcode_text) ⊎ (f.opcode ≡ opcode_binary)
    → ingest_frame now r f id ≡ start_message now r f id none
unfolding ingest_data
ingest_first id now r f free op =
    ingest_frame-data now r f id (unfold is_control_frame in ground arith)
    ∙ rw (cleanup_expired-none now r id free, free) (ground arith)

-- The message that a partial message becomes with some more frames.
abbrev completed : PartialMessage → List Frame → Message
completed p fs = record {
  msg_type = assembled_type p.opcode;
  payload = concat p.fragments ++ payloads fs;
}

completed-add_fragment :
    (p : PartialMessage) (f : Frame) (fs : List Frame)
    → completed (add_fragment p f.payload) fs ≡ completed p (f ∷ fs)
unfolding add_fragment
completed-add_fragment p f fs =
    rw (concat-append p.fragments (f.payload ∷ []), append-nil, append_assoc)

assemble-completed :
    (p : PartialMessage) (f : Frame) → assemble (add_fragment p f.payload) ≡ completed p (f ∷ [])
unfolding add_fragment assemble
assemble-completed p f = rw (concat-append p.fragments (f.payload ∷ []))

continue_message-last :
    (r : Reassembler) (f : Frame) (id : ℕ) (p : PartialMessage)
    → f.fin ≡ true
    → continue_message r f id (some p)
      ≡ (ok (some (completed p (f ∷ []))), record r { incomplete = remove id r.incomplete })
unfolding continue_message
continue_message-last r f id p fin = simp (fin, assemble-completed p f)

continue_message-more :
    (r : Reassembler) (f : Frame) (id : ℕ) (p : PartialMessage)
    → f.fin ≡ false
    → continue_message r f id (some p)
      ≡ (ok none, record r { incomplete = insert id (add_fragment p f.payload) r.incomplete })
unfolding continue_message
continue_message-more r f id p more = simp more

received_at-add_fragment :
    (p : PartialMessage) (b : Bytes) → (add_fragment p b).received_at ≡ p.received_at
unfolding add_fragment
received_at-add_fragment p b = refl

-- A partial message and the frames that continue it give the message, and leave no trace.
ingest_all-continued :
    (id start : ℕ) (r : Reassembler) (p : PartialMessage) (now : ℕ) (f : Frame) (s : Schedule)
    → lookup id r.incomplete ≡ some p
    → p.received_at ≡ start
    → InTime start r.timeout ((now, f) ∷ s)
    → IsContinued (f ∷ frames s)
    → ((ingest_all r id ((now, f) ∷ s)).0 ≡ message_after (length s) (completed p (f ∷ frames s)))
      × (lookup id (ingest_all r id ((now, f) ∷ s)).1.incomplete ≡ none)
unfolding ingest_all
ingest_all-continued id start r p now f [] found e t (op, fin) =
    rw (ingest_continuation id now r f p found (rw e t.0) op ∙ continue_message-last r f id p fin)
      (refl, lookup-remove_self id r.incomplete)
ingest_all-continued id start r p now f ((next, g) ∷ s) found e t (op, more, c) =
    let p' : PartialMessage = add_fragment p f.payload in
    let r' : Reassembler = record r { incomplete = insert id p' r.incomplete } in
    let (answers, freed) =
      ingest_all-continued id start r' p' next g s (lookup-insert_self id p' r.incomplete)
        (received_at-add_fragment p f.payload ∙ e) t.1 c in
    rw (ingest_continuation id now r f p found (rw e t.0) op ∙ continue_message-more r f id p more)
      (
        ap (◌∷◌ (ok none))
            (answers ∙ ap (message_after (length s)) (completed-add_fragment p f (g ∷ frames s))),
        freed,
      )

start_message-more :
    (now : ℕ) (r : Reassembler) (f : Frame) (id : ℕ)
    → f.fin ≡ false
    → start_message now r f id none ≡ (
      ok none,
      record r { incomplete = insert id (new_partial now f.opcode f.payload) r.incomplete },
    )
unfolding start_message
start_message-more now r f id more = simp more

completed-new_partial :
    (now : ℕ) (f : Frame) (fs : List Frame)
    → completed (new_partial now f.opcode f.payload) fs
      ≡ record { msg_type = assembled_type f.opcode; payload = payloads (f ∷ fs) }
unfolding new_partial
completed-new_partial now f fs = rw append-nil

-- A fragmented message that comes in time, on a connection with nothing under way, gives one
-- message after its last frame, of the first frame's type and with all payloads in order.
pub ingest_all-fragmented :
    (id op : ℕ) (r : Reassembler) (now : ℕ) (f : Frame) (s : Schedule)
    → lookup id r.incomplete ≡ none
    → (op ≡ opcode_text) ⊎ (op ≡ opcode_binary)
    → InTime now r.timeout s
    → IsFragmented op (f ∷ frames s)
    → ((ingest_all r id ((now, f) ∷ s)).0
        ≡ message_after
            (length s)
            (record { msg_type = assembled_type op; payload = payloads (f ∷ frames s) }))
      × (lookup id (ingest_all r id ((now, f) ∷ s)).1.incomplete ≡ none)
unfolding ingest_all
ingest_all-fragmented id op r now f [] free o t (e, more, c) = absurd c
ingest_all-fragmented id op r now f ((next, g) ∷ s) free o t (e, more, c) =
    let p : PartialMessage = new_partial now f.opcode f.payload in
    let r' : Reassembler = record r { incomplete = insert id p r.incomplete } in
    let (answers, freed) =
      ingest_all-continued id now r' p next g s (lookup-insert_self id p r.incomplete)
        (unfold new_partial in refl) t c in
    rw (ingest_first id now r f free (rw e o) ∙ start_message-more now r f id more) (
      ap (◌∷◌ (ok none)) (
          answers
          ∙ ap (message_after (length s)) (rw (← e) (completed-new_partial now f (g ∷ frames s)))),
      freed,
    )

first_opcode-cases :
    (ty : MessageType) → (first_opcode ty ≡ opcode_text) ⊎ (first_opcode ty ≡ opcode_binary)
first_opcode-cases MessageType.text = inl refl
first_opcode-cases _ = inr refl

assembled_type-first_opcode :
    (ty : MessageType)
    → (ty ≡ MessageType.text) ⊎ (ty ≡ MessageType.binary)
    → assembled_type (first_opcode ty) ≡ ty
assembled_type-first_opcode ty (inl e) = rw e
assembled_type-first_opcode ty (inr e) = rw e

-- A text or binary message longer than a frame is split, and reassembled to the same message with
-- its last frame, on a connection with nothing under way and whatever others have, if its frames
-- come in order and within the timeout of the first.
pub ingest_all-split_message :
    (n : ℕ) (f : Fragmenter) (m : Message) (id : ℕ) (r : Reassembler) (start : ℕ) (first : Frame)
    (s : Schedule)
    → new_fragmenter n ≡ some f
    → (m.msg_type ≡ MessageType.text) ⊎ (m.msg_type ≡ MessageType.binary)
    → f.max_frame_size < length m.payload
    → lookup id r.incomplete ≡ none
    → split_message f m ≡ first ∷ frames s
    → InTime start r.timeout s
    → ((ingest_all r id ((start, first) ∷ s)).0 ≡ message_after (length s) m)
      × (lookup id (ingest_all r id ((start, first) ∷ s)).1.incomplete ≡ none)
ingest_all-split_message n f m id r start first s made type large free sent t =
    let parts : IsFragmented (first_opcode m.msg_type) (first ∷ frames s) =
      subst (IsFragmented (first_opcode m.msg_type)) sent
        (split_message-IsFragmented n f m made large) in
    let same : record {
      msg_type = assembled_type (first_opcode m.msg_type);
      payload = payloads (first ∷ frames s);
    }
        ≡ m =
      cc (
        assembled_type-first_opcode m.msg_type type,
        ap payloads sent,
        (split_message_lossless n f m made).0,
      ) in
    let (answers, freed) =
      ingest_all-fragmented id (first_opcode m.msg_type) r start first s free
        (first_opcode-cases m.msg_type) t parts in
    (answers ∙ ap (message_after (length s)) same, freed)

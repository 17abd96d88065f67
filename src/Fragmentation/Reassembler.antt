-- ===== src/Fragmentation/Reassembler.antt =====
-- src/fragmentation.rs, `PartialMessage` and `Reassembler`. Time is an argument, in nanoseconds:
-- one reading serves a call of `ingest_frame`.
pub mod Invariant
pub mod Isolation
pub mod Interleaving
pub mod RoundTrip
pub mod Local
pub mod Refinement
mod Tests
use ws_fabric.Prelude.{
  ℕ, ◌+◌, ◌-◌, ◌*◌, ◌^◌, Bool, true, false, ◌||◌, List, [], ◌∷◌, ◌++◌, Option, none, some, length,
  concat, ltb, ◌==◌, not, retain, add64, if◌then◌else◌, nat_eq,
}
use ws_fabric.Prelude.Assoc.{lookup, insert, remove}
use ws_fabric.Error.{Error, Result, ok, err, ◌>>=◌}
use ws_fabric.Message.{Bytes, Message, MessageType, Frame}
use ws_fabric.Fragmentation.{
  opcode_continuation, opcode_text, opcode_binary, opcode_close, opcode_ping, opcode_pong,
}

abbrev pub default_reassembly_timeout : ℕ
default_reassembly_timeout = 5 * 10 ^ 9

pub record PartialMessage : Type 0 where
  pub opcode : ℕ
  pub fragments : List Bytes
  pub received_at : ℕ
  pub total_size : ℕ

pub new_partial : ℕ → ℕ → Bytes → PartialMessage
new_partial now opcode first = record {
  opcode = opcode;
  fragments = first ∷ [];
  received_at = now;
  total_size = length first;
}

pub add_fragment : PartialMessage → Bytes → PartialMessage
add_fragment p fragment = record p {
  total_size = add64 p.total_size (length fragment);
  fragments = p.fragments ++ fragment ∷ [];
}

-- `elapsed` is zero where the clock went back.
pub is_expired : ℕ → ℕ → PartialMessage → Bool
is_expired now timeout p = ltb timeout (now - p.received_at)

abbrev pub assembled_type : ℕ → MessageType
assembled_type op = if op == opcode_text then MessageType.text else MessageType.binary

pub assemble : PartialMessage → Message
assemble p = record { msg_type = assembled_type p.opcode; payload = concat p.fragments }

pub record Reassembler : Type 0 where
  pub incomplete : List (ℕ × PartialMessage)
  pub timeout : ℕ

unfoldable pub new : ℕ → Reassembler
new timeout = record { incomplete = []; timeout = timeout }

pub is_control_frame : ℕ → Bool
is_control_frame op = op == opcode_close || (op == opcode_ping || op == opcode_pong)

pub frame_to_message : Frame → Result Message
frame_to_message f =
    if f.opcode == opcode_text
    then ok (message MessageType.text)
    else if f.opcode == opcode_binary
    then ok (message MessageType.binary)
    else if f.opcode == opcode_close
    then ok (message MessageType.close)
    else if f.opcode == opcode_ping
    then ok (message MessageType.ping)
    else if f.opcode == opcode_pong
    then ok (message MessageType.pong)
    else err Error.invalid_frame
  where
    message : MessageType → Message
    message ty = record { msg_type = ty; payload = f.payload }

-- The partial message of a connection, if it has not expired.
abbrev pub unexpired : ℕ → Reassembler → Option PartialMessage → Option PartialMessage
unexpired now r none = none
unexpired now r (some p) = if is_expired now r.timeout p then none else some p

drop_expired : ℕ → Reassembler → ℕ → Option PartialMessage → Reassembler
drop_expired now r id none = r
drop_expired now r id (some p) =
    if is_expired now r.timeout p then record r { incomplete = remove id r.incomplete } else r

pub cleanup_expired : ℕ → Reassembler → ℕ → Reassembler
unfolding drop_expired
cleanup_expired now r id = drop_expired now r id (lookup id r.incomplete)

-- The branch of a continuation frame, at what the table holds for the connection.
pub continue_message :
    Reassembler → Frame → ℕ → Option PartialMessage → Result (Option Message) × Reassembler
continue_message r f id none = (err Error.protocol_violation, r)
continue_message r f id (some p) =
    let p' = add_fragment p f.payload in
    if f.fin
    then (ok (some (assemble p')), record r { incomplete = remove id r.incomplete })
    else (ok none, record r { incomplete = insert id p' r.incomplete })

-- The branch of a text or binary frame.
pub start_message :
    ℕ → Reassembler → Frame → ℕ → Option PartialMessage → Result (Option Message) × Reassembler
start_message now r f id (some p) = (err Error.protocol_violation, r)
start_message now r f id none = if f.fin then ((do m ← frame_to_message f; ok (some m)), r) else (
  ok none,
  record r { incomplete = insert id (new_partial now f.opcode f.payload) r.incomplete },
)

pub ingest_data : ℕ → Reassembler → Frame → ℕ → Result (Option Message) × Reassembler
ingest_data now r f id =
    if f.opcode == opcode_continuation
    then continue_message r f id (lookup id r.incomplete)
    else if f.opcode == opcode_text || f.opcode == opcode_binary
    then start_message now r f id (lookup id r.incomplete)
    else (err Error.invalid_frame, r)

pub ingest_frame : ℕ → Reassembler → Frame → ℕ → Result (Option Message) × Reassembler
ingest_frame now r f id =
    if is_control_frame f.opcode
    then ((do m ← frame_to_message f; ok (some m)), r)
    else ingest_data now (cleanup_expired now r id) f id

abbrev present {ℓ} : {A : Type ℓ} → Option A → Bool
present none = false
present (some a) = true

unfoldable pub abort : Reassembler → ℕ → Bool × Reassembler
abort r id = (present (lookup id r.incomplete), record r { incomplete = remove id r.incomplete })

unfoldable pub in_progress_count : Reassembler → ℕ
in_progress_count r = length r.incomplete

sum_sizes : List (ℕ × PartialMessage) → ℕ
sum_sizes [] = 0
sum_sizes ((id, p) ∷ m) = add64 p.total_size (sum_sizes m)

unfoldable pub in_progress_size : Reassembler → ℕ
unfolding sum_sizes
in_progress_size r = sum_sizes r.incomplete

pub cleanup_all_expired : ℕ → Reassembler → Reassembler
cleanup_all_expired now r = record r {
  incomplete = retain (λ e. not (is_expired now r.timeout e.1)) r.incomplete;
}

-- `Default for Reassembler`
unfoldable pub default : Reassembler
unfolding new
default = new default_reassembly_timeout

abbrev pub timeout : Reassembler → ℕ
timeout r = r.timeout

abbrev pub total_size : PartialMessage → ℕ
total_size p = p.total_size

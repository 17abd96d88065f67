-- ===== src/Fragmentation/Reassembler/Invariant.antt =====
-- What the table of partial messages satisfies after any calls.
use ws_fabric.Prelude.{
  ℕ, ◌+◌, ◌%◌, ◌^◌, ◌<◌, ◌≡◌, ◌⊎◌, refl, ◌||◌, List, [], ◌∷◌, Option, none, some, arith, ◌==◌,
  nat_eq, inl, inr, length, concat, All, Bool-cases, Option-cases, concat-append, append-nil,
  length-append, All-retain,
}
use ws_fabric.Prelude.Assoc.{lookup, All-insert, All-remove, All-lookup}
use ws_fabric.Message.{Bytes, Frame}
use ws_fabric.Fragmentation.{opcode_continuation, opcode_text, opcode_binary}
use ws_fabric.Fragmentation.Reassembler.{
  PartialMessage, Reassembler, new, new_partial, add_fragment, is_expired, is_control_frame,
  cleanup_expired, continue_message, start_message, ingest_data, ingest_frame, abort,
  cleanup_all_expired, in_progress_size, sum_sizes,
}

-- The size kept is the number of bytes held (in 64 bits), and the opcode is text or binary.
pub record IsSound (p : PartialMessage) : Type 0 where
  pub size : p.total_size ≡ length (concat p.fragments) % 2 ^ 64
  pub opcode : (p.opcode ≡ opcode_text) ⊎ (p.opcode ≡ opcode_binary)

abbrev pub IsValid : Reassembler → Type 0
IsValid r = All (λ e. IsSound e.1) r.incomplete

new_partial-IsSound :
    (now op : ℕ) (b : Bytes)
    → (op ≡ opcode_text) ⊎ (op ≡ opcode_binary)
    → length b < 2 ^ 64
    → IsSound (new_partial now op b)
unfolding new_partial
new_partial-IsSound now op b o h = record { size = rw append-nil (omega arith); opcode = o }

add_fragment-IsSound : (p : PartialMessage) (b : Bytes) → IsSound p → IsSound (add_fragment p b)
unfolding add_fragment
add_fragment-IsSound p b v = record {
  size =
      rw (concat-append p.fragments (b ∷ []), append-nil)
        (omega (arith, v.size, length-append (concat p.fragments) b));
  opcode = v.opcode;
}

module _ (id : ℕ) (now : ℕ) (r : Reassembler) (v : IsValid r) where
  cleanup_expired-IsValid : IsValid (cleanup_expired now r id)
  unfolding cleanup_expired
  cleanup_expired-IsValid = elim (Option-cases (lookup id r.incomplete)) [
    | inl e ↦ rw (e, cleanup_expired) v
    | inr (p, e) ↦ elim (Bool-cases (is_expired now r.timeout p)) [
      | inl old ↦ rw (e, cleanup_expired) (rw old (All-remove _ id r.incomplete v))
      | inr young ↦ rw (e, cleanup_expired) (rw young v)
    ]
  ]

  continue_message-IsValid :
      (f : Frame) (o : Option PartialMessage)
      → lookup id r.incomplete ≡ o
      → IsValid (continue_message r f id o).1
  unfolding continue_message
  continue_message-IsValid f none e = v
  continue_message-IsValid f (some p) e = elim (Bool-cases f.fin) [
    | inl fin ↦ rw fin (All-remove _ id r.incomplete v)
    | inr more ↦
        let sound : IsSound p = All-lookup IsSound id p r.incomplete v e in
        rw more (All-insert _ id _ r.incomplete (add_fragment-IsSound p f.payload sound) v)
  ]

  start_message-IsValid :
      (f : Frame) (o : Option PartialMessage)
      → (f.opcode ≡ opcode_text) ⊎ (f.opcode ≡ opcode_binary)
      → length f.payload < 2 ^ 64
      → IsValid (start_message now r f id o).1
  unfolding start_message
  start_message-IsValid f (some p) op h = v
  start_message-IsValid f none op h = elim (Bool-cases f.fin) [
    | inl fin ↦ rw fin v
    | inr more ↦
        rw more (All-insert _ id _ r.incomplete (new_partial-IsSound now f.opcode f.payload op h) v)
  ]

  ingest_data-IsValid : (f : Frame) → length f.payload < 2 ^ 64 → IsValid (ingest_data now r f id).1
  unfolding ingest_data
  ingest_data-IsValid f h = elim (Bool-cases (f.opcode == opcode_continuation)) [
    | inl cont ↦ rw cont (continue_message-IsValid f (lookup id r.incomplete) refl)
    | inr other ↦ elim (Bool-cases (f.opcode == opcode_text || f.opcode == opcode_binary)) [
      | inl op ↦ rw (other, op) (start_message-IsValid f (lookup id r.incomplete) (ground arith) h)
      | inr bad ↦ rw (other, bad) v
    ]
  ]

ingest_frame-IsValid :
    (now : ℕ) (r : Reassembler) (f : Frame) (id : ℕ)
    → length f.payload < 2 ^ 64
    → IsValid r
    → IsValid (ingest_frame now r f id).1
unfolding ingest_frame
ingest_frame-IsValid now r f id h v = elim (Bool-cases (is_control_frame f.opcode)) [
  | inl control ↦ rw control v
  | inr datum ↦ rw datum (
      ingest_data-IsValid id now (cleanup_expired now r id) (cleanup_expired-IsValid id now r v) f
        h)
]

-- The calls that change a reassembler.
pub data Call : Type 0 where
  ingests : ℕ → Frame → ℕ → Call
  aborts : ℕ → Call
  cleans : ℕ → Call

abbrev pub IsSized : Call → Type 0
IsSized (ingests now f id) = length f.payload < 2 ^ 64
IsSized _ = Unit

pub step : Reassembler → Call → Reassembler
step r (ingests now f id) = (ingest_frame now r f id).1
step r (aborts id) = (abort r id).1
step r (cleans now) = cleanup_all_expired now r

pub run : Reassembler → List Call → Reassembler
run r [] = r
run r (c ∷ cs) = run (step r c) cs

step-IsValid : (r : Reassembler) (c : Call) → IsSized c → IsValid r → IsValid (step r c)
unfolding step abort cleanup_all_expired
step-IsValid r (ingests now f id) h v = ingest_frame-IsValid now r f id h v
step-IsValid r (aborts id) h v = All-remove _ id r.incomplete v
step-IsValid r (cleans now) h v = All-retain _ _ r.incomplete v

run-IsValid : (r : Reassembler) (cs : List Call) → All IsSized cs → IsValid r → IsValid (run r cs)
unfolding run
run-IsValid r [] h v = v
run-IsValid r (c ∷ cs) h v = run-IsValid (step r c) cs h.1 (step-IsValid r c h.0 v)

-- All bytes that the table holds.
pub held : List (ℕ × PartialMessage) → ℕ
held [] = 0
held ((id, p) ∷ m) = length (concat p.fragments) + held m

sum_sizes-held :
    (m : List (ℕ × PartialMessage)) → All (λ e. IsSound e.1) m → sum_sizes m ≡ held m % 2 ^ 64
unfolding sum_sizes held
sum_sizes-held [] v = refl
sum_sizes-held ((id, p) ∷ m) v = omega (arith, v.0.size, sum_sizes-held m v.1)

-- After any calls on a new reassembler, with payloads shorter than 2 ^ 64 bytes, every partial
-- message is of a text or binary message and knows its size, and `in_progress_size` is the number
-- of bytes held, in 64 bits.
pub run_accounts :
    (timeout : ℕ) (cs : List Call)
    → All IsSized cs
    → IsValid (run (new timeout) cs)
      × (in_progress_size (run (new timeout) cs) ≡ held (run (new timeout) cs).incomplete % 2 ^ 64)
unfolding in_progress_size
run_accounts timeout cs h =
    let v : IsValid (run (new timeout) cs) = run-IsValid (new timeout) cs h (unfold new in tt) in
    (v, sum_sizes-held (run (new timeout) cs).incomplete v)

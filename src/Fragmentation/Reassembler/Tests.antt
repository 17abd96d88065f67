-- ===== src/Fragmentation/Reassembler/Tests.antt =====
-- src/fragmentation.rs: frames of two connections.
use ws_fabric.Prelude.{
  ℕ, ◌%◌, ◌^◌, ◌≡◌, refl, arith, inl, List, [], ◌∷◌, none, true, false, replicate, nat_eq,
}
use ws_fabric.Prelude.Assoc.{lookup, lookup-nil}
use ws_fabric.Message.{Frame}
use ws_fabric.Fragmentation.{frames_from, chunks, split_message}
use ws_fabric.Fragmentation.Tests.{long_message, small_frames, made}
use ws_fabric.Fragmentation.Reassembler.{Reassembler, new, in_progress_size}
use ws_fabric.Fragmentation.Reassembler.Interleaving.{
  Arrival, ingest_mixed, arrivals_of, answers_of, ingest_mixed-arrivals_of,
}
use ws_fabric.Fragmentation.Reassembler.Invariant.{
  Call, ingests, aborts, cleans, run, IsValid, held, run_accounts,
}
use ws_fabric.Fragmentation.Reassembler.RoundTrip.{
  ingest_all, message_after, ingest_all-split_message,
}

abbrev frame : List ℕ → ℕ → Frame
frame payload opcode = record {
  fin = false;
  rsv1 = false;
  rsv2 = false;
  rsv3 = false;
  opcode = opcode;
  payload = payload;
}

abbrev final_frame : List ℕ → ℕ → Frame
final_frame payload opcode = record (frame payload opcode) { fin = true }

abbrev second_part : ℕ × Frame
second_part = (2, frame (replicate 125 7) 0)

abbrev third_part : ℕ × Frame
third_part = (9, final_frame (replicate 50 7) 0)

abbrev fresh : Reassembler
fresh = record { incomplete = []; timeout = 10 }

free : (id : ℕ) → lookup id fresh.incomplete ≡ none
free id = lookup-nil id

sent :
    split_message small_frames long_message
    ≡ frame (replicate 125 7) 1 ∷ second_part.1 ∷ third_part.1 ∷ []
unfolding split_message frames_from chunks
sent = refl

ingest_all-split_message_example :
    ((ingest_all fresh 4 ((1, frame (replicate 125 7) 1) ∷ second_part ∷ third_part ∷ [])).0
      ≡ message_after 2 long_message)
    × (lookup 4
          (ingest_all fresh 4
            ((1, frame (replicate 125 7) 1) ∷ second_part ∷ third_part ∷ [])).1.incomplete
        ≡ none)
ingest_all-split_message_example =
    ingest_all-split_message 125 small_frames long_message 4 fresh 1 (frame (replicate 125 7) 1)
      (second_part ∷ third_part ∷ []) made (inl refl) (omega arith) (free 4) sent
      (omega arith, (omega arith, tt))

-- The first fragment of a message has come, and its last frame follows.
abbrev begun : Reassembler
begun = record {
  incomplete =
      (4, record { opcode = 1; fragments = (1 ∷ []) ∷ []; received_at = 1; total_size = 1 }) ∷ [];
  timeout = 10;
}

-- A message of one connection between the two frames of another's.
abbrev mixed : List Arrival
mixed =
    (1, 4, frame (1 ∷ []) 1) ∷ (2, 5, final_frame (9 ∷ []) 2) ∷ (3, 4, final_frame (2 ∷ []) 0) ∷ []

ingest_mixed-arrivals_of_example :
    (answers_of 4 (ingest_mixed fresh mixed).0 ≡ (ingest_all fresh 4 (arrivals_of 4 mixed)).0)
    × (lookup 4 (ingest_mixed fresh mixed).1.incomplete
        ≡ lookup 4 (ingest_all fresh 4 (arrivals_of 4 mixed)).1.incomplete)
ingest_mixed-arrivals_of_example = ingest_mixed-arrivals_of 4 mixed fresh

abbrev calls : List Call
calls =
    ingests 1 (frame (1 ∷ 2 ∷ []) 1) 4 ∷ ingests 2 (frame (3 ∷ []) 0) 4 ∷ aborts 5 ∷ cleans 3 ∷ []

run_accounts_example :
    IsValid (run (new 10) calls)
    × (in_progress_size (run (new 10) calls) ≡ held (run (new 10) calls).incomplete % 2 ^ 64)
run_accounts_example = run_accounts 10 calls (omega arith, (omega arith, (tt, (tt, tt))))

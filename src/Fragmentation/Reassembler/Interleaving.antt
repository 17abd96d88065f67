-- ===== src/Fragmentation/Reassembler/Interleaving.antt =====
-- src/fragmentation.rs, `Reassembler::ingest_frame`: the frames of several connections, one after
-- another in any order.
use ws_fabric.Prelude.{
  ℕ, ◌≡◌, ◌∙◌, refl, ap, sym, subst, true, false, List, [], ◌∷◌, Option, none, some, arith, ◌==◌,
  nat_eq, inl, inr, Bool-cases, if◌then◌else◌,
}
use ws_fabric.Prelude.Assoc.{lookup}
use ws_fabric.Error.{Result}
use ws_fabric.Message.{Message, Frame}
use ws_fabric.Fragmentation.Reassembler.{
  PartialMessage, Reassembler, is_expired, unexpired, drop_expired, cleanup_expired,
  continue_message, start_message, ingest_data, ingest_frame, is_control_frame,
}
use ws_fabric.Fragmentation.Reassembler.RoundTrip.{Schedule, ingest_all}
use ws_fabric.Fragmentation.Reassembler.Local.{observe, react, ingest_frame-react}
use ws_fabric.Fragmentation.Reassembler.Isolation.{ingest_frame_isolated, ingest_frame_control}

-- The time, the connection and its frame.
abbrev pub Arrival : Type 0
Arrival = ℕ × ℕ × Frame

-- The answers, each with its connection.
unfoldable pub ingest_mixed :
    Reassembler → List Arrival → List (ℕ × Result (Option Message)) × Reassembler
ingest_mixed r [] = ([], r)
ingest_mixed r ((now, id, f) ∷ s) =
    let (answer, r') = ingest_frame now r f id in
    let (answers, r'') = ingest_mixed r' s in ((id, answer) ∷ answers, r'')

-- The frames of one connection, and the answers that it gets.
unfoldable pub arrivals_of : ℕ → List Arrival → Schedule
arrivals_of j [] = []
arrivals_of j ((now, id, f) ∷ s) =
    let rest = arrivals_of j s in if id == j then (now, f) ∷ rest else rest

unfoldable pub answers_of : ℕ → List (ℕ × Result (Option Message)) → List (Result (Option Message))
answers_of j [] = []
answers_of j ((id, a) ∷ answers) =
    let rest = answers_of j answers in if id == j then a ∷ rest else rest

-- Two reassemblers that a connection cannot tell apart.
abbrev pub Agree : ℕ → Reassembler → Reassembler → Type 0
Agree j r r' = (lookup j r.incomplete ≡ lookup j r'.incomplete) × (r.timeout ≡ r'.timeout)

module _ (now : ℕ) (r : Reassembler) (f : Frame) (id : ℕ) where
  timeout-continue : (o : Option PartialMessage) → (continue_message r f id o).1.timeout ≡ r.timeout
  unfolding continue_message
  timeout-continue none = refl
  timeout-continue (some p) = ground arith

  timeout-start : (o : Option PartialMessage) → (start_message now r f id o).1.timeout ≡ r.timeout
  unfolding start_message
  timeout-start none = ground arith
  timeout-start (some p) = refl

  timeout-data : (ingest_data now r f id).1.timeout ≡ r.timeout
  unfolding ingest_data
  timeout-data =
      ground
        (arith, timeout-continue (lookup id r.incomplete), timeout-start (lookup id r.incomplete))

  timeout-drop : (o : Option PartialMessage) → (drop_expired now r id o).timeout ≡ r.timeout
  unfolding drop_expired
  timeout-drop none = refl
  timeout-drop (some p) = ground arith

timeout-ingest_frame :
    (now : ℕ) (r : Reassembler) (f : Frame) (id : ℕ)
    → (ingest_frame now r f id).1.timeout ≡ r.timeout
unfolding ingest_frame cleanup_expired
timeout-ingest_frame now r f id = ground (
  arith,
  timeout-data now (cleanup_expired now r id) f id,
  timeout-drop now r f id (lookup id r.incomplete),
)

unexpired_same :
    (now : ℕ) (r r' : Reassembler) (o : Option PartialMessage)
    → r.timeout ≡ r'.timeout
    → unexpired now r o ≡ unexpired now r' o
unexpired_same now r r' none h = refl
unexpired_same now r r' (some p) h = ap (λ t. if is_expired now t p then none else some p) h

-- A frame for a connection: the answer and what is in progress are the same in both.
own_frame :
    (now : ℕ) (r r' : Reassembler) (f : Frame) (j : ℕ)
    → Agree j r r'
    → ((ingest_frame now r f j).0 ≡ (ingest_frame now r' f j).0)
      × Agree j (ingest_frame now r f j).1 (ingest_frame now r' f j).1
own_frame now r r' f j h =
    let kept : (ingest_frame now r f j).1.timeout ≡ (ingest_frame now r' f j).1.timeout =
      timeout-ingest_frame now r f j ∙ h.1 ∙ sym (timeout-ingest_frame now r' f j) in
    elim (Bool-cases (is_control_frame f.opcode)) [
      | inl control ↦
          let e = (ingest_frame_control now r f j control).0 in
          let e' = (ingest_frame_control now r' f j control).0 in
          (
            ap (λ x. x.0) e ∙ sym (ap (λ x. x.0) e'),
            (
              ap (λ x. lookup j x.1.incomplete) e
                  ∙ h.0
                  ∙ sym (ap (λ x. lookup j x.1.incomplete) e'),
              kept,
            ),
          )
      | inr datum ↦
          let same : observe j (ingest_frame now r f j) ≡ observe j (ingest_frame now r' f j) =
            ingest_frame-react now r f j datum
            ∙ ap (react now f)
                (unexpired_same now r r' (lookup j r.incomplete) h.1 ∙ ap (unexpired now r') h.0)
            ∙ sym (ingest_frame-react now r' f j datum) in
          (ap (λ x. x.0) same, (ap (λ x. x.1) same, kept))
    ]

-- A frame for another connection leaves them alike.
other_frame :
    (now : ℕ) (r r' : Reassembler) (f : Frame) (id j : ℕ)
    → (id == j) ≡ false
    → Agree j r r'
    → Agree j (ingest_frame now r f id).1 r'
other_frame now r r' f id j other h = (
  ingest_frame_isolated now r f id j (λ e. ground (arith, other, e)) ∙ h.0,
  timeout-ingest_frame now r f id ∙ h.1,
)

-- The connection gets the same answers from both, and cannot tell them apart afterwards.
abbrev Alike : ℕ → List Arrival → Reassembler → Reassembler → Type 0
Alike j s r r' =
    (answers_of j (ingest_mixed r s).0 ≡ (ingest_all r' j (arrivals_of j s)).0)
    × Agree j (ingest_mixed r s).1 (ingest_all r' j (arrivals_of j s)).1

own_arrival :
    (now j : ℕ) (f : Frame) (s : List Arrival) (r r' : Reassembler)
    → Agree j r r'
    → Alike j s (ingest_frame now r f j).1 (ingest_frame now r' f j).1
    → Alike j ((now, j, f) ∷ s) r r'
unfolding ingest_mixed arrivals_of answers_of ingest_all
own_arrival now j f s r r' h later =
    let own : (j == j) ≡ true = ground arith in
    let first = (own_frame now r r' f j h).0 in
    rw own (
      ap (λ a. a ∷ answers_of j (ingest_mixed (ingest_frame now r f j).1 s).0) first
          ∙ ap (λ rest. (ingest_frame now r' f j).0 ∷ rest) later.0,
      later.1,
    )

mixed_from : (j : ℕ) (s : List Arrival) (r r' : Reassembler) → Agree j r r' → Alike j s r r'
unfolding ingest_mixed arrivals_of answers_of ingest_all
mixed_from j [] r r' h = (refl, h)
mixed_from j ((now, id, f) ∷ s) r r' h = elim (Bool-cases (id == j)) [
  | inl same ↦
      let equal : j ≡ id = ground (arith, same) in
      subst (λ i. Alike j ((now, i, f) ∷ s) r r') equal
        (own_arrival now j f s r r' h (
          mixed_from j s (ingest_frame now r f j).1 (ingest_frame now r' f j).1
            (own_frame now r r' f j h).1))
  | inr other ↦
      rw other (mixed_from j s (ingest_frame now r f id).1 r' (other_frame now r r' f id j other h))
]

-- In whatever order the frames of several connections come, errors, timeouts and control frames
-- included, each connection gets the answers that it gets if its frames come alone, and has then the
-- same message in progress.
pub ingest_mixed-arrivals_of :
    (j : ℕ) (s : List Arrival) (r : Reassembler)
    → (answers_of j (ingest_mixed r s).0 ≡ (ingest_all r j (arrivals_of j s)).0)
      × (lookup j (ingest_mixed r s).1.incomplete
          ≡ lookup j (ingest_all r j (arrivals_of j s)).1.incomplete)
ingest_mixed-arrivals_of j s r = let alike = mixed_from j s r r (refl, refl) in (alike.0, alike.1.0)

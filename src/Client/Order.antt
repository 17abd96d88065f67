-- ===== src/Client/Order.antt =====
-- src/client.rs: the order in which messages reach the socket.
use ws_fabric.Prelude.{
  ◌<◌, ℕ, ◌≡◌, refl, sym, ap, ◌∙◌, Bool, true, false, List, [], ◌∷◌, ◌++◌, map, append_assoc,
  append-nil, Option, none, some, inl, inr, Bool-cases,
}
use mathlib.Core.List.{map-append}
use ws_fabric.Error.{Error, Result, ok, err}
use ws_fabric.Float.{F64}
use ws_fabric.Channel.{Sending, Mpsc}
use ws_fabric.Message.{Message}
use ws_fabric.Socket.{WireMessage, Incoming, Written, forwards, is_running, to_wire}
use ws_fabric.Config.{ClientConfig}
use ws_fabric.Client.{
  Connection, new, send_on, sent, outgoing_on, outgoing_from, forward_as, incoming, finish,
}
use ws_fabric.Client.Steps.{Step, Trace, start, step, sends_as, run}

forwards-append : (xs ys : List Written) → forwards (xs ++ ys) ≡ forwards xs ++ forwards ys
unfolding forwards
forwards-append [] ys = refl
forwards-append (Written.forwarded w ∷ xs) ys = ap (◌∷◌ w) (forwards-append xs ys)
forwards-append (Written.answered w ∷ xs) ys = forwards-append xs ys

-- What a list of written messages and a list of messages make in the order of the channel.
abbrev pub in_order : List Written → List Message → List (Result WireMessage)
in_order written rest = map ok (forwards written) ++ map to_wire rest

in_order-append :
    (written : List Written) (rest : List Message) (m : Message)
    → in_order written (rest ++ (m ∷ [])) ≡ in_order written rest ++ (to_wire m ∷ [])
in_order-append written rest m =
    rw (map-append to_wire rest (m ∷ []))
      (sym (append_assoc (map ok (forwards written)) (map to_wire rest) (to_wire m ∷ [])))

pub in_order-forwarded :
    (written : List Written) (w : WireMessage) (m : Message) (rest : List Message)
    → to_wire m ≡ ok w
    → in_order (written ++ (Written.forwarded w ∷ [])) rest ≡ in_order written (m ∷ rest)
unfolding forwards
in_order-forwarded written w m rest e =
    rw
      (
        forwards-append written (Written.forwarded w ∷ []),
        map-append {B = Result WireMessage} ok (forwards written) (w ∷ []),
        append_assoc (map ok (forwards written)) (ok w ∷ []) (map to_wire rest),
        e,
      )
      refl

in_order-answered :
    (written : List Written) (w : WireMessage) (rest : List Message)
    → in_order (written ++ (Written.answered w ∷ [])) rest ≡ in_order written rest
unfolding forwards
in_order-answered written w rest =
    rw (forwards-append written (Written.answered w ∷ []), append-nil (forwards written)) refl

module _ (f : F64) (q : Mpsc Message) where
  -- While the task runs, what is left is what is queued.
  abbrev pub IsQueued : Connection f q → List Message → Type 0
  IsQueued s rest = (tx : q.Channel) × (s.client.tx ≡ some tx) × (q.queued tx ≡ rest)

  abbrev pub IsInOrder : Trace f q → Type 0
  IsInOrder (accepted, s) =
      (rest : List Message) × (map to_wire accepted ≡ in_order s.written rest)
      × (is_running s.task ≡ true → IsQueued s rest)

  stopped :
      (accepted rest : List Message) (r : Result (Unit {0})) (s : Connection f q)
      → map to_wire accepted ≡ in_order s.written rest
      → IsInOrder (accepted, finish f q r s)
  stopped accepted rest r s order = (rest, order, λ runs. absurd (cc runs))

  sends-IsInOrder :
      (now : ℕ) (m : Message) (accepted : List Message) (s : Connection f q) (tx : q.Channel)
      (answer : Sending q.Channel)
      → IsInOrder (accepted, s)
      → s.client.tx ≡ some tx
      → q.send m tx ≡ answer
      → IsInOrder (sends_as f q m (accepted, s) (sent f q now m s.client answer))
  sends-IsInOrder now m accepted s tx (Sending.accepted d) (rest, order, queue) e e' =
      let (pushed, _, _) = q.accepted_lem m tx d e' in
      (
        rest ++ (m ∷ []),
        map-append to_wire accepted (m ∷ [])
            ∙ ap (λ o. o ++ (to_wire m ∷ [])) order
            ∙ sym (in_order-append s.written rest m),
        λ runs.
            let (tx', same, queued) = queue runs in
            let same_tx : tx' ≡ tx = cc (same, e) in (d, refl, cc (pushed, queued, same_tx)),
      )
  sends-IsInOrder now m accepted s tx Sending.waits h e e' = h
  sends-IsInOrder now m accepted s tx Sending.closed h e e' = h

  send_on-IsInOrder :
      (now : ℕ) (m : Message) (accepted : List Message) (s : Connection f q) (o : Option q.Channel)
      → IsInOrder (accepted, s)
      → s.client.tx ≡ o
      → IsInOrder (sends_as f q m (accepted, s) (send_on f q now m s.client o))
  send_on-IsInOrder now m accepted s none h e = h
  send_on-IsInOrder now m accepted s (some tx) h e =
      sends-IsInOrder now m accepted s tx (q.send m tx) h e refl

  forward-IsInOrder :
      (w : Bool) (m : Message) (tx : q.Channel) (accepted : List Message) (s : Connection f q)
      (answer : Result WireMessage)
      → map to_wire accepted ≡ in_order s.written (m ∷ q.queued tx)
      → s.client.tx ≡ some tx
      → to_wire m ≡ answer
      → IsInOrder (accepted, forward_as f q w m answer s)
  forward-IsInOrder w m tx accepted s (err e) order open_tx e' =
      stopped accepted (m ∷ q.queued tx) (err e) s order
  forward-IsInOrder true m tx accepted s (ok wire) order open_tx e' = (
    q.queued tx,
    order ∙ sym (in_order-forwarded s.written wire m (q.queued tx) e'),
    λ runs. (tx, open_tx, refl),
  )
  forward-IsInOrder false m tx accepted s (ok wire) order open_tx e' =
      stopped accepted (m ∷ q.queued tx) (err Error.connection_failed) s order

  outgoing_from-IsInOrder :
      (w : Bool) (tx : q.Channel) (accepted : List Message) (s : Connection f q)
      (answer : Option (Message × q.Channel))
      → IsInOrder (accepted, s)
      → is_running s.task ≡ true
      → s.client.tx ≡ some tx
      → q.recv tx ≡ answer
      → IsInOrder (accepted, outgoing_from f q w answer s)
  outgoing_from-IsInOrder w tx accepted s none h runs e e' = h
  outgoing_from-IsInOrder w tx accepted s (some (m, d)) (rest, order, queue) runs e e' =
      let (tx', same, queued) = queue runs in
      let same_tx : tx' ≡ tx = cc (same, e) in
      let (first, _, _) = q.recv_lem m tx d e' in
      let left : rest ≡ m ∷ q.queued d = cc (first, queued, same_tx) in
      forward-IsInOrder w m d accepted (record s { client = record s.client { tx = some d } })
        (to_wire m) (order ∙ ap (in_order s.written) left) refl refl

  outgoing_on-IsInOrder :
      (w : Bool) (accepted : List Message) (s : Connection f q) (o : Option q.Channel)
      → IsInOrder (accepted, s)
      → is_running s.task ≡ true
      → s.client.tx ≡ o
      → IsInOrder (accepted, outgoing_on f q w o s)
  outgoing_on-IsInOrder w accepted s none h runs e = h
  outgoing_on-IsInOrder w accepted s (some tx) h runs e =
      outgoing_from-IsInOrder w tx accepted s (q.recv tx) h runs e refl

  answered-IsInOrder :
      (wire : WireMessage) (accepted : List Message) (s : Connection f q)
      → IsInOrder (accepted, s)
      → IsInOrder (accepted, record s { written = s.written ++ (Written.answered wire ∷ []) })
  answered-IsInOrder wire accepted s (rest, order, queue) =
      (rest, order ∙ sym (in_order-answered s.written wire rest), queue)

  incoming-IsInOrder :
      (now : ℕ) (w : Bool) (i : Incoming) (accepted : List Message) (s : Connection f q)
      → IsInOrder (accepted, s)
      → IsInOrder (accepted, incoming f q now w i s)
  incoming-IsInOrder now w (Incoming.received (WireMessage.text b)) accepted s h = h
  incoming-IsInOrder now w (Incoming.received (WireMessage.binary b)) accepted s h = h
  incoming-IsInOrder now true (Incoming.received (WireMessage.ping b)) accepted s h =
      answered-IsInOrder _ accepted s h
  incoming-IsInOrder now false (Incoming.received (WireMessage.ping b)) accepted s h = h
  incoming-IsInOrder now w (Incoming.received (WireMessage.pong b)) accepted s h = h
  incoming-IsInOrder now w (Incoming.received WireMessage.close) accepted s h =
      (h.0, h.1, λ runs. absurd (cc runs))
  incoming-IsInOrder now w (Incoming.received WireMessage.frame) accepted s h = h
  incoming-IsInOrder now w Incoming.failed accepted s h = (h.0, h.1, λ runs. absurd (cc runs))

  step-IsInOrder : (s : Step) (t : Trace f q) → IsInOrder t → IsInOrder (step f q s t)
  step-IsInOrder (Step.sends now m) t h = send_on-IsInOrder now m t.0 t.1 t.1.client.tx h refl
  step-IsInOrder (Step.writes w) t h = elim (Bool-cases (is_running t.1.task)) [
    | inl runs ↦ rw runs (outgoing_on-IsInOrder w t.0 t.1 t.1.client.tx h runs refl)
    | inr ended ↦ rw ended h
  ]
  step-IsInOrder (Step.reads now w i) t h = elim (Bool-cases (is_running t.1.task)) [
    | inl runs ↦ rw runs (incoming-IsInOrder now w i t.0 t.1 h)
    | inr ended ↦ rw ended h
  ]
  step-IsInOrder (Step.shuts now) t h = h
  step-IsInOrder (Step.pings now) t h = h

  run_from-IsInOrder :
      (steps : List Step) (t : Trace f q) → IsInOrder t → IsInOrder (run f q steps t)
  unfolding run
  run_from-IsInOrder [] t h = h
  run_from-IsInOrder (s ∷ steps) t h =
      run_from-IsInOrder steps (step f q s t) (step-IsInOrder s t h)

  -- In whatever order the tasks of a new client take their turns, if its buffer size is positive: the messages that were accepted,
  -- converted, are those that the channel's branch has written, in that order, and then the rest;
  -- while the task runs the rest is what is in the channel.
  pub run-IsInOrder :
      (now : ℕ) (c : ClientConfig f) (steps : List Step)
      → 0 < c.backpressure_config.max_buffer_size
      → IsInOrder (run f q steps (start f q (new f q now c)))
  unfolding new forwards
  run-IsInOrder now c steps positive = run_from-IsInOrder steps _ (
    [],
    refl,
    λ runs. (_, refl, (q.channel_lem c.backpressure_config.max_buffer_size positive).0),
  )

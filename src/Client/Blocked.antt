-- ===== src/Client/Blocked.antt =====
-- src/client.rs with src/backpressure.rs: what a client is worth that has backpressure. Bytes are
-- counted when a message enters the channel and again when it is written, and only what arrives
-- takes any off.
use ws_fabric.Prelude.{
  ℕ, ◌+◌, ◌*◌, ◌^◌, ◌<◌, ◌≡◌, refl, ap, ◌∙◌, Bool, true, false, List, [], ◌∷◌, ◌++◌, Option, none,
  some, arith, inl, inr, lt→ltb, if◌then◌else◌, Bool-cases,
}
use ws_fabric.Error.{Error, Result, ok, err}
use ws_fabric.Float.{F64}
use ws_fabric.Channel.{Sending, Mpsc}
use ws_fabric.Message.{Bytes, Message, len}
use ws_fabric.Socket.{WireMessage, Incoming, is_running, to_wire}
use ws_fabric.Backpressure.{BackpressureController, limit, is_backpressure_active, can_send}
use ws_fabric.Client.{
  Connection, send, close, send_on, sent, outgoing_on, outgoing_from, forward_as, incoming, finish,
}
use ws_fabric.Client.Steps.{Step, Trace, step, sends_as, run}

abbrev pub bytes : List Message → ℕ
bytes [] = 0
bytes (m ∷ ms) = len m + bytes ms

bytes-append : (xs ys : List Message) → bytes (xs ++ ys) ≡ bytes xs + bytes ys
bytes-append [] ys = omega arith
bytes-append (x ∷ xs) ys = omega (arith, bytes-append xs ys)

-- The step reads no data from the socket.
abbrev pub is_quiet : Step → Bool
is_quiet (Step.reads now w (Incoming.received (WireMessage.text s))) = false
is_quiet (Step.reads now w (Incoming.received (WireMessage.binary b))) = false
is_quiet _ = true

abbrev pub all_quiet : List Step → Bool
all_quiet [] = true
all_quiet (s ∷ steps) = if is_quiet s then all_quiet steps else false

-- What the steps want to send.
abbrev pub wanted : List Step → ℕ
wanted [] = 0
wanted (Step.sends now m ∷ steps) = len m + wanted steps
wanted (_ ∷ steps) = wanted steps

module _ (f : F64) (q : Mpsc Message) where
  abbrev pub queued_bytes : Option q.Channel → ℕ
  queued_bytes none = 0
  queued_bytes (some tx) = bytes (q.queued tx)

  -- The recorded size is above the limit, and will not wrap while so much more is sent.
  abbrev pub AreBlocked : ℕ → BackpressureController f → Option q.Channel → Type 0
  AreBlocked more b tx =
      (b.config.enabled ≡ true)
      × (limit f b.config < b.current_size)
      × (b.current_size + queued_bytes tx + 2 * more < 2 ^ 64)

  abbrev pub IsBlocked : ℕ → Connection f q → Type 0
  IsBlocked more s = AreBlocked more s.client.backpressure s.client.tx

  finish-IsBlocked :
      (r : Result (Unit {0})) (more : ℕ) (s : Connection f q) (o : Option q.Channel)
      → s.client.tx ≡ o
      → IsBlocked more s
      → IsBlocked more (finish f q r s)
  finish-IsBlocked r more s none e h = rw e (h.0, h.1, omega (arith, h.2))
  finish-IsBlocked r more s (some tx) e h =
      let gone : bytes (q.queued (q.drop_receiver tx)) ≡ 0 = ap bytes (q.drop_receiver_lem tx).0 in
      rw e (h.0, h.1, omega (arith, gone, h.2))

  sends-IsBlocked :
      (now : ℕ) (m : Message) (more : ℕ) (ms : List Message) (s : Connection f q) (tx : q.Channel)
      (answer : Sending q.Channel)
      → IsBlocked (len m + more) s
      → s.client.tx ≡ some tx
      → q.send m tx ≡ answer
      → IsBlocked more (sends_as f q m (ms, s) (sent f q now m s.client answer)).1
  sends-IsBlocked now m more ms s tx (Sending.accepted d) h e e' =
      let pushed : bytes (q.queued d) ≡ bytes (q.queued tx) + len m =
        ap bytes (q.accepted_lem m tx d e').0
        ∙ (bytes-append (q.queued tx) (m ∷ []) ∙ omega arith) in
      let room = (rw e at h).2 in (h.0, omega (arith, h.1, room), omega (arith, pushed, room))
  sends-IsBlocked now m more ms s tx Sending.waits h e e' = (h.0, h.1, omega (arith, h.2))
  sends-IsBlocked now m more ms s tx Sending.closed h e e' = (h.0, h.1, omega (arith, h.2))

  send_on-IsBlocked :
      (now : ℕ) (m : Message) (more : ℕ) (ms : List Message) (s : Connection f q)
      (o : Option q.Channel)
      → IsBlocked (len m + more) s
      → s.client.tx ≡ o
      → IsBlocked more (sends_as f q m (ms, s) (send_on f q now m s.client o)).1
  send_on-IsBlocked now m more ms s none h e = (h.0, h.1, omega (arith, h.2))
  send_on-IsBlocked now m more ms s (some tx) h e =
      sends-IsBlocked now m more ms s tx (q.send m tx) h e refl

  forward-IsBlocked :
      (w : Bool) (m : Message) (more : ℕ) (d : q.Channel) (s : Connection f q)
      (answer : Result WireMessage)
      → s.client.backpressure.config.enabled ≡ true
      → limit f s.client.backpressure.config < s.client.backpressure.current_size
      → s.client.backpressure.current_size + len m + bytes (q.queued d) + 2 * more < 2 ^ 64
      → s.client.tx ≡ some d
      → IsBlocked more (forward_as f q w m answer s)
  forward-IsBlocked w m more d s (err e) on above room tx =
      finish-IsBlocked (err e) more s (some d) tx (on, above, rw tx (omega (arith, room)))
  forward-IsBlocked true m more d s (ok wire) on above room tx =
      (on, omega (arith, above, room), rw tx (omega (arith, room)))
  forward-IsBlocked false m more d s (ok wire) on above room tx =
      finish-IsBlocked (err Error.connection_failed) more s (some d) tx
        (on, above, rw tx (omega (arith, room)))

  outgoing_from-IsBlocked :
      (w : Bool) (more : ℕ) (s : Connection f q) (tx : q.Channel)
      (answer : Option (Message × q.Channel))
      → IsBlocked more s
      → s.client.tx ≡ some tx
      → q.recv tx ≡ answer
      → IsBlocked more (outgoing_from f q w answer s)
  outgoing_from-IsBlocked w more s tx none h e e' = h
  outgoing_from-IsBlocked w more s tx (some (m, d)) h e e' =
      let taken : bytes (q.queued tx) ≡ len m + bytes (q.queued d) =
        ap bytes (q.recv_lem m tx d e').0 in
      let room = (rw e at h).2 in
      forward-IsBlocked w m more d (record s { client = record s.client { tx = some d } })
        (to_wire m) h.0 h.1 (omega (arith, taken, room)) refl

  outgoing_on-IsBlocked :
      (w : Bool) (more : ℕ) (s : Connection f q) (o : Option q.Channel)
      → IsBlocked more s
      → s.client.tx ≡ o
      → IsBlocked more (outgoing_on f q w o s)
  outgoing_on-IsBlocked w more s none h e = h
  outgoing_on-IsBlocked w more s (some tx) h e =
      outgoing_from-IsBlocked w more s tx (q.recv tx) h e refl

  incoming-IsBlocked :
      (now : ℕ) (w : Bool) (i : Incoming) (more : ℕ) (s : Connection f q)
      → is_quiet (Step.reads now w i) ≡ true
      → IsBlocked more s
      → IsBlocked more (incoming f q now w i s)
  incoming-IsBlocked now w (Incoming.received (WireMessage.text b)) more s quiet h =
      absurd (cc quiet)
  incoming-IsBlocked now w (Incoming.received (WireMessage.binary b)) more s quiet h =
      absurd (cc quiet)
  incoming-IsBlocked now true (Incoming.received (WireMessage.ping b)) more s quiet h = h
  incoming-IsBlocked now false (Incoming.received (WireMessage.ping b)) more s quiet h = h
  incoming-IsBlocked now w (Incoming.received (WireMessage.pong b)) more s quiet h = h
  incoming-IsBlocked now w (Incoming.received WireMessage.close) more s quiet h =
      finish-IsBlocked (ok tt) more s s.client.tx refl h
  incoming-IsBlocked now w (Incoming.received WireMessage.frame) more s quiet h = h
  incoming-IsBlocked now w Incoming.failed more s quiet h =
      finish-IsBlocked (err Error.web_socket) more s s.client.tx refl h

  run-IsBlocked :
      (steps : List Step) (t : Trace f q)
      → all_quiet steps ≡ true
      → IsBlocked (wanted steps) t.1
      → IsBlocked 0 (run f q steps t).1
  unfolding run
  run-IsBlocked [] t quiet h = h
  run-IsBlocked (Step.sends now m ∷ steps) t quiet h =
      run-IsBlocked steps _ quiet
        (send_on-IsBlocked now m (wanted steps) t.0 t.1 t.1.client.tx h refl)
  run-IsBlocked (Step.writes w ∷ steps) t quiet h =
      run-IsBlocked steps (step f q (Step.writes w) t) quiet
        (elim (Bool-cases (is_running t.1.task)) [
          | inl runs ↦ rw runs (outgoing_on-IsBlocked w (wanted steps) t.1 t.1.client.tx h refl)
          | inr ended ↦ rw ended h
        ])
  run-IsBlocked (Step.reads now w i ∷ steps) t quiet h =
      elim (Bool-cases (is_quiet (Step.reads now w i))) [
        | inl silent ↦
            run-IsBlocked steps (step f q (Step.reads now w i) t) (rw silent at quiet)
              (elim (Bool-cases (is_running t.1.task)) [
                | inl runs ↦ rw runs (incoming-IsBlocked now w i (wanted steps) t.1 silent h)
                | inr ended ↦ rw ended h
              ])
        | inr loud ↦ absurd (cc (rw loud at quiet))
      ]
  run-IsBlocked (Step.shuts now ∷ steps) t quiet h = run-IsBlocked steps _ quiet h
  run-IsBlocked (Step.pings now ∷ steps) t quiet h = run-IsBlocked steps _ quiet h

  can_send-IsBlocked :
      (more : ℕ) (s : Connection f q) → IsBlocked more s → can_send f s.client.backpressure ≡ false
  unfolding can_send is_backpressure_active
  can_send-IsBlocked more s h =
      rw (h.0, lt→ltb (limit f s.client.backpressure.config) s.client.backpressure.current_size h.1)
        refl

  -- A client with backpressure enabled whose recorded size is above the limit, until it reads data
  -- from the socket (and if the sizes sum to less than 2 ^ 64): whatever its tasks do, with every message written, a later
  -- send fails with `BufferFull` and changes nothing, and closing fails the same way.
  pub run-blocked :
      (steps : List Step) (t : Trace f q) (now : ℕ) (m : Message) (reason : Option Bytes)
      → all_quiet steps ≡ true
      → IsBlocked (wanted steps) t.1
      → (send f q now m (run f q steps t).1.client
          ≡ some (err Error.buffer_full, (run f q steps t).1.client))
        × (close f q now reason (run f q steps t).1.client
            ≡ some (err Error.buffer_full, (run f q steps t).1.client))
  unfolding send close
  run-blocked steps t now m reason quiet h =
      rw (can_send-IsBlocked 0 (run f q steps t).1 (run-IsBlocked steps t quiet h)) (refl, refl)

-- ===== src/Client/Closing.antt =====
-- src/client.rs: what `close` does, and that it lasts.
use ws_fabric.Prelude.{
  ℕ, ◌≡◌, refl, Bool, true, false, List, [], ◌∷◌, ◌++◌, Option, none, some, inl, inr, Bool-cases,
}
use ws_fabric.Error.{Error, Result, ok, err}
use ws_fabric.Float.{F64}
use ws_fabric.Channel.{Sending, Mpsc}
use ws_fabric.Message.{Bytes, Message}
use ws_fabric.Socket.{WireMessage, Incoming, is_running, to_wire}
use ws_fabric.Backpressure.{can_send}
use ws_fabric.Client.{
  Client, Connection, send, send_on, sent, close, closed, close_with, beat, incoming, outgoing_on,
  outgoing_from, forward_as, is_connected,
}
use ws_fabric.Client.Steps.{Step, Trace, step, sends_as, run}

module _ (f : F64) (q : Mpsc Message) where
  -- What goes with an answer of `close`.
  abbrev pub ClosesTo : Option Bytes → Client f q → Result (Unit {0}) → Client f q → Type 0
  ClosesTo reason c (err e) c' = c' ≡ c
  ClosesTo reason c (ok r) c' =
      (c'.shutdown ≡ true)
      × ((tx : q.Channel) × (d : q.Channel) × (c.tx ≡ some tx)
          × (c'.tx ≡ some d)
          × (q.queued d ≡ q.queued tx ++ (close_with reason ∷ [])))

  sent-ClosesTo :
      (now : ℕ) (reason : Option Bytes) (c c' : Client f q) (tx : q.Channel)
      (answer : Sending q.Channel) (r : Result (Unit {0}))
      → c.tx ≡ some tx
      → q.send (close_with reason) tx ≡ answer
      → closed f q now (sent f q now (close_with reason) c answer) ≡ some (r, c')
      → ClosesTo reason c r c'
  sent-ClosesTo now reason c c' tx (Sending.accepted d) (ok r) open_tx e e' =
      (cc e', (tx, d, open_tx, cc e', (q.accepted_lem (close_with reason) tx d e).0))
  sent-ClosesTo now reason c c' tx (Sending.accepted d) (err r) open_tx e e' = absurd (cc e')
  sent-ClosesTo now reason c c' tx Sending.waits r open_tx e e' = absurd (cc e')
  sent-ClosesTo now reason c c' tx Sending.closed (ok r) open_tx e e' = absurd (cc e')
  sent-ClosesTo now reason c c' tx Sending.closed (err r) open_tx e e' = cc e'

  send_on-ClosesTo :
      (now : ℕ) (reason : Option Bytes) (c c' : Client f q) (o : Option q.Channel)
      (r : Result (Unit {0}))
      → c.tx ≡ o
      → closed f q now (send_on f q now (close_with reason) c o) ≡ some (r, c')
      → ClosesTo reason c r c'
  send_on-ClosesTo now reason c c' none (ok r) e e' = absurd (cc e')
  send_on-ClosesTo now reason c c' none (err r) e e' = cc e'
  send_on-ClosesTo now reason c c' (some tx) r e e' =
      sent-ClosesTo now reason c c' tx (q.send (close_with reason) tx) r e refl e'

  refused-ClosesTo :
      (reason : Option Bytes) (c c' : Client f q) (r : Result (Unit {0}))
      → ◌≡◌ {A = Option (Result (Unit {0}) × Client f q)}
          (some (err Error.buffer_full, c))
          (some (r, c'))
      → ClosesTo reason c r c'
  refused-ClosesTo reason c c' (ok r) e = absurd (cc e)
  refused-ClosesTo reason c c' (err r) e = cc e

  close-ClosesTo :
      (now : ℕ) (reason : Option Bytes) (c c' : Client f q) (r : Result (Unit {0}))
      → close f q now reason c ≡ some (r, c')
      → ClosesTo reason c r c'
  unfolding close send
  close-ClosesTo now reason c c' r e = elim (Bool-cases (can_send f c.backpressure)) [
    | inl may ↦ send_on-ClosesTo now reason c c' c.tx r refl (rw may at e)
    | inr full ↦ refused-ClosesTo reason c c' r (rw full at e)
  ]

  sent-shutdown :
      (now : ℕ) (m : Message) (t : Trace f q) (answer : Sending q.Channel)
      → t.1.client.shutdown ≡ true
      → (sends_as f q m t (sent f q now m t.1.client answer)).1.client.shutdown ≡ true
  sent-shutdown now m t (Sending.accepted d) h = h
  sent-shutdown now m t Sending.waits h = h
  sent-shutdown now m t Sending.closed h = h

  send_on-shutdown :
      (now : ℕ) (m : Message) (t : Trace f q) (o : Option q.Channel)
      → t.1.client.shutdown ≡ true
      → (sends_as f q m t (send_on f q now m t.1.client o)).1.client.shutdown ≡ true
  send_on-shutdown now m t none h = h
  send_on-shutdown now m t (some tx) h = sent-shutdown now m t (q.send m tx) h

  forward_as-shutdown :
      (w : Bool) (m : Message) (s : Connection f q) (answer : Result WireMessage)
      → s.client.shutdown ≡ true
      → (forward_as f q w m answer s).client.shutdown ≡ true
  forward_as-shutdown w m s (err e) h = h
  forward_as-shutdown true m s (ok wire) h = h
  forward_as-shutdown false m s (ok wire) h = h

  outgoing_from-shutdown :
      (w : Bool) (s : Connection f q) (answer : Option (Message × q.Channel))
      → s.client.shutdown ≡ true
      → (outgoing_from f q w answer s).client.shutdown ≡ true
  outgoing_from-shutdown w s none h = h
  outgoing_from-shutdown w s (some (m, d)) h =
      forward_as-shutdown w m (record s { client = record s.client { tx = some d } }) (to_wire m) h

  outgoing_on-shutdown :
      (w : Bool) (s : Connection f q) (o : Option q.Channel)
      → s.client.shutdown ≡ true
      → (outgoing_on f q w o s).client.shutdown ≡ true
  outgoing_on-shutdown w s none h = h
  outgoing_on-shutdown w s (some tx) h = outgoing_from-shutdown w s (q.recv tx) h

  incoming-shutdown :
      (now : ℕ) (w : Bool) (i : Incoming) (s : Connection f q)
      → s.client.shutdown ≡ true
      → (incoming f q now w i s).client.shutdown ≡ true
  incoming-shutdown now w (Incoming.received (WireMessage.text b)) s h = h
  incoming-shutdown now w (Incoming.received (WireMessage.binary b)) s h = h
  incoming-shutdown now true (Incoming.received (WireMessage.ping b)) s h = h
  incoming-shutdown now false (Incoming.received (WireMessage.ping b)) s h = h
  incoming-shutdown now w (Incoming.received (WireMessage.pong b)) s h = h
  incoming-shutdown now w (Incoming.received WireMessage.close) s h = h
  incoming-shutdown now w (Incoming.received WireMessage.frame) s h = h
  incoming-shutdown now w Incoming.failed s h = h

  step-shutdown :
      (s : Step) (t : Trace f q)
      → t.1.client.shutdown ≡ true
      → (step f q s t).1.client.shutdown ≡ true
  step-shutdown (Step.sends now m) t h = send_on-shutdown now m t t.1.client.tx h
  step-shutdown (Step.writes w) t h = elim (Bool-cases (is_running t.1.task)) [
    | inl runs ↦ rw runs (outgoing_on-shutdown w t.1 t.1.client.tx h)
    | inr ended ↦ rw ended h
  ]
  step-shutdown (Step.reads now w i) t h = elim (Bool-cases (is_running t.1.task)) [
    | inl runs ↦ rw runs (incoming-shutdown now w i t.1 h)
    | inr ended ↦ rw ended h
  ]
  step-shutdown (Step.shuts now) t h = refl
  step-shutdown (Step.pings now) t h = h

  run-shutdown :
      (steps : List Step) (t : Trace f q)
      → t.1.client.shutdown ≡ true
      → (run f q steps t).1.client.shutdown ≡ true
  unfolding run
  run-shutdown [] t h = h
  run-shutdown (s ∷ steps) t h = run-shutdown steps (step f q s t) (step-shutdown s t h)

  shutdown-is_connected : (c : Client f q) → c.shutdown ≡ true → is_connected f q c ≡ false
  unfolding is_connected
  shutdown-is_connected c h = elim (Bool-cases c.connected) [
    | inl up ↦ rw (up, h) refl
    | inr down ↦ rw down refl
  ]

  -- A `close` that succeeds has put the close message last into the channel, and whatever the tasks
  -- do from then on, `is_connected` is false and a heartbeat ends its loop without a ping.
  pub close_lem :
      (now later : ℕ) (reason : Option Bytes) (t : Trace f q) (c : Client f q) (steps : List Step)
      → close f q now reason t.1.client ≡ some (ok tt, c)
      → ClosesTo reason t.1.client (ok tt) c
        × (is_connected f q (run f q steps (t.0, record t.1 { client = c })).1.client ≡ false)
        × (beat f q later (run f q steps (t.0, record t.1 { client = c })).1.client
            ≡ some (false, (run f q steps (t.0, record t.1 { client = c })).1.client))
  unfolding beat
  close_lem now later reason t c steps e =
      let closes = close-ClosesTo now reason t.1.client c (ok tt) e in
      let after = (run f q steps (t.0, record t.1 { client = c })).1.client in
      let off : is_connected f q after ≡ false =
        shutdown-is_connected after
          (run-shutdown steps (t.0, record t.1 { client = c }) closes.0) in
      (closes, off, rw off refl)

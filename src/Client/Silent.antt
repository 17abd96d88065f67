-- ===== src/Client/Silent.antt =====
-- src/client.rs with src/heartbeat.rs: a server that sends nothing.
mod Tests
use ws_fabric.Prelude.{
  ℕ, ◌+◌, ◌-◌, ◌≤◌, ◌<◌, ◌≡◌, ◌≢◌, refl, ap, sym, subst, ◌∙◌, ltb, Bool, true, false, List, [], ◌∷◌,
  Option, none, some, arith, inl, inr, if◌then◌else◌, Bool-cases,
}
use ws_fabric.Error.{Error, Result, ok, err}
use ws_fabric.Float.{F64}
use ws_fabric.Channel.{Sending, Mpsc}
use ws_fabric.Message.{Message}
use ws_fabric.Socket.{WireMessage, Task, is_running, to_wire}
use ws_fabric.Backpressure.{can_send}
use ws_fabric.Heartbeat.{HeartbeatConfig, HeartbeatManager, ping, is_alive}
use ws_fabric.Client.{
  Client, Connection, sent, send_on, send, outgoing, outgoing_on, outgoing_from, forward_as,
  is_connected, beat, beat_with, beaten,
}
use ws_fabric.Client.Steps.{Step, Trace, step, run, sends_as}

-- Nothing is read from the socket, and nobody closes the client.
abbrev pub is_silent : Step → Bool
is_silent (Step.reads now w i) = false
is_silent (Step.shuts now) = false
is_silent _ = true

abbrev pub all_silent : List Step → Bool
all_silent [] = true
all_silent (s ∷ steps) = if is_silent s then all_silent steps else false

module _ (f : F64) (q : Mpsc Message) where
  -- What the client says of its connection, and what its heartbeat knows of the server.
  pub record Unchanged (c c' : Client f q) : Type 0 where
    pub connected : c'.connected ≡ c.connected
    pub shutdown : c'.shutdown ≡ c.shutdown
    pub missed : c'.heartbeat.missed_pings ≡ c.heartbeat.missed_pings
    pub pong : c'.heartbeat.last_pong ≡ c.heartbeat.last_pong
    pub config : c'.heartbeat.config ≡ c.heartbeat.config

  same : (c : Client f q) → Unchanged c c
  same c = record { connected = refl; shutdown = refl; missed = refl; pong = refl; config = refl }

  then_same : {a b c : Client f q} → Unchanged a b → Unchanged b c → Unchanged a c
  then_same h k = record {
    connected = k.connected ∙ h.connected;
    shutdown = k.shutdown ∙ h.shutdown;
    missed = k.missed ∙ h.missed;
    pong = k.pong ∙ h.pong;
    config = k.config ∙ h.config;
  }

  sent-Unchanged :
      (now : ℕ) (m : Message) (t : Trace f q) (o : Sending q.Channel)
      → Unchanged t.1.client (sends_as f q m t (sent f q now m t.1.client o)).1.client
  sent-Unchanged now m t (Sending.accepted tx) = record {
    connected = refl;
    shutdown = refl;
    missed = refl;
    pong = refl;
    config = refl;
  }
  sent-Unchanged now m t Sending.waits = same t.1.client
  sent-Unchanged now m t Sending.closed = same t.1.client

  send_on-Unchanged :
      (now : ℕ) (m : Message) (t : Trace f q) (o : Option q.Channel)
      → Unchanged t.1.client (sends_as f q m t (send_on f q now m t.1.client o)).1.client
  send_on-Unchanged now m t none = same t.1.client
  send_on-Unchanged now m t (some tx) = sent-Unchanged now m t (q.send m tx)

  forward_as-Unchanged :
      (w : Bool) (m : Message) (o : Result WireMessage) (s : Connection f q)
      → Unchanged s.client (forward_as f q w m o s).client
  forward_as-Unchanged w m (err e) s = record {
    connected = refl;
    shutdown = refl;
    missed = refl;
    pong = refl;
    config = refl;
  }
  forward_as-Unchanged true m (ok wire) s = record {
    connected = refl;
    shutdown = refl;
    missed = refl;
    pong = refl;
    config = refl;
  }
  forward_as-Unchanged false m (ok wire) s = record {
    connected = refl;
    shutdown = refl;
    missed = refl;
    pong = refl;
    config = refl;
  }

  outgoing_from-Unchanged :
      (w : Bool) (s : Connection f q) (o : Option (Message × q.Channel))
      → Unchanged s.client (outgoing_from f q w o s).client
  outgoing_from-Unchanged w s none = same s.client
  outgoing_from-Unchanged w s (some (m, tx)) =
      let h =
        forward_as-Unchanged w m (to_wire m)
          (record s { client = record s.client { tx = some tx } }) in
      record {
        connected = h.connected;
        shutdown = h.shutdown;
        missed = h.missed;
        pong = h.pong;
        config = h.config;
      }

  outgoing_on-Unchanged :
      (w : Bool) (s : Connection f q) (o : Option q.Channel)
      → Unchanged s.client (outgoing_on f q w o s).client
  outgoing_on-Unchanged w s none = same s.client
  outgoing_on-Unchanged w s (some tx) = outgoing_from-Unchanged w s (q.recv tx)

  step-Unchanged :
      (s : Step) (t : Trace f q) → is_silent s ≡ true → Unchanged t.1.client (step f q s t).1.client
  unfolding ping
  step-Unchanged (Step.sends now m) t calm = send_on-Unchanged now m t t.1.client.tx
  step-Unchanged (Step.writes w) t calm = elim (Bool-cases (is_running t.1.task)) [
    | inl on ↦ rw on (outgoing_on-Unchanged w t.1 t.1.client.tx)
    | inr off ↦ rw off (same t.1.client)
  ]
  step-Unchanged (Step.reads now w i) t calm = absurd (cc calm)
  step-Unchanged (Step.shuts now) t calm = absurd (cc calm)
  step-Unchanged (Step.pings now) t calm = record {
    connected = refl;
    shutdown = refl;
    missed = refl;
    pong = refl;
    config = refl;
  }

  run-Unchanged :
      (steps : List Step) (t : Trace f q)
      → all_silent steps ≡ true
      → Unchanged t.1.client (run f q steps t).1.client
  unfolding run
  run-Unchanged [] t calm = same t.1.client
  run-Unchanged (s ∷ steps) t calm = elim (Bool-cases (is_silent s)) [
    | inl e ↦ then_same (step-Unchanged s t e) (run-Unchanged steps (step f q s t) (rw e at calm))
    | inr e ↦ absurd (cc (rw e at calm))
  ]

  beaten-goes_on :
      (o : Option (Result (Unit {0}) × Client f q)) (c : Client f q)
      → beaten f q o ≡ some (false, c)
      → ⊥
  beaten-goes_on none c e = cc e
  beaten-goes_on (some (r, d)) c e = cc e

  connected-beat :
      (now : ℕ) (c d : Client f q) → is_connected f q c ≡ true → beat f q now c ≢ some (false, d)
  unfolding beat
  connected-beat now c d up e =
      beaten-goes_on
        (send f q now (ping now c.heartbeat).0 (record c { heartbeat = (ping now c.heartbeat).1 }))
        d (rw up at e)

  kept-is_connected :
      (c d : Client f q) → Unchanged c d → is_connected f q c ≡ true → is_connected f q d ≡ true
  unfolding is_connected
  kept-is_connected c d h up = rw (h.connected, h.shutdown) up

  ping-is_alive :
      (at now : ℕ) (h : HeartbeatManager)
      → h.last_pong ≡ none
      → at ≤ now
      → now < at + h.config.ping_timeout
      → is_alive now (ping at h).1 ≡ true
  unfolding is_alive ping
  ping-is_alive at now h no_pong late early =
      let recently : ltb (now - at) h.config.ping_timeout ≡ true = ground (arith, late, early) in
      rw (no_pong, recently) (ground arith)

  -- A server that sends nothing is never noticed. A connected client which has never had a pong sends,
  -- writes and pings, in any order, while nothing is read and nobody closes it. Then it is still
  -- connected, no further ping counts as missed, no round of its heartbeat ends the loop, and after
  -- a ping at `at` it counts as alive until the ping timeout has passed, answered or not.
  pub silent_lem :
      (steps : List Step) (t : Trace f q) (at now : ℕ) (c : Client f q)
      → all_silent steps ≡ true
      → is_connected f q t.1.client ≡ true
      → t.1.client.heartbeat.last_pong ≡ none
      → at ≤ now
      → now < at + t.1.client.heartbeat.config.ping_timeout
      → (is_connected f q (run f q steps t).1.client ≡ true)
        × ((run f q steps t).1.client.heartbeat.missed_pings ≡ t.1.client.heartbeat.missed_pings)
        × (beat f q at (run f q steps t).1.client ≢ some (false, c))
        × (is_alive now (step f q (Step.pings at) (run f q steps t)).1.client.heartbeat ≡ true)
  silent_lem steps t at now c calm up no_pong late early =
      let h = run-Unchanged steps t calm in
      let up' = kept-is_connected t.1.client (run f q steps t).1.client h up in
      (
        up',
        h.missed,
        connected-beat at (run f q steps t).1.client c up',
        ping-is_alive at now (run f q steps t).1.client.heartbeat (h.pong ∙ no_pong) late
            (subst (λ (g : HeartbeatConfig). now < at + g.ping_timeout) (sym h.config) early),
      )

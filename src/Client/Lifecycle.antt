-- ===== src/Client/Lifecycle.antt =====
-- src/client.rs: what is left of a client whose task has returned, and of one that was closed.
use ws_fabric.Prelude.{
  ℕ, ◌≡◌, refl, Bool, true, false, List, [], ◌∷◌, Option, none, some, arith, inl, inr,
  if◌then◌else◌, Bool-cases,
}
use ws_fabric.Error.{Error, Result, ok, err}
use ws_fabric.Float.{F64}
use ws_fabric.Channel.{Mpsc}
use ws_fabric.Message.{Message}
use ws_fabric.Socket.{WireMessage, Incoming, is_running}
use ws_fabric.Backpressure.{can_send}
use ws_fabric.Client.{Client, Connection, send, send_on, incoming, finish, is_connected}
use ws_fabric.Client.Steps.{Step, Trace, step, run}

-- The end of `close`.
abbrev pub is_shut : Step → Bool
is_shut (Step.shuts now) = true
is_shut _ = false

abbrev pub none_shuts : List Step → Bool
none_shuts [] = true
none_shuts (s ∷ steps) = if is_shut s then false else none_shuts steps

-- The server closes the connection, or reading fails.
abbrev pub is_end : Incoming → Bool
is_end (Incoming.received WireMessage.close) = true
is_end Incoming.failed = true
is_end _ = false

module _ (f : F64) (q : Mpsc Message) where
  abbrev pub IsDeaf : Option q.Channel → Type 0
  IsDeaf none = Unit
  IsDeaf (some tx) = q.is_open tx ≡ false

  -- The task has returned and its receiver is gone, and the client has this to say of it.
  abbrev pub IsOver : Bool → Connection f q → Type 0
  IsOver says s =
      (is_running s.task ≡ false) × IsDeaf s.client.tx × (is_connected f q s.client ≡ says)

  -- What a send gives then.
  abbrev pub refusal : Client f q → Error
  refusal c = if can_send f c.backpressure then Error.connection_closed else Error.buffer_full

  send_on-deaf :
      (now : ℕ) (m : Message) (c : Client f q) (o : Option q.Channel)
      → IsDeaf o
      → send_on f q now m c o ≡ some (err Error.connection_closed, c)
  send_on-deaf now m c none h = refl
  send_on-deaf now m c (some tx) h = rw (q.refuses m tx h) refl

  pub send-deaf :
      (now : ℕ) (m : Message) (c : Client f q)
      → IsDeaf c.tx
      → send f q now m c ≡ some (err (refusal c), c)
  unfolding send
  send-deaf now m c h = rw (send_on-deaf now m c c.tx h) (ground arith)

  finish-IsDeaf :
      (r : Result (Unit {0})) (s : Connection f q) (o : Option q.Channel)
      → s.client.tx ≡ o
      → IsDeaf (finish f q r s).client.tx
  finish-IsDeaf r s none e = rw e tt
  finish-IsDeaf r s (some tx) e = rw e (q.drop_receiver_lem tx).1

  incoming-IsOver :
      (now : ℕ) (w : Bool) (i : Incoming) (s : Connection f q)
      → is_end i ≡ true
      → IsOver (is_connected f q s.client) (incoming f q now w i s)
  unfolding is_connected
  incoming-IsOver now w (Incoming.received WireMessage.close) s e =
      (refl, finish-IsDeaf (ok tt) s s.client.tx refl, refl)
  incoming-IsOver now w Incoming.failed s e =
      (refl, finish-IsDeaf (err Error.web_socket) s s.client.tx refl, refl)
  incoming-IsOver now w (Incoming.received (WireMessage.text b)) s e = absurd (cc e)
  incoming-IsOver now w (Incoming.received (WireMessage.binary b)) s e = absurd (cc e)
  incoming-IsOver now w (Incoming.received (WireMessage.ping b)) s e = absurd (cc e)
  incoming-IsOver now w (Incoming.received (WireMessage.pong b)) s e = absurd (cc e)
  incoming-IsOver now w (Incoming.received WireMessage.frame) s e = absurd (cc e)

  step-IsOver :
      (s : Step) (says : Bool) (t : Trace f q)
      → is_shut s ≡ false
      → IsOver says t.1
      → IsOver says (step f q s t).1
  unfolding is_connected
  step-IsOver (Step.sends now m) says t calm h =
      rw (send_on-deaf now m t.1.client t.1.client.tx h.1) h
  step-IsOver (Step.writes w) says t calm h = rw h.0 h
  step-IsOver (Step.reads now w i) says t calm h = rw h.0 h
  step-IsOver (Step.shuts now) says t calm h = absurd (cc calm)
  step-IsOver (Step.pings now) says t calm h = h

  run-IsOver :
      (steps : List Step) (says : Bool) (t : Trace f q)
      → none_shuts steps ≡ true
      → IsOver says t.1
      → IsOver says (run f q steps t).1
  unfolding run
  run-IsOver [] says t calm h = h
  run-IsOver (s ∷ steps) says t calm h = elim (Bool-cases (is_shut s)) [
    | inl e ↦ absurd (cc (rw e at calm))
    | inr e ↦ run-IsOver steps says (step f q s t) (rw e at calm) (step-IsOver s says t e h)
  ]

  reads-IsOver :
      (now : ℕ) (w : Bool) (i : Incoming) (t : Trace f q)
      → is_end i ≡ true
      → is_running t.1.task ≡ true
      → IsOver (is_connected f q t.1.client) (step f q (Step.reads now w i) t).1
  reads-IsOver now w i t e runs = rw runs (incoming-IsOver now w i t.1 e)

  -- When the server has closed the connection or reading has failed, whatever the tasks do but for
  -- a successful `close`: every send fails and changes nothing, and yet `is_connected` answers what
  -- it did before.
  pub ended_lem :
      (steps : List Step) (t : Trace f q) (now later : ℕ) (w : Bool) (i : Incoming) (m : Message)
      → is_end i ≡ true
      → none_shuts steps ≡ true
      → is_running t.1.task ≡ true
      → (is_connected f q (run f q (Step.reads now w i ∷ steps) t).1.client
          ≡ is_connected f q t.1.client)
        × (send f q later m (run f q (Step.reads now w i ∷ steps) t).1.client
            ≡ some (
              err (refusal (run f q (Step.reads now w i ∷ steps) t).1.client),
              (run f q (Step.reads now w i ∷ steps) t).1.client,
            ))
  unfolding run
  ended_lem steps t now later w i m e calm runs =
      let over =
        run-IsOver steps (is_connected f q t.1.client) (step f q (Step.reads now w i) t) calm
          (reads-IsOver now w i t e runs) in
      (over.2, send-deaf later m (run f q steps (step f q (Step.reads now w i) t)).1.client over.1)

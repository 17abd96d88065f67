-- ===== src/Client/Steps.antt =====
-- src/client.rs: the turns of a client's tasks, in any order.
use ws_fabric.Prelude.{ℕ, Bool, true, false, List, [], ◌∷◌, ◌++◌, Option, none, some, if◌then◌else◌}
use ws_fabric.Error.{Result, ok, err}
use ws_fabric.Float.{F64}
use ws_fabric.Channel.{Mpsc}
use ws_fabric.Message.{Message}
use ws_fabric.Socket.{Incoming, Task, is_running}
use ws_fabric.Metrics.{record_disconnection}
use ws_fabric.Heartbeat.{ping}
use ws_fabric.Client.{Client, Connection, send_on, outgoing, incoming}

-- A `send` whose test for backpressure has passed, whenever that was; the two branches of `run`;
-- the end of `close`; and the ping that a heartbeat is about to send.
pub data Step : Type 0 where
  sends : ℕ → Message → Step
  writes : Bool → Step
  reads : ℕ → Bool → Incoming → Step
  shuts : ℕ → Step
  pings : ℕ → Step

module _ (f : F64) (q : Mpsc Message) where
  -- The state, and the messages that have been accepted so far.
  abbrev pub Trace : Type 0
  Trace = List Message × Connection f q

  abbrev pub start : Client f q → Trace
  start c = ([], record { client = c; written = []; task = Task.running })

  abbrev pub sends_as : Message → Trace → Option (Result (Unit {0}) × Client f q) → Trace
  sends_as m (accepted, s) none = (accepted, s)
  sends_as m (accepted, s) (some (ok r, c)) = (accepted ++ (m ∷ []), record s { client = c })
  sends_as m (accepted, s) (some (err e, c)) = (accepted, record s { client = c })

  abbrev pub step : Step → Trace → Trace
  step (Step.sends now m) t = sends_as m t (send_on f q now m t.1.client t.1.client.tx)
  step (Step.writes w) t = (t.0, if is_running t.1.task then outgoing f q w t.1 else t.1)
  step (Step.reads now w i) t = (t.0, if is_running t.1.task then incoming f q now w i t.1 else t.1)
  step (Step.shuts now) (accepted, s) = (
    accepted,
    record s {
      client = record s.client {
        shutdown = true;
        connected = false;
        metrics = record_disconnection now s.client.metrics;
      };
    },
  )
  step (Step.pings now) (accepted, s) = (
    accepted,
    record s { client = record s.client { heartbeat = (ping now s.client.heartbeat).1 } },
  )

  unfoldable pub run : List Step → Trace → Trace
  run [] t = t
  run (s ∷ steps) t = run steps (step s t)

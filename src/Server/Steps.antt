-- ===== src/Server/Steps.antt =====
-- src/server.rs: the turns of the server's tasks, in any order.
use ws_fabric.Prelude.{
  ℕ, zero, suc, ◌+◌, ◌-◌, Bool, true, false, ◌&&◌, ltb, List, [], ◌∷◌, Option, none, some,
  if◌then◌else◌, Text, nat_eq,
}
use ws_fabric.Prelude.Assoc.{insert}
use ws_fabric.Float.{F64}
use ws_fabric.Channel.{Mpsc}
use ws_fabric.Message.{Message}
use ws_fabric.Socket.{Incoming}
use ws_fabric.Server.{
  ConnectedClient, Server, Channels, Sent, admit, accept_failed, handle_connection, send, counted,
  told, shut,
}
use ws_fabric.Server.Handler.{World, has, outgoing, incoming, is_orphaned, leave}

pub data Step : Type 0 where
  -- a stream is accepted, or accepting fails
  accepts accept_fails : Step
  -- the loop receives from `shutdown_rx`, calls `shutdown` and returns
  stops : Step
  -- a handshake succeeds at a time, with a new id and an address; or fails
  handshakes : ℕ → ℕ → Text → Step
  handshake_fails : Step
  -- the branches of the handler of an id: whether a write succeeds; what is read, and when
  writes : ℕ → Bool → Step
  reads : ℕ → ℕ → Bool → Incoming → Step
  -- `rx.recv()` gives `None`
  hangs_up : ℕ → ℕ → Step
  -- a turn of the loop of a `broadcast`; another `send` to a client, as in the loop of `shutdown`;
  -- and the first critical section of `shutdown`
  delivers : ℕ → ConnectedClient → Message → Step
  tells : ConnectedClient → Message → Step
  shuts : Step

-- `shutdown_rx.recv()` is ready: a signal waits, or the sender was dropped.
abbrev pub is_signalled : Option ℕ → Bool
is_signalled none = true
is_signalled (some n) = ltb 0 n

module _ (f : F64) (q : Mpsc Message) where
  abbrev pub admitted : World f q → Bool × Server f → World f q
  admitted w (spawned, s) = record w {
    server = s;
    pending = if spawned then w.pending + 1 else w.pending;
  }

  abbrev pub handshaken : ℕ → ℕ → Text → ℕ → World f q → World f q
  handshaken now id addr zero w = w
  handshaken now id addr (suc n) w = record w {
    server = handle_connection f now id addr w.server;
    channels = insert id (q.channel w.server.config.buffer_size) w.channels;
    pending = n;
    handlers = id ∷ w.handlers;
  }

  -- A send that must wait for room has not taken its turn.
  abbrev pub delivered : World f q → Option (Sent f q) → World f q
  delivered w none = w
  delivered w (some (n, m, cs)) = record w {
    server = record w.server { metrics = m };
    channels = cs;
  }

  abbrev pub told_one : World f q → Option (Channels f q) → World f q
  told_one w none = w
  told_one w (some cs) = record w { channels = cs }

  -- The branch of `shutdown_rx`, if it is ready; the close messages follow in turns of their own.
  abbrev pub stopped : World f q → World f q
  stopped w =
      if w.listening && is_signalled w.server.shutdown_tx
      then record w { server = (shut f q w.server).1; listening = false }
      else w

  abbrev pub step : Step → World f q → World f q
  step Step.accepts w = if w.listening then admitted w (admit f w.server) else w
  step Step.accept_fails w =
      if w.listening then record w { server = accept_failed f w.server } else w
  step Step.stops w = stopped w
  step (Step.handshakes now id addr) w = handshaken now id addr w.pending w
  step Step.handshake_fails w = record w { pending = w.pending - 1 }
  step (Step.writes id works) w = if has id w.handlers then outgoing f q id works w else w
  step (Step.reads now id works i) w =
      if has id w.handlers then incoming f q now id works i w else w
  step (Step.hangs_up now id) w =
      if has id w.handlers then (if is_orphaned f q id w then leave f q now id w else w) else w
  step (Step.delivers now client msg) w =
      delivered w
        (counted f q now msg (0, w.server.metrics, w.channels) (send f q client msg w.channels))
  step (Step.tells client msg) w = told_one w (told f q w.channels (send f q client msg w.channels))
  step Step.shuts w = record w { server = (shut f q w.server).1 }

  unfoldable pub run : List Step → World f q → World f q
  run [] w = w
  run (s ∷ steps) w = run steps (step s w)

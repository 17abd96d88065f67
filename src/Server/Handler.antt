-- ===== src/Server/Handler.antt =====
-- src/server.rs, `handle_client_messages`: the two branches of its loop, and how it ends.
use ws_fabric.Prelude.{
  ℕ, Bool, true, false, not, List, [], ◌∷◌, ◌++◌, Option, none, some, length, if◌then◌else◌, nat_eq,
  ◌==◌, retain,
}
use ws_fabric.Prelude.Assoc.{lookup, insert, remove}
use ws_fabric.Error.{Result, ok, err}
use ws_fabric.Float.{F64}
use ws_fabric.Channel.{Mpsc}
use ws_fabric.Message.{Message, len}
use ws_fabric.Socket.{WireMessage, Incoming, Written, to_wire}
use ws_fabric.Metrics.{record_disconnection, record_message_received, record_receive_error}
use ws_fabric.Heartbeat.{handle_ping, handle_pong}
use ws_fabric.Backpressure.{record_send, record_recv}
use ws_fabric.Server.{Server, Channels, started}

-- The number is among the numbers.
abbrev pub has : ℕ → List ℕ → Bool
has k [] = false
has k (j ∷ ks) = if j == k then true else has k ks

abbrev pub without : ℕ → List ℕ → List ℕ
without k ks = retain (λ j. not (j == k)) ks

module _ (f : F64) (q : Mpsc Message) where
  pub record World : Type 0 where
    pub server : Server f
    pub channels : Channels f q
    -- the loop of `start` has not ended
    pub listening : Bool
    -- handlers before the end of their handshake, and the ids of those that read and write
    pub pending : ℕ
    pub handlers : List ℕ
    -- the calls of `ws_stream.send` that succeeded, with their sockets
    pub written : List (ℕ × Written)

  -- A server that reaches the loop of `start`.
  abbrev pub begin : Server f → World
  begin s = record {
    server = started f s;
    channels = [];
    listening = true;
    pending = 0;
    handlers = [];
    written = [];
  }

  abbrev pub dropped : ℕ → Channels f q → Option q.Channel → Channels f q
  dropped id cs none = cs
  dropped id cs (some c) = insert id (q.drop_receiver c) cs

  -- The handler returns, and drops its receiver.
  abbrev pub end_handler : ℕ → World → World
  end_handler id w = record w {
    handlers = without id w.handlers;
    channels = dropped id w.channels (lookup id w.channels);
  }

  -- The code after the loop.
  abbrev pub leave : ℕ → ℕ → World → World
  leave now id w = end_handler id (record w {
    server = record w.server {
      connections = remove id w.server.connections;
      metrics = record_disconnection now w.server.metrics;
    };
  })

  abbrev pub write : ℕ → Written → World → World
  write id m w = record w { written = w.written ++ ((id, m) ∷ []) }

  -- The branch of a message from the channel, from its conversion; `?` leaves the function at once.
  abbrev pub forward_as : ℕ → Bool → Message → Result WireMessage → World → World
  forward_as id writes msg (err e) w = end_handler id w
  forward_as id writes msg (ok wire) w =
      if writes
      then record (write id (Written.forwarded wire) w) {
        server = record w.server { backpressure = record_send f (len msg) w.server.backpressure };
      }
      else end_handler id w

  abbrev pub outgoing_from : ℕ → Bool → World → Option (Message × q.Channel) → World
  outgoing_from id writes w none = w
  outgoing_from id writes w (some (msg, c)) =
      forward_as id writes msg (to_wire msg) (record w { channels = insert id c w.channels })

  abbrev pub outgoing_on : ℕ → Bool → World → Option q.Channel → World
  outgoing_on id writes w none = w
  outgoing_on id writes w (some c) = outgoing_from id writes w (q.recv c)

  abbrev pub outgoing : ℕ → Bool → World → World
  outgoing id writes w = outgoing_on id writes w (lookup id w.channels)

  abbrev pub count_received : ℕ → ℕ → World → World
  count_received now size w = record w {
    server = record w.server {
      metrics = record_message_received now size w.server.metrics;
      backpressure = record_recv f size w.server.backpressure;
    };
  }

  -- The branch of a message from the socket; a pong that cannot be written is dropped.
  abbrev pub incoming : ℕ → ℕ → Bool → Incoming → World → World
  incoming now id writes (Incoming.received (WireMessage.text s)) w =
      count_received now (length s) w
  incoming now id writes (Incoming.received (WireMessage.binary b)) w =
      count_received now (length b) w
  incoming now id writes (Incoming.received (WireMessage.ping b)) w =
      if writes then write id (Written.answered (WireMessage.pong (handle_ping b).payload)) w else w
  incoming now id writes (Incoming.received (WireMessage.pong b)) w = record w {
    server = record w.server { heartbeat = (handle_pong now b w.server.heartbeat).1 };
  }
  incoming now id writes (Incoming.received WireMessage.close) w = leave now id w
  incoming now id writes (Incoming.received WireMessage.frame) w = w
  incoming now id writes Incoming.failed w =
      leave now id
        (record w { server = record w.server { metrics = record_receive_error w.server.metrics } })

  -- No sender is left: the table has none, and what was queued has been received.
  abbrev pub is_drained : Option q.Channel → Bool
  is_drained none = false
  is_drained (some c) = elim (q.recv c) [ none ↦ true | some _ ↦ false ]

  abbrev pub is_orphaned : ℕ → World → Bool
  is_orphaned id w = elim (lookup id w.server.connections) [
    | some _ ↦ false
    | none ↦ is_drained (lookup id w.channels)
  ]

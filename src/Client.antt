-- ===== src/Client.antt =====
-- src/client.rs: a client, and the task that moves its messages to the socket and back. The client
-- is shared by its clones and its tasks; each function here is what one of them does without
-- waiting, and between two of them the others may take their turn. Whether a write to the socket
-- succeeds, what is read from it, and the clock are arguments.
pub mod Silent
pub mod Pinging
pub mod Connect
pub mod Steps
pub mod Order
pub mod Drain
pub mod Blocked
pub mod Lifecycle
pub mod Closing
mod Tests
use ws_fabric.Prelude.{
  ℕ, Bool, true, false, ◌&&◌, not, List, [], ◌∷◌, ◌++◌, Option, none, some, if◌then◌else◌,
}
use ws_fabric.Error.{Error, Result, ok, err}
use ws_fabric.Float.{F64}
use ws_fabric.Channel.{Sending, Mpsc}
use ws_fabric.Message.{Bytes, Message, len}
use ws_fabric.Message.Make.{text, binary, binary_from_slice, close as close_message}
use ws_fabric.Socket.{WireMessage, Incoming, Written, Task, to_wire}
use ws_fabric.Metrics.{
  ConnectionMetrics, new as new_metrics, record_connection, record_disconnection,
  record_message_sent, record_message_received, record_receive_error,
}
use ws_fabric.Heartbeat.{HeartbeatManager, new as new_heartbeat, ping, handle_ping, handle_pong}
use ws_fabric.Backpressure.{
  BackpressureController, new as new_backpressure, can_send, record_send, record_recv,
}
use ws_fabric.Reconnect.{ReconnectState, new as new_reconnect}
use ws_fabric.Config.{ClientConfig}

-- The message of `close`.
abbrev pub close_with : Option Bytes → Message
close_with (some reason) = close_message (some 1000) (some reason)
close_with none = close_message none none

module _ (f : F64) (q : Mpsc Message) where
  -- `WebSocketClient`, with its `ClientState`
  pub record Client : Type 0 where
    pub config : ClientConfig f
    pub connected : Bool
    pub shutdown : Bool
    pub tx : Option q.Channel
    pub metrics : ConnectionMetrics
    pub heartbeat : HeartbeatManager
    pub backpressure : BackpressureController f
    pub reconnect : ReconnectState f

  unfoldable pub new : ℕ → ClientConfig f → Client
  new now c = record {
    config = c;
    connected = true;
    shutdown = false;
    tx = some (q.channel c.backpressure_config.max_buffer_size);
    metrics = record_connection now new_metrics;
    heartbeat = new_heartbeat c.heartbeat_config;
    backpressure = new_backpressure f c.backpressure_config;
    reconnect = new_reconnect f c.reconnect_config;
  }

  -- `connect_with_config`, with whether `connect_async` succeeds; the tasks that it spawns are below.
  unfoldable pub connect_with_config : ℕ → Bool → ClientConfig f → Result Client
  connect_with_config now reached c =
      if reached then ok (new now c) else err Error.connection_failed

  unfoldable pub is_connected : Client → Bool
  is_connected c = c.connected && not c.shutdown

  abbrev pub sent : ℕ → Message → Client → Sending q.Channel → Option (Result (Unit {0}) × Client)
  sent now msg c (Sending.accepted tx) = some (
    ok tt,
    record c {
      tx = some tx;
      metrics = record_message_sent now (len msg) c.metrics;
      backpressure = record_send f (len msg) c.backpressure;
    },
  )
  sent now msg c Sending.waits = none
  sent now msg c Sending.closed = some (err Error.connection_closed, c)

  -- `send` from where the test for backpressure has passed; `none` while it waits for room.
  abbrev pub send_on : ℕ → Message → Client → Option q.Channel → Option (Result (Unit {0}) × Client)
  send_on now msg c none = some (err Error.connection_closed, c)
  send_on now msg c (some tx) = sent now msg c (q.send msg tx)

  unfoldable pub send : ℕ → Message → Client → Option (Result (Unit {0}) × Client)
  send now msg c =
      if can_send f c.backpressure then send_on now msg c c.tx else some (err Error.buffer_full, c)

  abbrev pub send_text : ℕ → Bytes → Client → Option (Result (Unit {0}) × Client)
  send_text now s c = send now (text s) c

  abbrev pub send_binary : ℕ → Bytes → Client → Option (Result (Unit {0}) × Client)
  send_binary now b c = send now (binary_from_slice b) c

  abbrev pub closed : ℕ → Option (Result (Unit {0}) × Client) → Option (Result (Unit {0}) × Client)
  closed now none = none
  closed now (some (err e, c)) = some (err e, c)
  closed now (some (ok _, c)) = some (
    ok tt,
    record c { shutdown = true; connected = false; metrics = record_disconnection now c.metrics },
  )

  unfoldable pub close : ℕ → Option Bytes → Client → Option (Result (Unit {0}) × Client)
  close now reason c = closed now (send now (close_with reason) c)

  -- A turn of `run_heartbeat`: whether it goes on, its send ignored but for a wait.
  abbrev pub beaten : Option (Result (Unit {0}) × Client) → Option (Bool × Client)
  beaten none = none
  beaten (some (r, c)) = some (true, c)

  abbrev pub beat_with : ℕ → Message × HeartbeatManager → Client → Option (Bool × Client)
  beat_with now (msg, h) c = beaten (send now msg (record c { heartbeat = h }))

  unfoldable pub beat : ℕ → Client → Option (Bool × Client)
  beat now c = if is_connected c then beat_with now (ping now c.heartbeat) c else some (false, c)

  -- The task `run` with its client, and the calls of `ws_stream.send` that succeeded.
  pub record Connection : Type 0 where
    pub client : Client
    pub written : List Written
    pub task : Task

  abbrev drop_tx : Option q.Channel → Option q.Channel
  drop_tx none = none
  drop_tx (some tx) = some (q.drop_receiver tx)

  -- The task returns, and drops the receiver.
  abbrev pub finish : Result (Unit {0}) → Connection → Connection
  finish r s = record s {
    client = record s.client { tx = drop_tx s.client.tx };
    task = Task.returned r;
  }

  abbrev pub write : Written → Connection → Connection
  write w s = record s { written = s.written ++ (w ∷ []) }

  -- The branch of a message from the channel, from its conversion.
  abbrev pub forward_as : Bool → Message → Result WireMessage → Connection → Connection
  forward_as writes msg (err e) s = finish (err e) s
  forward_as writes msg (ok w) s =
      if writes
      then record (write (Written.forwarded w) s) {
        client = record s.client { backpressure = record_send f (len msg) s.client.backpressure };
      }
      else finish (err Error.connection_failed) s

  abbrev pub forward : Bool → Message → Connection → Connection
  forward writes msg s = forward_as writes msg (to_wire msg) s

  -- `rx.recv()`, whose answer `None` never comes: the client holds a sender as long as the task runs.
  abbrev pub outgoing_from : Bool → Option (Message × q.Channel) → Connection → Connection
  outgoing_from writes none s = s
  outgoing_from writes (some (msg, tx)) s =
      forward writes msg (record s { client = record s.client { tx = some tx } })

  abbrev pub outgoing_on : Bool → Option q.Channel → Connection → Connection
  outgoing_on writes none s = s
  outgoing_on writes (some tx) s = outgoing_from writes (q.recv tx) s

  abbrev pub outgoing : Bool → Connection → Connection
  outgoing writes s = outgoing_on writes s.client.tx s

  abbrev pub count_received : ℕ → Message → Client → Client
  count_received now msg c = record c {
    metrics = record_message_received now (len msg) c.metrics;
    backpressure = record_recv f (len msg) c.backpressure;
  }

  -- The branch of a message from the socket; a pong that cannot be written is dropped.
  abbrev pub incoming : ℕ → Bool → Incoming → Connection → Connection
  incoming now writes (Incoming.received (WireMessage.text s)) t = record t {
    client = count_received now (text s) t.client;
  }
  incoming now writes (Incoming.received (WireMessage.binary b)) t = record t {
    client = count_received now (binary b) t.client;
  }
  incoming now writes (Incoming.received (WireMessage.ping b)) t =
      if writes then write (Written.answered (WireMessage.pong (handle_ping b).payload)) t else t
  incoming now writes (Incoming.received (WireMessage.pong b)) t = record t {
    client = record t.client { heartbeat = (handle_pong now b t.client.heartbeat).1 };
  }
  incoming now writes (Incoming.received WireMessage.close) t = finish (ok tt) (record t {
    client = record t.client { metrics = record_disconnection now t.client.metrics };
  })
  incoming now writes (Incoming.received WireMessage.frame) t = t
  incoming now writes Incoming.failed t =
      finish (err Error.web_socket)
        (record t { client = record t.client { metrics = record_receive_error t.client.metrics } })

-- ===== src/Server.antt =====
-- src/server.rs: the server, its table of connections, and the tasks that handle them. The state is
-- shared by all of them; each function here is what one of them does without waiting. The sender of
-- a `ConnectedClient` is the number of its channel; the ids that `Uuid::new_v4` makes, what sockets
-- do and the clock are arguments.
pub mod Handler
pub mod Steps
mod Tests
pub mod Limit
pub mod Listening
pub mod Race
pub mod Delivery
pub mod Broadcast
pub mod Shutdown
pub mod Alive
pub mod Listed
pub mod Leak
pub mod Leaked
pub mod Gauge
pub mod Queries
use ws_fabric.Prelude.{
  ℕ, ◌+◌, ◌-◌, Bool, true, false, not, List, [], ◌∷◌, ◌++◌, map, Option, none, some, length, ltb,
  leb, if◌then◌else◌, Text, nat_eq, ◌=?◌, retain,
}
use ws_fabric.Prelude.Assoc.{lookup, insert, remove}
use ws_fabric.Error.{Error, Result, ok, err}
use ws_fabric.Float.{F64}
use ws_fabric.Channel.{Sending, Mpsc}
use ws_fabric.Message.{Bytes, Message, len}
use ws_fabric.Message.Make.{text, binary_from_slice, close as close_message}
use ws_fabric.Socket.{WireMessage, Incoming, Written, to_wire}
use ws_fabric.Metrics.{
  ConnectionMetrics, new as new_metrics, record_connection, record_connection_error,
  record_message_sent,
}
use ws_fabric.Heartbeat.{HeartbeatManager, new as new_heartbeat, is_alive}
use ws_fabric.Backpressure.{BackpressureController, new as new_backpressure}
use ws_fabric.Config.Server.{ServerConfig}

pub record ConnectedClient : Type 0 where
  pub id : ℕ
  pub tx : ℕ
  pub remote_addr : Text

abbrev pub values : List (ℕ × ConnectedClient) → List ConnectedClient
values m = map (λ e. e.1) m

abbrev pub new_client : ℕ → Text → ConnectedClient
new_client id addr = record { id = id; tx = id; remote_addr = addr }

abbrev pub server_shutdown : Bytes
server_shutdown =
    b'S' ∷ b'e' ∷ b'r' ∷ b'v' ∷ b'e' ∷ b'r' ∷ b' ' ∷ b's' ∷ b'h' ∷ b'u' ∷ b't' ∷ b'd' ∷ b'o' ∷ b'w'
    ∷ b'n' ∷ []

-- The message of `shutdown`.
abbrev pub goodbye : Message
goodbye = close_message (some 1000) (some server_shutdown)

-- What follows what need not wait.
abbrev and_then {ℓ κ} : {A : Type ℓ} {B : Type κ} → Option A → (A → Option B) → Option B
and_then none next = none
and_then (some a) next = next a

module _ (f : F64) where
  -- `WebSocketServer`, with its `ServerState`
  pub record Server : Type 0 where
    pub config : ServerConfig
    pub running : Bool
    pub connections : List (ℕ × ConnectedClient)
    -- the sender that is stored, with the number of signals that its channel holds
    pub shutdown_tx : Option ℕ
    pub metrics : ConnectionMetrics
    pub heartbeat : HeartbeatManager
    pub backpressure : BackpressureController f

  unfoldable pub new : ServerConfig → Server
  new c = record {
    config = c;
    running = false;
    connections = [];
    shutdown_tx = none;
    metrics = new_metrics;
    heartbeat =
        new_heartbeat (record {
          enabled = true;
          ping_interval = c.ping_interval;
          ping_timeout = c.ping_timeout;
        });
    backpressure = new_backpressure f (record {
      enabled = true;
      max_buffer_size = c.buffer_size;
      backpressure_threshold = f.div (f.of_ℕ 4) (f.of_ℕ 5);
      recovery_threshold = f.div (f.of_ℕ 3) (f.of_ℕ 5);
    });
  }

  -- With a new channel that holds no signal.
  abbrev pub started : Server → Server
  started s = record s { running = true; shutdown_tx = some 0 }

  -- `start` up to its loop, with whether the address could be bound.
  unfoldable pub start : Bool → Server → Result (Unit {0}) × Server
  start bound s = if bound then (ok tt, started s) else (err Error.connection_failed, s)

  -- `accept` is not implemented.
  unfoldable pub accept : Server → Result ConnectedClient
  accept s = err Error.not_supported

  abbrev pub clients : Server → List ConnectedClient
  clients s = values s.connections

  abbrev pub connection_count : Server → ℕ
  connection_count s = length s.connections

  abbrev pub get_client : ℕ → Server → Option ConnectedClient
  get_client id s = lookup id s.connections

  abbrev pub is_running : Server → Bool
  is_running s = s.running

  -- A turn of `run_heartbeat`: whether it goes on, and the clients that it warns of.
  abbrev pub beat : ℕ → Server → Bool × List ConnectedClient
  beat now s =
      if is_running s
      then (true, retain (λ c. not (is_alive now s.heartbeat)) (clients s))
      else (false, [])

  -- A connection that the loop of `start` has accepted: whether a handler is spawned for it.
  abbrev pub admit : Server → Bool × Server
  admit s =
      if leb s.config.max_connections (connection_count s)
      then (false, record s { metrics = record_connection_error s.metrics })
      else (true, s)

  abbrev pub accept_failed : Server → Server
  accept_failed s = record s { metrics = record_connection_error s.metrics }

  -- The rest of `handle_connection`, once the handshake has succeeded.
  abbrev pub handle_connection : ℕ → ℕ → Text → Server → Server
  handle_connection now id addr s = record s {
    connections = insert id (new_client id addr) s.connections;
    metrics = record_connection now s.metrics;
  }

  module _ (q : Mpsc Message) where
    abbrev pub Channels : Type 0
    Channels = List (ℕ × q.Channel)

    abbrev pub sending : ℕ → Channels → Sending q.Channel → Sending Channels
    sending tx cs (Sending.accepted d) = Sending.accepted (insert tx d cs)
    sending tx cs Sending.waits = Sending.waits
    sending tx cs Sending.closed = Sending.closed

    abbrev pub send_in : ℕ → Message → Channels → Option q.Channel → Sending Channels
    send_in tx msg cs none = Sending.closed
    send_in tx msg cs (some c) = sending tx cs (q.send msg c)

    -- `ConnectedClient::send`
    unfoldable pub send : ConnectedClient → Message → Channels → Sending Channels
    send client msg cs = send_in client.tx msg cs (lookup client.tx cs)

    abbrev pub send_text : ConnectedClient → Bytes → Channels → Sending Channels
    send_text client s cs = send client (text s) cs

    abbrev pub send_binary : ConnectedClient → Bytes → Channels → Sending Channels
    send_binary client b cs = send client (binary_from_slice b) cs

    -- How many were sent, the metrics, and the channels.
    abbrev pub Sent : Type 0
    Sent = ℕ × ConnectionMetrics × Channels

    abbrev pub counted : ℕ → Message → Sent → Sending Channels → Option Sent
    counted now msg (n, m, cs) (Sending.accepted cs') =
        some (n + 1, record_message_sent now (len msg) m, cs')
    counted now msg (n, m, cs) Sending.waits = none
    counted now msg (n, m, cs) Sending.closed = some (n, m, cs)

    -- The loop of `broadcast`; `none` while it waits for room in a channel.
    unfoldable pub broadcast_to : ℕ → Message → List ConnectedClient → Sent → Option Sent
    broadcast_to now msg [] sent = some sent
    broadcast_to now msg (client ∷ rest) sent =
        and_then (counted now msg sent (send client msg sent.2)) (broadcast_to now msg rest)

    abbrev pub sent_of : Server → Option Sent → Option (Result ℕ × Server × Channels)
    sent_of s none = none
    sent_of s (some (n, m, cs)) = some (ok n, record s { metrics = m }, cs)

    unfoldable pub broadcast :
        ℕ → Message → Server → Channels → Option (Result ℕ × Server × Channels)
    broadcast now msg s cs = sent_of s (broadcast_to now msg (clients s) (0, s.metrics, cs))

    abbrev pub broadcast_text :
        ℕ → Bytes → Server → Channels → Option (Result ℕ × Server × Channels)
    broadcast_text now t s cs = broadcast now (text t) s cs

    abbrev pub broadcast_binary :
        ℕ → Bytes → Server → Channels → Option (Result ℕ × Server × Channels)
    broadcast_binary now b s cs = broadcast now (binary_from_slice b) s cs

    abbrev pub told : Channels → Sending Channels → Option Channels
    told cs (Sending.accepted cs') = some cs'
    told cs Sending.waits = none
    told cs Sending.closed = some cs

    -- The loop of `shutdown`.
    unfoldable pub say_goodbye : List ConnectedClient → Channels → Option Channels
    say_goodbye [] cs = some cs
    say_goodbye (client ∷ rest) cs = and_then (told cs (send client goodbye cs)) (say_goodbye rest)

    -- The first critical section of `shutdown`: the clients that were connected, and the rest.
    abbrev pub shut : Server → List ConnectedClient × Server
    shut s = (clients s, record s { connections = []; running = false })

    abbrev pub shut_with : Server → Option Channels → Option (Server × Channels)
    shut_with s none = none
    shut_with s (some cs) = some (s, cs)

    -- `shutdown`; `none` while it waits for room in a channel.
    unfoldable pub shutdown : Server → Channels → Option (Server × Channels)
    shutdown s cs = shut_with (shut s).1 (say_goodbye (shut s).0 cs)

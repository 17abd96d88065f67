-- ===== src/Server/Tests.antt =====
-- src/server.rs: a server with at most one connection, and one with two clients of which one has
-- gone.
use ws_fabric.Prelude.{
  ℕ, ◌+◌, ◌%◌, ◌^◌, ◌≤◌, ◌<◌, ◌≡◌, refl, arith, true, false, List, [], ◌∷◌, ◌++◌, some, nat_eq,
}
use ws_fabric.Prelude.Assoc.{lookup}
use ws_fabric.Error.{ok}
use ws_fabric.Float.Rationals.{rationals}
use ws_fabric.Channel.{Sending, Mpsc}
use ws_fabric.Channel.Fifo.{Queue, fifo}
use ws_fabric.Message.{Message, MessageType}
use ws_fabric.Socket.{WireMessage, Incoming}
use ws_fabric.Metrics.{ConnectionMetrics}
use ws_fabric.Heartbeat.{is_alive}
use ws_fabric.Config.Server.{ServerConfig, new as new_config, with_max_connections}
use ws_fabric.Server.{
  Server, Channels, new, new_client, clients, connection_count, get_client, send, broadcast,
  shutdown, say_goodbye, broadcast_to, goodbye, beat,
}
use ws_fabric.Server.Handler.{World, begin, has}
use ws_fabric.Server.Steps.{Step, step, run}
use ws_fabric.Server.Limit.{AreAlone, run-sequential}
use ws_fabric.Server.Race.{flood, run-flood}
use ws_fabric.Server.Delivery.{HasRoom, queue_at, reached}
use ws_fabric.Server.Broadcast.{gained, broadcast_lem}
use ws_fabric.Server.Shutdown.{
  channels_of, say_goodbye-broadcast_to, shutdown_lem, run-after_shutdown, after_shutdown,
}
use ws_fabric.Server.Alive.{run-alive}
use ws_fabric.Server.Listed.{AreListed, run-AreListed}
use ws_fabric.Server.Leaked.{run-leaked}
use ws_fabric.Server.Gauge.{AreFresh, run-counts}

abbrev messages : Mpsc Message
messages = fifo Message

abbrev config : ServerConfig
config = with_max_connections 1 (new_config [])

abbrev hi : Message
hi = record { msg_type = MessageType.binary; payload = b'h' ∷ b'i' ∷ [] }

abbrev start : World rationals messages
start = begin rationals messages (new rationals config)

abbrev one_by_one : List Step
one_by_one =
    Step.accepts
    ∷ Step.handshakes 1 7 []
    ∷ Step.accepts
    ∷ Step.handshakes 2 8 []
    ∷ Step.reads 3 7 true (Incoming.received (WireMessage.pong (1 ∷ [])))
    ∷ Step.writes 7 true
    ∷ []

alone : AreAlone rationals messages one_by_one start
unfolding new
alone = (refl, (tt, (refl, (tt, (tt, (tt, tt))))))

run-sequential_example :
    connection_count rationals (run rationals messages one_by_one start).server
    ≤ (run rationals messages one_by_one start).server.config.max_connections
run-sequential_example = run-sequential rationals messages config one_by_one alone

run-flood_example : connection_count rationals (run rationals messages (flood 5) start).server ≡ 5
run-flood_example = run-flood rationals messages config 5 (omega arith)

run-alive_example :
    (is_alive 1000000000000 (run rationals messages one_by_one start).server.heartbeat ≡ true)
    × ((beat rationals 1000000000000 (run rationals messages one_by_one start).server).1 ≡ [])
run-alive_example = run-alive rationals messages config one_by_one 1000000000000 refl

-- Two clients; the receiver of the second is gone.
abbrev full : Queue Message
full = record { queued = hi ∷ []; capacity = 3; is_open = true }

abbrev gone : Queue Message
gone = record { queued = []; capacity = 3; is_open = false }

abbrev two : Server rationals
two = record (new rationals config) {
  running = true;
  connections = (1, new_client 1 []) ∷ (2, new_client 2 []) ∷ [];
}

abbrev channels : Channels rationals messages
channels = (1, full) ∷ (2, gone) ∷ []

abbrev world : World rationals messages
world = record {
  server = two;
  channels = channels;
  listening = true;
  pending = 0;
  handlers = 1 ∷ [];
  written = [];
}

abbrev later_steps : List Step
later_steps =
    Step.accepts ∷ Step.delivers 4 (new_client 1 []) hi ∷ Step.reads 5 1 true Incoming.failed ∷ []

finds_client : lookup 1 two.connections ≡ some (new_client 1 [])
unfolding lookup
finds_client = refl

finds_channel : lookup 1 channels ≡ some full
unfolding lookup
finds_channel = refl

abbrev after : World rationals messages
after = run rationals messages (Step.writes 1 false ∷ later_steps) world

run-leaked_example :
    (get_client rationals 1 after.server ≡ some (new_client 1 []))
    × (has 1 after.handlers ≡ false)
    × (send rationals messages (new_client 1 []) hi after.channels ≡ Sending.closed)
run-leaked_example =
    run-leaked rationals messages 1 (new_client 1 []) world full
      (record { queued = []; capacity = 3; is_open = true }) hi hi later_steps refl finds_client
      refl finds_channel refl refl

room : HasRoom rationals messages (clients rationals two) channels
unfolding lookup
room t shown = ground (arith, shown)

broadcast_lem_example :
    (mt : ConnectionMetrics) × (cs' : Channels rationals messages) × (broadcast rationals messages 9
        hi two channels
      ≡ some (
        ok (reached rationals messages (clients rationals two) channels),
        record two { metrics = mt },
        cs',
      ))
    × (mt.messages_sent % 2 ^ 64
        ≡ (two.metrics.messages_sent + reached rationals messages (clients rationals two) channels)
          % 2 ^ 64)
    × ((t : ℕ)
        → queue_at rationals messages t cs'
          ≡ queue_at rationals messages t channels
            ++ gained rationals messages t hi (clients rationals two) channels)
broadcast_lem_example = broadcast_lem rationals messages 9 hi two channels room

shutdown_lem_example :
    (cs' : Channels rationals messages) × (shutdown rationals messages two channels
      ≡ some (record two { connections = []; running = false }, cs'))
    × ((t : ℕ)
        → queue_at rationals messages t cs'
          ≡ queue_at rationals messages t channels
            ++ gained rationals messages t goodbye (clients rationals two) channels)
shutdown_lem_example = shutdown_lem rationals messages two channels room

-- A client comes, the server is shut down, and it fails to accept once.
abbrev before_shutdown : List Step
before_shutdown = Step.accepts ∷ Step.handshakes 1 7 [] ∷ []

abbrev shut_down : World rationals messages
shut_down =
    after_shutdown rationals messages (new rationals config) before_shutdown
      (Step.accept_fails ∷ Step.stops ∷ [])

has_room : connection_count rationals shut_down.server < shut_down.server.config.max_connections
unfolding run new
has_room = omega arith

run-after_shutdown_example :
    (shut_down.server.running ≡ false)
    × (shut_down.listening ≡ true)
    × (step rationals messages Step.stops shut_down ≡ shut_down)
    × (get_client rationals 3
          (step rationals messages
            (Step.handshakes 6 3 [])
            (step rationals messages Step.accepts shut_down)).server
        ≡ some (new_client 3 []))
run-after_shutdown_example =
    run-after_shutdown rationals messages (new rationals config) before_shutdown
      (Step.accept_fails ∷ Step.stops ∷ []) 6 3 [] has_room

say_goodbye-broadcast_to_example :
    say_goodbye rationals messages (clients rationals two) channels
    ≡ channels_of rationals messages (
        broadcast_to rationals messages 9 goodbye
          (clients rationals two)
          (0, two.metrics, channels))
say_goodbye-broadcast_to_example =
    say_goodbye-broadcast_to rationals messages 9 (clients rationals two) (0, two.metrics, channels)

run-AreListed_example : AreListed rationals messages (run rationals messages one_by_one start)
run-AreListed_example = run-AreListed rationals messages config one_by_one refl

-- A client that connects and closes.
abbrev visit : List Step
visit =
    Step.accepts
    ∷ Step.handshakes 1 7 []
    ∷ Step.writes 7 true
    ∷ Step.reads 2 7 true (Incoming.received WireMessage.close)
    ∷ []

fresh : AreFresh rationals messages visit start
unfolding new lookup
fresh = (tt, (refl, (tt, (tt, tt))))

abbrev settled : Server rationals
settled = (run rationals messages visit start).server

run-counts_example :
    (settled.metrics.active_connections ≡ connection_count rationals settled)
    × (settled.metrics.total_connections
        ≡ settled.metrics.disconnections + connection_count rationals settled)
run-counts_example = run-counts rationals messages config visit refl (omega arith) fresh

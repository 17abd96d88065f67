-- ===== src/Client/Tests.antt =====
-- src/client.rs: a client that sends two messages to a server that pings and closes.
use ws_fabric.Prelude.{◌≡◌, refl, arith, true, false, List, [], ◌∷◌, none, some}
use ws_fabric.Error.{Error, ok, err}
use ws_fabric.Float.Rationals.{rationals}
use ws_fabric.Channel.{Mpsc}
use ws_fabric.Channel.Fifo.{fifo}
use ws_fabric.Message.{Message, MessageType}
use ws_fabric.Message.Make.{as_text, close as close_message}
use ws_fabric.Message.Utf8.{is_utf8}
use ws_fabric.Metrics.{record_message_sent, record_disconnection}
use ws_fabric.Socket.{WireMessage, Incoming, Task, to_wire}
use ws_fabric.Backpressure.{new as new_backpressure, can_send, is_backpressure_active, record_send}
use ws_fabric.Config.{ClientConfig, new as new_config, with_backpressure_config}
use ws_fabric.Client.{Client, Connection, close_with, new, send, close, is_connected, beat}
use ws_fabric.Client.Steps.{Step, Trace, start, run}
use ws_fabric.Client.Order.{IsInOrder, in_order, run-IsInOrder}
use ws_fabric.Client.Drain.{Runs, drain, drain_lem}
use ws_fabric.Client.Blocked.{run-blocked}
use ws_fabric.Client.Lifecycle.{refusal, ended_lem}
use ws_fabric.Client.Closing.{ClosesTo, close_lem}

abbrev messages : Mpsc Message
messages = fifo Message

-- Room for two messages, and backpressure above one byte.
abbrev config : ClientConfig rationals
config =
    with_backpressure_config rationals
      (record {
        enabled = true;
        max_buffer_size = 2;
        backpressure_threshold = (4, 5);
        recovery_threshold = (3, 5);
      })
      (new_config rationals (b'u' ∷ []))

abbrev hi : Message
hi = record { msg_type = MessageType.text; payload = b'h' ∷ b'i' ∷ [] }

abbrev blob : Message
blob = record { msg_type = MessageType.binary; payload = 255 ∷ [] }

abbrev steps : List Step
steps =
    Step.sends 1 hi
    ∷ Step.sends 2 blob
    ∷ Step.writes true
    ∷ Step.reads 3 true (Incoming.received (WireMessage.ping (7 ∷ [])))
    ∷ Step.writes true
    ∷ []

abbrev begun : Trace rationals messages
begun = start rationals messages (new rationals messages 0 config)

-- One message is queued, the other was written.
abbrev halfway : Connection rationals messages
halfway = record {
  client = record (new rationals messages 0 config) {
    tx = some (record { queued = hi ∷ blob ∷ []; capacity = 2; is_open = true });
  };
  written = [];
  task = Task.running;
}

both_convert :
    (to_wire hi ≡ ok (WireMessage.text hi.payload))
    × (to_wire blob ≡ ok (WireMessage.binary (255 ∷ [])))
unfolding to_wire as_text is_utf8
both_convert = (refl, refl)

run-IsInOrder_example :
    IsInOrder rationals messages
      (run rationals messages steps (start rationals messages (new rationals messages 0 config)))
run-IsInOrder_example = run-IsInOrder rationals messages 0 config steps (omega arith)

drain_lem_example :
    (in_order (drain rationals messages 2 halfway).written [] ≡ in_order [] (hi ∷ blob ∷ []))
    × ((d : messages.Channel) × Runs rationals messages d (drain rationals messages 2 halfway)
        × (messages.queued d ≡ []))
drain_lem_example =
    drain_lem rationals messages (hi ∷ blob ∷ []) halfway
      (record { queued = hi ∷ blob ∷ []; capacity = 2; is_open = true }) (refl, refl) refl
      ((_, both_convert.0), ((_, both_convert.1), tt))

-- Above the limit, with nothing queued.
abbrev loaded : Trace rationals messages
loaded = (
  [],
  record halfway {
    client = record (new rationals messages 0 config) {
      backpressure = record { config = config.backpressure_config; current_size = 4 };
    };
  },
)

run-blocked_example :
    (send rationals messages 9 hi (run rationals messages steps loaded).1.client
      ≡ some (err Error.buffer_full, (run rationals messages steps loaded).1.client))
    × (close rationals messages 9 none (run rationals messages steps loaded).1.client
        ≡ some (err Error.buffer_full, (run rationals messages steps loaded).1.client))
unfolding new
run-blocked_example =
    run-blocked rationals messages steps loaded 9 hi none refl (refl, omega arith, omega arith)

-- The server closes first.
abbrev ended : Trace rationals messages
ended =
    run rationals messages (Step.reads 5 true (Incoming.received WireMessage.close) ∷ steps) begun

ended_lem_example :
    (is_connected rationals messages ended.1.client
      ≡ is_connected rationals messages begun.1.client)
    × (send rationals messages 6 hi ended.1.client
        ≡ some (err (refusal rationals messages ended.1.client), ended.1.client))
ended_lem_example =
    ended_lem rationals messages steps begun 5 6 true (Incoming.received WireMessage.close) hi refl
      refl refl

-- What `close` leaves.
abbrev closed_client : Client rationals messages
closed_client = record begun.1.client {
  shutdown = true;
  connected = false;
  tx = some (record { queued = close_with none ∷ []; capacity = 2; is_open = true });
  metrics = record_disconnection 4 (record_message_sent 4 0 begun.1.client.metrics);
  backpressure = record_send rationals 0 begun.1.client.backpressure;
}

closes : close rationals messages 4 none begun.1.client ≡ some (ok tt, closed_client)
unfolding close send new new_backpressure can_send is_backpressure_active close_message
closes = refl

abbrev after : Trace rationals messages
after = run rationals messages steps (begun.0, record begun.1 { client = closed_client })

close_lem_example :
    ClosesTo rationals messages none begun.1.client (ok tt) closed_client
    × (is_connected rationals messages after.1.client ≡ false)
    × (beat rationals messages 8 after.1.client ≡ some (false, after.1.client))
close_lem_example = close_lem rationals messages 4 8 none begun closed_client steps closes

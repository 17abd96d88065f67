-- ===== src/Pool/Dead/Tests.antt =====
-- src/pool.rs with src/client.rs: a connection whose server closes it, in a pool of one.
use ws_fabric.Prelude.{◌≡◌, refl, arith, true, false, [], ◌∷◌, some, Text}
use ws_fabric.Error.{err}
use ws_fabric.Float.Rationals.{rationals}
use ws_fabric.Channel.{Mpsc}
use ws_fabric.Channel.Fifo.{fifo}
use ws_fabric.Message.{Message, MessageType}
use ws_fabric.Socket.{WireMessage, Incoming}
use ws_fabric.Config.{new as new_config}
use ws_fabric.Client.{new, send, is_connected}
use ws_fabric.Client.Steps.{Step, Trace, start}
use ws_fabric.Client.Lifecycle.{refusal}
use ws_fabric.Pool.Server.{ServerPool, Acquired, new_server, new_connection, reuse}
use ws_fabric.Pool.Dead.{Round, IsNext, gone, answers, circulate, dead_circulates}

abbrev messages : Mpsc Message
messages = fifo Message

abbrev hi : Message
hi = record { msg_type = MessageType.binary; payload = b'h' ∷ b'i' ∷ [] }

abbrev begun : Trace rationals messages
begun = start rationals messages (new rationals messages 0 (new_config rationals (b'u' ∷ [])))

abbrev closing : Step
closing = Step.reads 1 true (Incoming.received WireMessage.close)

abbrev first_id : Text
first_id = 1 ∷ []

abbrev pool : ServerPool
pool = record (new_server []) { available = new_connection 0 7 first_id [] ∷ []; total_created = 1 }

abbrev round : Round
round = record {
  others = λ i. false;
  steps = Step.sends 2 hi ∷ Step.pings 3 ∷ [];
  now = 4;
  later = 5;
}

pool-IsNext : IsNext 10 7 first_id pool
pool-IsNext = record {
  front = [];
  last = new_connection 0 7 first_id [];
  available = refl;
  same = (refl, refl);
  free = refl;
  within = omega arith;
}

begun-up : is_connected rationals messages begun.1.client ≡ true
unfolding new is_connected
begun-up = refl

dead_circulates_example :
    ((reuse
        (answers rationals messages closing begun 7 round)
        4
        10
        (circulate rationals messages closing begun 7 10 first_id (round ∷ round ∷ []) pool)).0
      ≡ Acquired.handed 7 first_id)
    × (send rationals messages 6 hi (gone rationals messages closing begun round).1.client
        ≡ some (
          err (refusal rationals messages (gone rationals messages closing begun round).1.client),
          (gone rationals messages closing begun round).1.client,
        ))
dead_circulates_example =
    dead_circulates rationals messages begun 1 true (Incoming.received WireMessage.close) 10 7
      first_id (round ∷ round ∷ []) round pool 6 hi refl refl begun-up refl refl pool-IsNext

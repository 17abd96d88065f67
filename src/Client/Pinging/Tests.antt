-- ===== src/Client/Pinging/Tests.antt =====
-- src/client.rs with src/server.rs: the first ping of a new client.
use ws_fabric.Prelude.{ℕ, ◌+◌, ◌^◌, ◌<◌, ◌≡◌, refl, arith, true, List, [], ◌∷◌, ◌++◌, some}
use ws_fabric.Float.Rationals.{rationals}
use ws_fabric.Channel.{Mpsc}
use ws_fabric.Channel.Fifo.{Queue, fifo}
use ws_fabric.Message.{Message}
use ws_fabric.Socket.{WireMessage, Incoming, Written, Task}
use ws_fabric.Backpressure.{can_send, new as new_backpressure, is_backpressure_active}
use ws_fabric.Heartbeat.{is_alive, new as new_heartbeat}
use ws_fabric.Config.{new as new_config}
use ws_fabric.Config.Server.{new as new_server_config}
use ws_fabric.Client.{Client, Connection, new, is_connected, beat, incoming}
use ws_fabric.Client.Pinging.{number_of, pinged, after_ping, ping-answered}
use ws_fabric.Server.{new as new_server}
use ws_fabric.Server.Handler.{World, begin, incoming as server_incoming}

abbrev messages : Mpsc Message
messages = fifo Message

abbrev client : Client rationals messages
client = new rationals messages 0 (new_config rationals (b'u' ∷ []))

abbrev connection : Connection rationals messages
connection = record { client = client; written = []; task = Task.running }

abbrev world : World rationals messages
world = begin rationals messages (new_server rationals (new_server_config []))

abbrev number : List ℕ
number = number_of client.heartbeat

abbrev answered : (d : Queue Message) → Client rationals messages
answered d =
    (incoming rationals messages 4 true (Incoming.received (WireMessage.pong number))
      (after_ping rationals messages 2 d connection)).client

abbrev empty : Queue Message
empty = record { queued = []; capacity = 1000; is_open = true }

up : is_connected rationals messages client ≡ true
unfolding new is_connected
up = refl

clear : can_send rationals client.backpressure ≡ true
unfolding new can_send is_backpressure_active new_backpressure
clear = refl

open_tx : client.tx ≡ some empty
unfolding new
open_tx = refl

few : client.heartbeat.ping_count + 1 < 2 ^ 64
unfolding new new_heartbeat
few = omega arith

positive : 0 < client.heartbeat.config.ping_timeout
unfolding new new_heartbeat
positive = omega arith

ping-answered_example :
    (d : Queue Message) × (beat rationals messages 2 client
      ≡ some (true, pinged rationals messages 2 d client))
    × ((after_ping rationals messages 2 d connection).written
        ≡ [] ++ (Written.forwarded (WireMessage.ping number) ∷ []))
    × ((server_incoming rationals messages 3 9 true
          (Incoming.received (WireMessage.ping number))
          world).written
        ≡ [] ++ ((9, Written.answered (WireMessage.pong number)) ∷ []))
    × ((answered d).heartbeat.missed_pings ≡ 0)
    × (is_alive 4 (answered d).heartbeat ≡ true)
ping-answered_example =
    ping-answered rationals messages 2 3 4 9 connection world empty up clear open_tx refl refl
      (omega arith) few positive

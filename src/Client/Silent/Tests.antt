-- ===== src/Client/Silent/Tests.antt =====
-- src/client.rs with src/heartbeat.rs: a new client that sends and pings, and is not answered.
use ws_fabric.Prelude.{◌+◌, ◌<◌, ◌≡◌, ◌≢◌, refl, arith, true, false, List, [], ◌∷◌, some, none}
use ws_fabric.Float.Rationals.{rationals}
use ws_fabric.Channel.{Mpsc}
use ws_fabric.Channel.Fifo.{fifo}
use ws_fabric.Message.{Message}
use ws_fabric.Message.Make.{text}
use ws_fabric.Heartbeat.{is_alive, new as new_heartbeat}
use ws_fabric.Config.{new as new_config}
use ws_fabric.Client.{Client, new, is_connected, beat}
use ws_fabric.Client.Steps.{Step, Trace, start, step, run}
use ws_fabric.Client.Silent.{silent_lem}

abbrev messages : Mpsc Message
messages = fifo Message

abbrev client : Client rationals messages
client = new rationals messages 0 (new_config rationals (b'u' ∷ []))

abbrev begun : Trace rationals messages
begun = start rationals messages client

abbrev steps : List Step
steps =
    Step.sends 1 (text (b'h' ∷ []))
    ∷ Step.pings 2
    ∷ Step.writes true
    ∷ Step.pings 3
    ∷ Step.writes true
    ∷ []

abbrev after : Trace rationals messages
after = run rationals messages steps begun

up : is_connected rationals messages begun.1.client ≡ true
unfolding new is_connected
up = refl

no_pong : begun.1.client.heartbeat.last_pong ≡ none
unfolding new new_heartbeat
no_pong = refl

early : 7 < 4 + begun.1.client.heartbeat.config.ping_timeout
unfolding new new_heartbeat
early = omega arith

silent_lem_example :
    (is_connected rationals messages after.1.client ≡ true)
    × (after.1.client.heartbeat.missed_pings ≡ begun.1.client.heartbeat.missed_pings)
    × (beat rationals messages 4 after.1.client ≢ some (false, client))
    × (is_alive 7 (step rationals messages (Step.pings 4) after).1.client.heartbeat ≡ true)
silent_lem_example =
    silent_lem rationals messages steps begun 4 7 client refl up no_pong (omega arith) early

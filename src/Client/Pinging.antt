-- ===== src/Client/Pinging.antt =====
-- src/client.rs with src/server.rs and src/heartbeat.rs: a ping of the client's heartbeat, the
-- server's answer to it, and what the client makes of that.
mod Tests
use ws_fabric.Prelude.{
  ℕ, ◌+◌, ◌^◌, ◌<◌, ◌≡◌, refl, ap, sym, subst, ◌∙◌, Bool, true, false, List, [], ◌∷◌, ◌++◌, Option,
  none, some, arith, length,
}
use ws_fabric.Error.{Result, ok}
use ws_fabric.Float.{F64}
use ws_fabric.Channel.{Sending, Mpsc}
use ws_fabric.Message.{Bytes, Message, MessageType, len}
use ws_fabric.Message.Make.{ping as ping_message, pong as pong_message}
use ws_fabric.Metrics.{record_message_sent}
use ws_fabric.Socket.{WireMessage, Incoming, Written, Task, to_wire}
use ws_fabric.Backpressure.{can_send, record_send}
use ws_fabric.Heartbeat.{
  HeartbeatManager, ping, handle_ping, handle_pong, accept, is_alive, handle_pong-handle_ping,
}
use ws_fabric.Heartbeat.Words.{to_be_bytes}
use ws_fabric.Client.{Client, Connection, send, is_connected, beat, outgoing, incoming}
use ws_fabric.Server.Handler.{World, incoming as server_incoming}

-- The number that the next ping carries.
abbrev pub number_of : HeartbeatManager → Bytes
number_of h = to_be_bytes 8 h.ping_count

module _ (f : F64) (q : Mpsc Message) where
  abbrev pub with_sent : ℕ → Message → q.Channel → Client f q → Client f q
  with_sent now m tx c = record c {
    tx = some tx;
    metrics = record_message_sent now (len m) c.metrics;
    backpressure = record_send f (len m) c.backpressure;
  }

  send_accepted :
      (now : ℕ) (m : Message) (c : Client f q) (tx d : q.Channel)
      → can_send f c.backpressure ≡ true
      → c.tx ≡ some tx
      → q.send m tx ≡ Sending.accepted d
      → send f q now m c ≡ some (ok tt, with_sent now m d c)
  unfolding send
  send_accepted now m c tx d clear e accepted = rw (clear, e, accepted) refl

  -- The client after a turn of its heartbeat that has sent a ping.
  abbrev pub pinged : ℕ → q.Channel → Client f q → Client f q
  pinged now tx c =
      with_sent now (ping now c.heartbeat).0 tx (record c { heartbeat = (ping now c.heartbeat).1 })

  beat_sends :
      (now : ℕ) (c : Client f q) (tx d : q.Channel)
      → is_connected f q c ≡ true
      → can_send f c.backpressure ≡ true
      → c.tx ≡ some tx
      → q.send (ping now c.heartbeat).0 tx ≡ Sending.accepted d
      → beat f q now c ≡ some (true, pinged now d c)
  unfolding beat
  beat_sends now c tx d up clear e accepted =
      rw
        (
          up,
          send_accepted now (ping now c.heartbeat).0
              (record c { heartbeat = (ping now c.heartbeat).1 }) tx d clear e accepted,
        )
        refl

  -- What stays and what is new when the first message of the channel has been written.
  record Forwarded (s s' : Connection f q) (w : WireMessage) : Type 0 where
    written : s'.written ≡ s.written ++ (Written.forwarded w ∷ [])
    heartbeat : s'.client.heartbeat ≡ s.client.heartbeat
    task : s'.task ≡ s.task

  outgoing-Forwarded :
      (s : Connection f q) (m : Message) (w : WireMessage) (tx d : q.Channel)
      → s.client.tx ≡ some tx
      → q.recv tx ≡ some (m, d)
      → to_wire m ≡ ok w
      → Forwarded s (outgoing f q true s) w
  outgoing-Forwarded s m w tx d e first wire =
      rw (e, first, wire) (record { written = refl; heartbeat = refl; task = refl })

  -- The server's handler answers a ping with its payload.
  server_answers :
      (served id : ℕ) (payload : Bytes) (w : World f q)
      → (server_incoming f q served id true
          (Incoming.received (WireMessage.ping payload))
          w).written
        ≡ w.written ++ ((id, Written.answered (WireMessage.pong payload)) ∷ [])
  unfolding handle_ping pong_message
  server_answers served id payload w = refl

  ping_wire :
      (sent : ℕ) (h : HeartbeatManager)
      → to_wire (ping sent h).0 ≡ ok (WireMessage.ping (number_of h))
  unfolding to_wire ping ping_message
  ping_wire sent h = refl

  payload_of :
      (sent : ℕ) (h : HeartbeatManager)
      → (handle_ping (ping sent h).0.payload).payload ≡ number_of h
  unfolding handle_ping ping ping_message pong_message
  payload_of sent h = refl

  -- The pong with the number of the last ping is accepted.
  answer_accepted :
      (sent back : ℕ) (h : HeartbeatManager)
      → h.ping_count + 1 < 2 ^ 64
      → 0 < h.config.ping_timeout
      → ((handle_pong back (number_of h) (ping sent h).1).1.missed_pings ≡ 0)
        × (is_alive back (handle_pong back (number_of h) (ping sent h).1).1 ≡ true)
  unfolding accept
  answer_accepted sent back h small positive =
      let (taken, alive) = handle_pong-handle_ping sent back h small positive in
      let same : handle_pong back (number_of h) (ping sent h).1
          ≡ (ok tt, accept back (ping sent h).1) =
        ap (λ b. handle_pong back b (ping sent h).1) (sym (payload_of sent h)) ∙ taken in
      (ap (λ x. x.1.missed_pings) same, ap (λ x. is_alive back x.1) same ∙ alive)

  -- A turn of the heartbeat, and the next turn of the channel's branch: the connection then.
  abbrev pub after_ping : ℕ → q.Channel → Connection f q → Connection f q
  after_ping sent d s = outgoing f q true (record s { client = pinged sent d s.client })

  module _ (sent served back id : ℕ) (s : Connection f q) (w : World f q) (tx : q.Channel)
      (up : is_connected f q s.client ≡ true) (clear : can_send f s.client.backpressure ≡ true)
      (has_tx : s.client.tx ≡ some tx) (listens : q.is_open tx ≡ true) (idle : q.queued tx ≡ [])
      (room : 0 < q.capacity tx) (small : s.client.heartbeat.ping_count + 1 < 2 ^ 64)
      (positive : 0 < s.client.heartbeat.config.ping_timeout) where
    -- A connected client with nothing queued, an open channel with room, no backpressure and a positive
    -- timeout (and fewer than 2 ^ 64 - 1 pings before): a turn of its heartbeat sends a ping, the next
    -- turn of the channel's branch writes it, a server's handler that reads it writes a pong with the
    -- same number, and when the client reads that, it has no missed pings and its server is alive.
    pub ping-answered :
        (d : q.Channel) × (beat f q sent s.client ≡ some (true, pinged sent d s.client))
        × ((after_ping sent d s).written
            ≡ s.written
              ++ (Written.forwarded (WireMessage.ping (number_of s.client.heartbeat)) ∷ []))
        × ((server_incoming f q served id true
              (Incoming.received (WireMessage.ping (number_of s.client.heartbeat)))
              w).written
            ≡ w.written
              ++ ((id, Written.answered (WireMessage.pong (number_of s.client.heartbeat))) ∷ []))
        × ((incoming f q back true
              (Incoming.received (WireMessage.pong (number_of s.client.heartbeat)))
              (after_ping sent d s)).client.heartbeat.missed_pings
            ≡ 0)
        × (is_alive back
              (incoming f q back true
                (Incoming.received (WireMessage.pong (number_of s.client.heartbeat)))
                (after_ping sent d s)).client.heartbeat
            ≡ true)
    ping-answered =
        let h = s.client.heartbeat in
        let m = (ping sent h).0 in
        let (d, accepted) =
          q.accepts m tx listens (subst (λ ms. length ms < q.capacity tx) (sym idle) room) in
        let (queue, _, _) = q.accepted_lem m tx d accepted in
        let (rest, first) = q.recv_first m [] d (queue ∙ ap (λ ms. ms ++ (m ∷ [])) idle) in
        let s' : Connection f q = record s { client = pinged sent d s.client } in
        let sent_on =
          outgoing-Forwarded s' m (WireMessage.ping (number_of h)) d rest refl first
            (ping_wire sent h) in
        let taken = answer_accepted sent back h small positive in
        let known : (handle_pong back (number_of h) (after_ping sent d s).client.heartbeat).1
            ≡ (handle_pong back (number_of h) (ping sent h).1).1 =
          ap (λ g. (handle_pong back (number_of h) g).1) sent_on.heartbeat in
        (
          d,
          beat_sends sent s.client tx d up clear has_tx accepted,
          sent_on.written,
          server_answers served id (number_of h) w,
          ap (λ (g : HeartbeatManager). g.missed_pings) known ∙ taken.0,
          ap (is_alive back) known ∙ taken.1,
        )

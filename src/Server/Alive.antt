-- ===== src/Server/Alive.antt =====
-- src/server.rs with src/heartbeat.rs: what the heartbeat of a server finds out.
use ws_fabric.Prelude.{
  ℕ, zero, suc, ◌≡◌, refl, Bool, ◌&&◌, true, false, not, List, [], ◌∷◌, Option, none, some, arith,
  inl, inr, leb, retain, length, ◌==◌, if◌then◌else◌, Text, nat_eq, Bool-cases,
}
use ws_fabric.Prelude.Assoc.{lookup, insert}
use ws_fabric.Error.{Result, ok, err}
use ws_fabric.Float.{F64}
use ws_fabric.Channel.{Mpsc}
use ws_fabric.Message.{Bytes, Message}
use ws_fabric.Socket.{WireMessage, Incoming, to_wire}
use ws_fabric.Heartbeat.Words.{from_be_bytes}
use ws_fabric.Heartbeat.{new as new_heartbeat, HeartbeatManager, answers, handle_pong, is_alive}
use ws_fabric.Config.Server.{ServerConfig}
use ws_fabric.Server.{
  ConnectedClient, Channels, Sent, new, clients, beat, connection_count, send, counted, told,
}
use ws_fabric.Server.Handler.{
  World, begin, has, outgoing_on, outgoing_from, forward_as, incoming, is_orphaned,
}
use ws_fabric.Server.Steps.{is_signalled, Step, step, run, handshaken, delivered, told_one}

-- A server has never pinged and has accepted no pong.
abbrev pub IsSilent : HeartbeatManager → Type 0
IsSilent h = (h.ping_count ≡ 0) × (h.last_ping ≡ none) × (h.last_pong ≡ none)

-- No pong that is read is the number 0 in eight bytes.
abbrev pub is_plain : Step → Bool
is_plain (Step.reads now id works (Incoming.received (WireMessage.pong b))) =
    not (if length b == 8 then from_be_bytes b == 0 else false)
is_plain _ = true

abbrev pub all_plain : List Step → Bool
all_plain [] = true
all_plain (s ∷ steps) = if is_plain s then all_plain steps else false

pong-IsSilent :
    (now : ℕ) (b : Bytes) (h : HeartbeatManager)
    → (if length b == 8 then from_be_bytes b == 0 else false) ≡ false
    → IsSilent h
    → IsSilent (handle_pong now b h).1
unfolding handle_pong
pong-IsSilent now b h plain silent =
    let stale : answers h b ≡ false = rw silent.0 plain in rw stale silent

IsSilent-is_alive : (now : ℕ) (h : HeartbeatManager) → IsSilent h → is_alive now h ≡ true
unfolding is_alive
IsSilent-is_alive now h (zero_pings, no_ping, no_pong) = rw (no_ping, no_pong) (ground arith)

module _ (f : F64) (q : Mpsc Message) where
  abbrev IsQuiet : World f q → Type 0
  IsQuiet w = IsSilent w.server.heartbeat

  forward_as-IsQuiet :
      (id : ℕ) (works : Bool) (m : Message) (answer : Result WireMessage) (w : World f q)
      → IsQuiet w
      → IsQuiet (forward_as f q id works m answer w)
  forward_as-IsQuiet id works m (err e) w h = h
  forward_as-IsQuiet id true m (ok wire) w h = h
  forward_as-IsQuiet id false m (ok wire) w h = h

  outgoing_from-IsQuiet :
      (id : ℕ) (works : Bool) (w : World f q) (o : Option (Message × q.Channel))
      → IsQuiet w
      → IsQuiet (outgoing_from f q id works w o)
  outgoing_from-IsQuiet id works w none h = h
  outgoing_from-IsQuiet id works w (some (m, c)) h =
      forward_as-IsQuiet id works m (to_wire m) (record w { channels = insert id c w.channels }) h

  outgoing_on-IsQuiet :
      (id : ℕ) (works : Bool) (w : World f q) (o : Option q.Channel)
      → IsQuiet w
      → IsQuiet (outgoing_on f q id works w o)
  outgoing_on-IsQuiet id works w none h = h
  outgoing_on-IsQuiet id works w (some c) h = outgoing_from-IsQuiet id works w (q.recv c) h

  incoming-IsQuiet :
      (now id : ℕ) (works : Bool) (i : Incoming) (w : World f q)
      → is_plain (Step.reads now id works i) ≡ true
      → IsQuiet w
      → IsQuiet (incoming f q now id works i w)
  incoming-IsQuiet now id works (Incoming.received (WireMessage.text s)) w plain h = h
  incoming-IsQuiet now id works (Incoming.received (WireMessage.binary b)) w plain h = h
  incoming-IsQuiet now id true (Incoming.received (WireMessage.ping b)) w plain h = h
  incoming-IsQuiet now id false (Incoming.received (WireMessage.ping b)) w plain h = h
  incoming-IsQuiet now id works (Incoming.received (WireMessage.pong b)) w plain h =
      pong-IsSilent now b w.server.heartbeat (ground (arith, plain)) h
  incoming-IsQuiet now id works (Incoming.received WireMessage.close) w plain h = h
  incoming-IsQuiet now id works (Incoming.received WireMessage.frame) w plain h = h
  incoming-IsQuiet now id works Incoming.failed w plain h = h

  handshaken-IsQuiet :
      (now id : ℕ) (addr : Text) (n : ℕ) (w : World f q)
      → IsQuiet w
      → IsQuiet (handshaken f q now id addr n w)
  handshaken-IsQuiet now id addr zero w h = h
  handshaken-IsQuiet now id addr (suc n) w h = h

  delivered-IsQuiet :
      (w : World f q) (sent : Option (Sent f q)) → IsQuiet w → IsQuiet (delivered f q w sent)
  delivered-IsQuiet w none h = h
  delivered-IsQuiet w (some (n, m, cs)) h = h

  told_one-IsQuiet :
      (w : World f q) (cs : Option (Channels f q)) → IsQuiet w → IsQuiet (told_one f q w cs)
  told_one-IsQuiet w none h = h
  told_one-IsQuiet w (some cs) h = h

  step-IsQuiet : (s : Step) (w : World f q) → is_plain s ≡ true → IsQuiet w → IsQuiet (step f q s w)
  step-IsQuiet Step.accepts w plain h = elim (Bool-cases w.listening) [
    | inl on ↦
        elim (Bool-cases (leb w.server.config.max_connections (connection_count f w.server))) [
          | inl full ↦ rw (on, full) h
          | inr room ↦ rw (on, room) h
        ]
    | inr off ↦ rw off h
  ]
  step-IsQuiet Step.accept_fails w plain h = elim (Bool-cases w.listening) [
    | inl on ↦ rw on h
    | inr off ↦ rw off h
  ]
  step-IsQuiet Step.stops w plain h =
      elim (Bool-cases (w.listening && is_signalled w.server.shutdown_tx)) [
        | inl heard ↦ rw heard h
        | inr deaf ↦ rw deaf h
      ]
  step-IsQuiet (Step.handshakes now k addr) w plain h = handshaken-IsQuiet now k addr w.pending w h
  step-IsQuiet Step.handshake_fails w plain h = h
  step-IsQuiet (Step.writes k works) w plain h = elim (Bool-cases (has k w.handlers)) [
    | inl on ↦ rw on (outgoing_on-IsQuiet k works w (lookup k w.channels) h)
    | inr off ↦ rw off h
  ]
  step-IsQuiet (Step.reads now k works i) w plain h = elim (Bool-cases (has k w.handlers)) [
    | inl on ↦ rw on (incoming-IsQuiet now k works i w plain h)
    | inr off ↦ rw off h
  ]
  step-IsQuiet (Step.hangs_up now k) w plain h = elim (Bool-cases (has k w.handlers)) [
    | inl on ↦ elim (Bool-cases (is_orphaned f q k w)) [
      | inl gone ↦ rw (on, gone) h
      | inr held ↦ rw (on, held) h
    ]
    | inr off ↦ rw off h
  ]
  step-IsQuiet (Step.delivers now client m) w plain h =
      delivered-IsQuiet w
        (counted f q now m (0, w.server.metrics, w.channels) (send f q client m w.channels)) h
  step-IsQuiet (Step.tells client m) w plain h =
      told_one-IsQuiet w (told f q w.channels (send f q client m w.channels)) h
  step-IsQuiet Step.shuts w plain h = h

  run-IsQuiet :
      (steps : List Step) (w : World f q)
      → all_plain steps ≡ true
      → IsQuiet w
      → IsQuiet (run f q steps w)
  unfolding run
  run-IsQuiet [] w plain h = h
  run-IsQuiet (s ∷ steps) w plain h = elim (Bool-cases (is_plain s)) [
    | inl e ↦ run-IsQuiet steps (step f q s w) (rw e at plain) (step-IsQuiet s w e h)
    | inr e ↦ absurd (cc (rw e at plain))
  ]

  retain-none :
      (cls : List ConnectedClient) (b : Bool)
      → b ≡ true
      → retain (λ (c : ConnectedClient). not b) cls ≡ []
  retain-none [] b e = refl
  retain-none (c ∷ cls) true e = retain-none cls true refl
  retain-none (c ∷ cls) false e = absurd (cc e)

  beat-alive :
      (now : ℕ) (w : World f q)
      → is_alive now w.server.heartbeat ≡ true
      → (beat f now w.server).1 ≡ []
  beat-alive now w alive = elim (Bool-cases w.server.running) [
    | inl on ↦ rw on (retain-none (clients f w.server) (is_alive now w.server.heartbeat) alive)
    | inr off ↦ rw off refl
  ]

  -- A server sends no pings, so its heartbeat has nothing to measure: whatever the tasks do, unless a
  -- client sends the number 0 in eight bytes as a pong, `is_alive` is true at any time and a turn of
  -- the heartbeat warns of no client, however long all of them have been silent.
  pub run-alive :
      (c : ServerConfig) (steps : List Step) (now : ℕ)
      → all_plain steps ≡ true
      → (is_alive now (run f q steps (begin f q (new f c))).server.heartbeat ≡ true)
        × ((beat f now (run f q steps (begin f q (new f c))).server).1 ≡ [])
  unfolding new new_heartbeat
  run-alive c steps now plain =
      let w = run f q steps (begin f q (new f c)) in
      let alive =
        IsSilent-is_alive now w.server.heartbeat
          (run-IsQuiet steps (begin f q (new f c)) plain (refl, refl, refl)) in
      (alive, beat-alive now w alive)

-- ===== src/Server/Gauge.antt =====
-- src/server.rs with src/metrics.rs: the counters of connections and the table.
use ws_fabric.Prelude.{
  ℕ, zero, suc, ◌+◌, ◌≤◌, ◌<◌, ◌≡◌, refl, Bool, true, false, List, [], ◌∷◌, Option, none, some,
  arith, inl, inr, leb, length, u64_mod, Text, nat_eq, Bool-cases,
}
use ws_fabric.Prelude.Assoc.{
  lookup, insert, remove, HasUniqueKeys, remove-HasUniqueKeys, insert-HasUniqueKeys,
  length-remove_present, length-insert_absent,
}
use ws_fabric.Error.{Result, ok, err}
use ws_fabric.Float.{F64}
use ws_fabric.Channel.{Sending, Mpsc}
use ws_fabric.Message.{Message}
use ws_fabric.Metrics.{
  ConnectionMetrics, record_connection, record_disconnection, record_connection_error,
  record_message_sent, record_message_received, record_receive_error,
}
use ws_fabric.Socket.{WireMessage, Incoming, to_wire}
use ws_fabric.Config.Server.{ServerConfig}
use ws_fabric.Server.{
  Server, ConnectedClient, Channels, new, new_client, get_client, connection_count, send, counted,
  told,
}
use ws_fabric.Server.Handler.{
  World, begin, has, outgoing_on, outgoing_from, forward_as, count_received, incoming, leave,
  is_orphaned,
}
use ws_fabric.Server.Steps.{Step, step, run, handshaken, delivered, told_one}
use ws_fabric.Server.Listed.{stays, all_stay, IsFound, AreListed, step-AreListed}

module _ (f : F64) where
  -- The gauge and the difference of the counters are the size of the table, of at most n clients
  -- that have ever connected.
  pub record Counts (n : ℕ) (s : Server f) : Type 0 where
    pub unique : HasUniqueKeys s.connections
    pub active : s.metrics.active_connections ≡ length s.connections
    pub total : s.metrics.total_connections ≡ s.metrics.disconnections + length s.connections
    pub few : s.metrics.total_connections ≤ n

  -- The counters of connections are those of the other metrics.
  abbrev SameCounts : ConnectionMetrics → ConnectionMetrics → Type 0
  SameCounts a b =
      (a.active_connections ≡ b.active_connections)
      × (a.total_connections ≡ b.total_connections)
      × (a.disconnections ≡ b.disconnections)

  recount :
      (n : ℕ) (m : ConnectionMetrics) (s : Server f)
      → SameCounts m s.metrics
      → Counts n s
      → Counts n (record s { metrics = m })
  recount n m s same h = record {
    unique = h.unique;
    active = omega (arith, same.0, h.active);
    total = omega (arith, same.1, same.2, h.total);
    few = omega (arith, same.1, h.few);
  }

  connect-Counts :
      (n now id : ℕ) (addr : Text) (s : Server f)
      → n + 1 < u64_mod
      → get_client f id s ≡ none
      → Counts n s
      → Counts (n + 1) (record s {
        connections = insert id (new_client id addr) s.connections;
        metrics = record_connection now s.metrics;
      })
  unfolding record_connection
  connect-Counts n now id addr s room fresh h =
      let grown = length-insert_absent id (new_client id addr) s.connections fresh in
      record {
        unique = insert-HasUniqueKeys id (new_client id addr) s.connections h.unique;
        active = omega (arith, grown, h.active, h.total, h.few, room);
        total = omega (arith, grown, h.total, h.few, room);
        few = omega (arith, h.few, room);
      }

  leave-Counts :
      (n now id : ℕ) (c : ConnectedClient) (s : Server f)
      → n < u64_mod
      → get_client f id s ≡ some c
      → Counts n s
      → Counts n (record s {
        connections = remove id s.connections;
        metrics = record_disconnection now s.metrics;
      })
  unfolding record_disconnection
  leave-Counts n now id c s room found h =
      let shrunk = length-remove_present id c s.connections h.unique found in
      record {
        unique = remove-HasUniqueKeys id s.connections h.unique;
        active = omega (arith, shrunk, h.active);
        total = omega (arith, shrunk, h.total, h.few, room);
        few = omega (arith, h.few, room);
      }

module _ (f : F64) (q : Mpsc Message) where
  -- The id of a handshake is not in the table.
  abbrev pub IsFresh : Step → World f q → Type 0
  IsFresh (Step.handshakes now id addr) w = get_client f id w.server ≡ none
  IsFresh _ w = Unit

  abbrev pub AreFresh : List Step → World f q → Type 0
  AreFresh [] w = Unit
  AreFresh (s ∷ steps) w = IsFresh s w × AreFresh steps (step f q s w)

  abbrev Kept : ℕ → World f q → World f q → Type 0
  Kept n w w' = Counts f n w.server → Counts f n w'.server

  forward_as-Kept :
      (n id : ℕ) (works : Bool) (m : Message) (answer : Result WireMessage) (w : World f q)
      → Kept n w (forward_as f q id works m answer w)
  forward_as-Kept n id works m (err e) w h = h
  forward_as-Kept n id true m (ok wire) w h = record {
    unique = h.unique;
    active = h.active;
    total = h.total;
    few = h.few;
  }
  forward_as-Kept n id false m (ok wire) w h = h

  outgoing_from-Kept :
      (n id : ℕ) (works : Bool) (w : World f q) (o : Option (Message × q.Channel))
      → Kept n w (outgoing_from f q id works w o)
  outgoing_from-Kept n id works w none h = h
  outgoing_from-Kept n id works w (some (m, d)) h =
      forward_as-Kept n id works m (to_wire m) (record w { channels = insert id d w.channels }) h

  outgoing_on-Kept :
      (n id : ℕ) (works : Bool) (w : World f q) (o : Option q.Channel)
      → Kept n w (outgoing_on f q id works w o)
  outgoing_on-Kept n id works w none h = h
  outgoing_on-Kept n id works w (some d) h = outgoing_from-Kept n id works w (q.recv d) h

  leave-Kept :
      (n now id : ℕ) (w : World f q)
      → n < u64_mod
      → IsFound f q id w.server
      → Kept n w (leave f q now id w)
  leave-Kept n now id w room (c, found) h = leave-Counts f n now id c w.server room found h

  count_received-Kept : (n now size : ℕ) (w : World f q) → Kept n w (count_received f q now size w)
  unfolding record_message_received
  count_received-Kept n now size w h = record {
    unique = h.unique;
    active = h.active;
    total = h.total;
    few = h.few;
  }

  incoming-Kept :
      (n now id : ℕ) (works : Bool) (i : Incoming) (w : World f q)
      → n < u64_mod
      → IsFound f q id w.server
      → Kept n w (incoming f q now id works i w)
  unfolding record_receive_error
  incoming-Kept n now id works (Incoming.received (WireMessage.text s)) w room on h =
      count_received-Kept n now (length s) w h
  incoming-Kept n now id works (Incoming.received (WireMessage.binary b)) w room on h =
      count_received-Kept n now (length b) w h
  incoming-Kept n now id true (Incoming.received (WireMessage.ping b)) w room on h = h
  incoming-Kept n now id false (Incoming.received (WireMessage.ping b)) w room on h = h
  incoming-Kept n now id works (Incoming.received (WireMessage.pong b)) w room on h = record {
    unique = h.unique;
    active = h.active;
    total = h.total;
    few = h.few;
  }
  incoming-Kept n now id works (Incoming.received WireMessage.close) w room on h =
      leave-Kept n now id w room on h
  incoming-Kept n now id works (Incoming.received WireMessage.frame) w room on h = h
  incoming-Kept n now id works Incoming.failed w room on h =
      let (c, found) = on in
      leave-Counts f n now id c
        (record w.server { metrics = record_receive_error w.server.metrics }) room found
        (recount f n (record_receive_error w.server.metrics) w.server (refl, refl, refl) h)

  delivered-Kept :
      (n now : ℕ) (m : Message) (w : World f q) (sending : Sending (Channels f q))
      → Kept n w (delivered f q w (counted f q now m (0, w.server.metrics, w.channels) sending))
  unfolding record_message_sent
  delivered-Kept n now m w (Sending.accepted cs) h = recount f n _ w.server (refl, refl, refl) h
  delivered-Kept n now m w Sending.waits h = h
  delivered-Kept n now m w Sending.closed h = record {
    unique = h.unique;
    active = h.active;
    total = h.total;
    few = h.few;
  }

  told_one-Kept :
      (n : ℕ) (w : World f q) (cs : Option (Channels f q)) → Kept n w (told_one f q w cs)
  told_one-Kept n w none h = h
  told_one-Kept n w (some cs) h = h

  weaken : (n : ℕ) (s : Server f) → Counts f n s → Counts f (n + 1) s
  weaken n s h = record {
    unique = h.unique;
    active = h.active;
    total = h.total;
    few = omega (arith, h.few);
  }

  record_connection_error-Counts :
      (n : ℕ) (s : Server f)
      → Counts f n s
      → Counts f (n + 1) (record s { metrics = record_connection_error s.metrics })
  unfolding record_connection_error
  record_connection_error-Counts n s h =
      weaken n _ (recount f n (record_connection_error s.metrics) s (refl, refl, refl) h)

  handshaken-Counts :
      (n now id : ℕ) (addr : Text) (k : ℕ) (w : World f q)
      → n + 1 < u64_mod
      → get_client f id w.server ≡ none
      → Counts f n w.server
      → Counts f (n + 1) (handshaken f q now id addr k w).server
  handshaken-Counts n now id addr zero w room fresh h = weaken n w.server h
  handshaken-Counts n now id addr (suc k) w room fresh h =
      connect-Counts f n now id addr w.server room fresh h

  step-Counts :
      (n : ℕ) (s : Step) (w : World f q)
      → stays s ≡ true
      → n + 1 < u64_mod
      → IsFresh s w
      → AreListed f q w
      → Counts f n w.server
      → Counts f (n + 1) (step f q s w).server
  unfolding record_connection_error
  step-Counts n Step.accepts w stay room fresh listed h = elim (Bool-cases w.listening) [
    | inl on ↦
        elim (Bool-cases (leb w.server.config.max_connections (connection_count f w.server))) [
          | inl full ↦ rw (on, full) (record_connection_error-Counts n w.server h)
          | inr free ↦ rw (on, free) (weaken n w.server h)
        ]
    | inr off ↦ rw off (weaken n w.server h)
  ]
  step-Counts n Step.accept_fails w stay room fresh listed h = elim (Bool-cases w.listening) [
    | inl on ↦ rw on (record_connection_error-Counts n w.server h)
    | inr off ↦ rw off (weaken n w.server h)
  ]
  step-Counts n Step.stops w stay room fresh listed h = absurd (cc stay)
  step-Counts n (Step.handshakes now id addr) w stay room fresh listed h =
      handshaken-Counts n now id addr w.pending w room fresh h
  step-Counts n Step.handshake_fails w stay room fresh listed h = weaken n w.server h
  step-Counts n (Step.writes id works) w stay room fresh listed h =
      elim (Bool-cases (has id w.handlers)) [
        | inl on ↦ rw on (weaken n _ (outgoing_on-Kept n id works w (lookup id w.channels) h))
        | inr off ↦ rw off (weaken n w.server h)
      ]
  step-Counts n (Step.reads now id works i) w stay room fresh listed h =
      elim (Bool-cases (has id w.handlers)) [
        | inl on ↦
            rw on
              (weaken n _ (incoming-Kept n now id works i w (omega (arith, room)) (listed id on) h))
        | inr off ↦ rw off (weaken n w.server h)
      ]
  step-Counts n (Step.hangs_up now id) w stay room fresh listed h =
      elim (Bool-cases (has id w.handlers)) [
        | inl on ↦ elim (Bool-cases (is_orphaned f q id w)) [
          | inl gone ↦
              rw (on, gone)
                (weaken n _ (leave-Kept n now id w (omega (arith, room)) (listed id on) h))
          | inr held ↦ rw (on, held) (weaken n w.server h)
        ]
        | inr off ↦ rw off (weaken n w.server h)
      ]
  step-Counts n (Step.delivers now client m) w stay room fresh listed h =
      weaken n _ (delivered-Kept n now m w (send f q client m w.channels) h)
  step-Counts n (Step.tells client m) w stay room fresh listed h =
      weaken n _ (told_one-Kept n w (told f q w.channels (send f q client m w.channels)) h)
  step-Counts n Step.shuts w stay room fresh listed h = absurd (cc stay)

  run_from-Counts :
      (n : ℕ) (steps : List Step) (w : World f q)
      → all_stay steps ≡ true
      → n + length steps < u64_mod
      → AreFresh steps w
      → AreListed f q w
      → Counts f n w.server
      → Counts f (n + length steps) (run f q steps w).server
  unfolding run
  run_from-Counts n [] w stay room fresh listed h = let e : n + 0 ≡ n = omega arith in rw e h
  run_from-Counts n (s ∷ steps) w stay room fresh listed h = elim (Bool-cases (stays s)) [
    | inl e ↦
        let next : n + 1 + length steps ≡ n + suc (length steps) = omega arith in
        rw (← next) (
          run_from-Counts (n + 1) steps (step f q s w) (rw e at stay) (omega (arith, room)) fresh.1
            (step-AreListed f q s w e listed)
            (step-Counts n s w e (omega (arith, room)) fresh.0 listed h))
    | inr e ↦ absurd (cc (rw e at stay))
  ]

  -- As long as nobody calls `shutdown`, every client has a new id and there are fewer than 2 ^ 64
  -- turns: whatever the tasks of a new server do, its gauge of active connections is the size of its
  -- table, and its count of connections is that of disconnections and the size of the table. (A
  -- client whose handler ended by an error stays in both.)
  pub run-counts :
      (c : ServerConfig) (steps : List Step)
      → all_stay steps ≡ true
      → length steps < u64_mod
      → AreFresh steps (begin f q (new f c))
      → let s = (run f q steps (begin f q (new f c))).server in
        (s.metrics.active_connections ≡ connection_count f s)
        × (s.metrics.total_connections ≡ s.metrics.disconnections + connection_count f s)
  unfolding new
  run-counts c steps stay few fresh =
      let w = begin f q (new f c) in
      let h =
        run_from-Counts 0 steps w stay (omega (arith, few)) fresh (λ id on. absurd (cc on))
          (record { unique = tt; active = refl; total = refl; few = omega arith }) in
      (h.active, h.total)

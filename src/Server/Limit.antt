-- ===== src/Server/Limit.antt =====
-- src/server.rs: how many connections there can be.
use ws_fabric.Prelude.{
  ℕ, zero, suc, ◌+◌, ◌≤◌, ◌≡◌, refl, ap, Bool, ◌&&◌, true, false, List, [], ◌∷◌, Option, none, some,
  arith, inl, inr, leb, Text, nat_eq, Bool-cases,
}
use ws_fabric.Prelude.Assoc.{lookup, insert, length-remove, length-insert}
use ws_fabric.Error.{Result, ok, err}
use ws_fabric.Float.{F64}
use ws_fabric.Channel.{Mpsc}
use ws_fabric.Message.{Message}
use ws_fabric.Socket.{WireMessage, Incoming, to_wire}
use ws_fabric.Config.Server.{ServerConfig}
use ws_fabric.Server.{new_client, Channels, Sent, new, connection_count, counted, told, send}
use ws_fabric.Server.Handler.{
  World, begin, has, outgoing, outgoing_on, outgoing_from, forward_as, incoming, leave, is_orphaned,
}
use ws_fabric.Server.Steps.{is_signalled, Step, step, run, handshaken, delivered, told_one}

module _ (f : F64) (q : Mpsc Message) where
  -- Connections, and handlers that will add one if their handshake succeeds.
  abbrev pub expected : World f q → ℕ
  expected w = connection_count f w.server + w.pending

  -- A connection is accepted only while no handler is before the end of its handshake.
  abbrev pub IsAlone : Step → World f q → Type 0
  IsAlone Step.accepts w = w.pending ≡ 0
  IsAlone _ w = Unit

  abbrev pub AreAlone : List Step → World f q → Type 0
  AreAlone [] w = Unit
  AreAlone (s ∷ steps) w = IsAlone s w × AreAlone steps (step f q s w)

  -- What no step increases and none but `accepts` at all changes upwards.
  abbrev pub Within : World f q → World f q → Type 0
  Within w w' = (w'.server.config ≡ w.server.config) × (expected w' ≤ expected w)

  delivered-Within : (w : World f q) (sent : Option (Sent f q)) → Within w (delivered f q w sent)
  delivered-Within w none = (refl, omega arith)
  delivered-Within w (some (n, m, cs)) = (refl, omega arith)

  told_one-Within : (w : World f q) (cs : Option (Channels f q)) → Within w (told_one f q w cs)
  told_one-Within w none = (refl, omega arith)
  told_one-Within w (some cs) = (refl, omega arith)

  forward_as-Within :
      (id : ℕ) (works : Bool) (m : Message) (answer : Result WireMessage) (w : World f q)
      → Within w (forward_as f q id works m answer w)
  forward_as-Within id works m (err e) w = (refl, omega arith)
  forward_as-Within id true m (ok wire) w = (refl, omega arith)
  forward_as-Within id false m (ok wire) w = (refl, omega arith)

  outgoing_from-Within :
      (id : ℕ) (works : Bool) (w : World f q) (o : Option (Message × q.Channel))
      → Within w (outgoing_from f q id works w o)
  outgoing_from-Within id works w none = (refl, omega arith)
  outgoing_from-Within id works w (some (m, c)) =
      forward_as-Within id works m (to_wire m) (record w { channels = insert id c w.channels })

  outgoing_on-Within :
      (id : ℕ) (works : Bool) (w : World f q) (o : Option q.Channel)
      → Within w (outgoing_on f q id works w o)
  outgoing_on-Within id works w none = (refl, omega arith)
  outgoing_on-Within id works w (some c) = outgoing_from-Within id works w (q.recv c)

  leave-Within : (now id : ℕ) (w : World f q) → Within w (leave f q now id w)
  leave-Within now id w = (refl, omega (arith, length-remove id w.server.connections))

  incoming-Within :
      (now id : ℕ) (works : Bool) (i : Incoming) (w : World f q)
      → Within w (incoming f q now id works i w)
  incoming-Within now id works (Incoming.received (WireMessage.text s)) w = (refl, omega arith)
  incoming-Within now id works (Incoming.received (WireMessage.binary b)) w = (refl, omega arith)
  incoming-Within now id true (Incoming.received (WireMessage.ping b)) w = (refl, omega arith)
  incoming-Within now id false (Incoming.received (WireMessage.ping b)) w = (refl, omega arith)
  incoming-Within now id works (Incoming.received (WireMessage.pong b)) w = (refl, omega arith)
  incoming-Within now id works (Incoming.received WireMessage.close) w = leave-Within now id w
  incoming-Within now id works (Incoming.received WireMessage.frame) w = (refl, omega arith)
  incoming-Within now id works Incoming.failed w =
      (refl, omega (arith, length-remove id w.server.connections))

  handshaken-Within :
      (now id : ℕ) (addr : Text) (n : ℕ) (w : World f q)
      → w.pending ≡ n
      → Within w (handshaken f q now id addr n w)
  handshaken-Within now id addr zero w e = (refl, omega arith)
  handshaken-Within now id addr (suc n) w e =
      (refl, omega (arith, e, length-insert id (new_client id addr) w.server.connections))

  abbrev pub IsWithin : World f q → Type 0
  IsWithin w = expected w ≤ w.server.config.max_connections

  keeps : (w w' : World f q) → Within w w' → IsWithin w → IsWithin w'
  keeps w w' (same, le) h =
      let m = ap (λ (c : ServerConfig). c.max_connections) same in omega (arith, m, le, h)

  step-IsWithin : (s : Step) (w : World f q) → IsAlone s w → IsWithin w → IsWithin (step f q s w)
  step-IsWithin Step.accepts w alone h = elim (Bool-cases w.listening) [
    | inl on ↦
        elim (Bool-cases (leb w.server.config.max_connections (connection_count f w.server))) [
          | inl full ↦ rw (on, full) h
          | inr room ↦ rw (on, room) (ground (arith, alone, room))
        ]
    | inr off ↦ rw off h
  ]
  step-IsWithin Step.accept_fails w alone h = elim (Bool-cases w.listening) [
    | inl on ↦ rw on h
    | inr off ↦ rw off h
  ]
  step-IsWithin Step.stops w alone h =
      elim (Bool-cases (w.listening && is_signalled w.server.shutdown_tx)) [
        | inl heard ↦ rw heard (omega (arith, h))
        | inr deaf ↦ rw deaf h
      ]
  step-IsWithin (Step.handshakes now id addr) w alone h =
      keeps w (handshaken f q now id addr w.pending w)
        (handshaken-Within now id addr w.pending w refl) h
  step-IsWithin Step.handshake_fails w alone h = omega (arith, h)
  step-IsWithin (Step.writes id works) w alone h = elim (Bool-cases (has id w.handlers)) [
    | inl on ↦
        rw on (
          keeps w (outgoing f q id works w) (outgoing_on-Within id works w (lookup id w.channels))
            h)
    | inr off ↦ rw off h
  ]
  step-IsWithin (Step.reads now id works i) w alone h = elim (Bool-cases (has id w.handlers)) [
    | inl on ↦ rw on (keeps w (incoming f q now id works i w) (incoming-Within now id works i w) h)
    | inr off ↦ rw off h
  ]
  step-IsWithin (Step.hangs_up now id) w alone h = elim (Bool-cases (has id w.handlers)) [
    | inl on ↦ elim (Bool-cases (is_orphaned f q id w)) [
      | inl gone ↦ rw (on, gone) (keeps w (leave f q now id w) (leave-Within now id w) h)
      | inr held ↦ rw (on, held) h
    ]
    | inr off ↦ rw off h
  ]
  step-IsWithin (Step.delivers now client m) w alone h =
      keeps w (step f q (Step.delivers now client m) w)
        (delivered-Within w
          (counted f q now m (0, w.server.metrics, w.channels) (send f q client m w.channels)))
        h
  step-IsWithin (Step.tells client m) w alone h =
      keeps w (step f q (Step.tells client m) w)
        (told_one-Within w (told f q w.channels (send f q client m w.channels))) h
  step-IsWithin Step.shuts w alone h = omega (arith, h)

  run-IsWithin :
      (steps : List Step) (w : World f q)
      → AreAlone steps w
      → IsWithin w
      → IsWithin (run f q steps w)
  unfolding run
  run-IsWithin [] w alone h = h
  run-IsWithin (s ∷ steps) w alone h =
      run-IsWithin steps (step f q s w) alone.1 (step-IsWithin s w alone.0 h)

  -- The connections of a new server stay within the maximum, whatever its tasks do in whatever
  -- order, if a connection is accepted only while no other is before the end of its handshake
  -- (which the code does not ensure).
  pub run-sequential :
      (c : ServerConfig) (steps : List Step)
      → AreAlone steps (begin f q (new f c))
      → connection_count f (run f q steps (begin f q (new f c))).server
        ≤ (run f q steps (begin f q (new f c))).server.config.max_connections
  unfolding new
  run-sequential c steps alone =
      omega (arith, run-IsWithin steps (begin f q (new f c)) alone (omega arith))

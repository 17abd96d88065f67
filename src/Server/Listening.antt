-- ===== src/Server/Listening.antt =====
-- src/server.rs: what the loop of `start` goes by, and that no task changes it.
use ws_fabric.Prelude.{
  ℕ, zero, suc, ◌≡◌, ◌∙◌, refl, Bool, true, false, List, [], ◌∷◌, Option, none, some, inl, inr, leb,
  Text, nat_eq, Bool-cases,
}
use ws_fabric.Prelude.Assoc.{lookup, insert}
use ws_fabric.Error.{Result, ok, err}
use ws_fabric.Float.{F64}
use ws_fabric.Channel.{Mpsc}
use ws_fabric.Message.{Message}
use ws_fabric.Socket.{WireMessage, Incoming, to_wire}
use ws_fabric.Server.{Channels, Sent, connection_count, counted, told, send}
use ws_fabric.Server.Handler.{
  World, has, outgoing_on, outgoing_from, forward_as, incoming, is_orphaned,
}
use ws_fabric.Server.Steps.{Step, step, run, handshaken, delivered, told_one}

module _ (f : F64) (q : Mpsc Message) where
  -- The loop has not ended, and its channel has a sender and holds no signal.
  pub record IsListening (w : World f q) : Type 0 where
    pub listening : w.listening ≡ true
    pub tx : w.server.shutdown_tx ≡ some 0

  -- With the flag of the state.
  abbrev IsKept : World f q → World f q → Type 0
  IsKept w w' =
      (w'.listening ≡ w.listening)
      × (w'.server.shutdown_tx ≡ w.server.shutdown_tx)
      × (w'.server.running ≡ w.server.running)

  kept : (w : World f q) → IsKept w w
  kept w = (refl, refl, refl)

  delivered-IsKept : (w : World f q) (sent : Option (Sent f q)) → IsKept w (delivered f q w sent)
  delivered-IsKept w none = kept w
  delivered-IsKept w (some (n, m, cs)) = (refl, refl, refl)

  told_one-IsKept : (w : World f q) (cs : Option (Channels f q)) → IsKept w (told_one f q w cs)
  told_one-IsKept w none = kept w
  told_one-IsKept w (some cs) = (refl, refl, refl)

  forward_as-IsKept :
      (id : ℕ) (works : Bool) (m : Message) (answer : Result WireMessage) (w : World f q)
      → IsKept w (forward_as f q id works m answer w)
  forward_as-IsKept id works m (err e) w = (refl, refl, refl)
  forward_as-IsKept id true m (ok wire) w = (refl, refl, refl)
  forward_as-IsKept id false m (ok wire) w = (refl, refl, refl)

  outgoing_from-IsKept :
      (id : ℕ) (works : Bool) (w : World f q) (o : Option (Message × q.Channel))
      → IsKept w (outgoing_from f q id works w o)
  outgoing_from-IsKept id works w none = kept w
  outgoing_from-IsKept id works w (some (m, c)) =
      forward_as-IsKept id works m (to_wire m) (record w { channels = insert id c w.channels })

  outgoing_on-IsKept :
      (id : ℕ) (works : Bool) (w : World f q) (o : Option q.Channel)
      → IsKept w (outgoing_on f q id works w o)
  outgoing_on-IsKept id works w none = kept w
  outgoing_on-IsKept id works w (some c) = outgoing_from-IsKept id works w (q.recv c)

  incoming-IsKept :
      (now id : ℕ) (works : Bool) (i : Incoming) (w : World f q)
      → IsKept w (incoming f q now id works i w)
  incoming-IsKept now id works (Incoming.received (WireMessage.text s)) w = (refl, refl, refl)
  incoming-IsKept now id works (Incoming.received (WireMessage.binary b)) w = (refl, refl, refl)
  incoming-IsKept now id true (Incoming.received (WireMessage.ping b)) w = (refl, refl, refl)
  incoming-IsKept now id false (Incoming.received (WireMessage.ping b)) w = (refl, refl, refl)
  incoming-IsKept now id works (Incoming.received (WireMessage.pong b)) w = (refl, refl, refl)
  incoming-IsKept now id works (Incoming.received WireMessage.close) w = (refl, refl, refl)
  incoming-IsKept now id works (Incoming.received WireMessage.frame) w = kept w
  incoming-IsKept now id works Incoming.failed w = (refl, refl, refl)

  handshaken-IsKept :
      (now id : ℕ) (addr : Text) (n : ℕ) (w : World f q) → IsKept w (handshaken f q now id addr n w)
  handshaken-IsKept now id addr zero w = kept w
  handshaken-IsKept now id addr (suc n) w = (refl, refl, refl)

  -- The first critical section of `shutdown` alone changes one of the three.
  abbrev is_shut : Step → Bool
  is_shut Step.shuts = true
  is_shut _ = false

  step-IsKept :
      (s : Step) (w : World f q) → is_shut s ≡ false → IsListening w → IsKept w (step f q s w)
  step-IsKept Step.accepts w other h =
      elim (Bool-cases (leb w.server.config.max_connections (connection_count f w.server))) [
        | inl full ↦ rw (h.listening, full) (refl, refl, refl)
        | inr room ↦ rw (h.listening, room) (refl, refl, refl)
      ]
  step-IsKept Step.accept_fails w other h = rw h.listening (refl, refl, refl)
  step-IsKept Step.stops w other h = rw (h.listening, h.tx) (refl, refl, refl)
  step-IsKept (Step.handshakes now id addr) w other h = handshaken-IsKept now id addr w.pending w
  step-IsKept Step.handshake_fails w other h = (refl, refl, refl)
  step-IsKept (Step.writes id works) w other h = elim (Bool-cases (has id w.handlers)) [
    | inl on ↦ rw on (outgoing_on-IsKept id works w (lookup id w.channels))
    | inr off ↦ rw off (kept w)
  ]
  step-IsKept (Step.reads now id works i) w other h = elim (Bool-cases (has id w.handlers)) [
    | inl on ↦ rw on (incoming-IsKept now id works i w)
    | inr off ↦ rw off (kept w)
  ]
  step-IsKept (Step.hangs_up now id) w other h = elim (Bool-cases (has id w.handlers)) [
    | inl on ↦ elim (Bool-cases (is_orphaned f q id w)) [
      | inl gone ↦ rw (on, gone) (refl, refl, refl)
      | inr held ↦ rw (on, held) (kept w)
    ]
    | inr off ↦ rw off (kept w)
  ]
  step-IsKept (Step.delivers now client m) w other h =
      delivered-IsKept w
        (counted f q now m (0, w.server.metrics, w.channels) (send f q client m w.channels))
  step-IsKept (Step.tells client m) w other h =
      told_one-IsKept w (told f q w.channels (send f q client m w.channels))
  step-IsKept Step.shuts w other h = absurd (cc other)

  pub step-IsListening : (s : Step) (w : World f q) → IsListening w → IsListening (step f q s w)
  step-IsListening s w h = elim (Bool-cases (is_shut s)) [
    | inl e ↦ shut_step s w e h
    | inr e ↦
        let k = step-IsKept s w e h in record { listening = k.0 ∙ h.listening; tx = k.1 ∙ h.tx }
  ]
    where
      shut_step :
          (s : Step) (w : World f q) → is_shut s ≡ true → IsListening w → IsListening (step f q s w)
      shut_step Step.shuts w e h = record { listening = h.listening; tx = h.tx }
      shut_step _ w e h = absurd (cc e)

  pub stops-listening : (w : World f q) → IsListening w → step f q Step.stops w ≡ w
  stops-listening w h = rw (h.listening, h.tx) refl

  -- Whatever the tasks do, the loop listens.
  pub run-IsListening :
      (steps : List Step) (w : World f q) → IsListening w → IsListening (run f q steps w)
  unfolding run
  run-IsListening [] w h = h
  run-IsListening (s ∷ steps) w h = run-IsListening steps (step f q s w) (step-IsListening s w h)

  step-stopped :
      (s : Step) (w : World f q)
      → IsListening w
      → w.server.running ≡ false
      → (step f q s w).server.running ≡ false
  step-stopped s w h off = elim (Bool-cases (is_shut s)) [
    | inl e ↦ shut_step s w e
    | inr e ↦ (step-IsKept s w e h).2 ∙ off
  ]
    where
      shut_step :
          (s : Step) (w : World f q) → is_shut s ≡ true → (step f q s w).server.running ≡ false
      shut_step Step.shuts w e = refl
      shut_step _ w e = absurd (cc e)

  pub run-stopped :
      (steps : List Step) (w : World f q)
      → IsListening w
      → w.server.running ≡ false
      → (run f q steps w).server.running ≡ false
  unfolding run
  run-stopped [] w h off = off
  run-stopped (s ∷ steps) w h off =
      run-stopped steps (step f q s w) (step-IsListening s w h) (step-stopped s w h off)

-- ===== src/Server/Listed.antt =====
-- src/server.rs: the clients that have a handler are in the table.
use ws_fabric.Prelude.{
  ℕ, zero, suc, ◌≡◌, refl, ◌∙◌, Bool, true, false, List, [], ◌∷◌, Option, none, some, arith, inl,
  inr, leb, if◌then◌else◌, Text, nat_eq, ◌==◌, Bool-cases,
}
use ws_fabric.Prelude.Assoc.{lookup, insert, lookup-insert, lookup-insert_ne, lookup-remove_ne}
use ws_fabric.Error.{Result, ok, err}
use ws_fabric.Float.{F64}
use ws_fabric.Channel.{Mpsc}
use ws_fabric.Message.{Message}
use ws_fabric.Socket.{WireMessage, Incoming, to_wire}
use ws_fabric.Config.Server.{ServerConfig}
use ws_fabric.Server.{
  Server, ConnectedClient, Channels, Sent, new, new_client, get_client, connection_count, send,
  counted, told,
}
use ws_fabric.Server.Handler.{
  World, begin, has, without, outgoing_on, outgoing_from, forward_as, incoming, leave, is_orphaned,
  end_handler,
}
use ws_fabric.Server.Steps.{Step, step, run, handshaken, delivered, told_one}

-- `shutdown` is no step.
abbrev pub stays : Step → Bool
stays Step.shuts = false
stays Step.stops = false
stays _ = true

abbrev pub all_stay : List Step → Bool
all_stay [] = true
all_stay (s ∷ steps) = if stays s then all_stay steps else false

has-without_sub : (k j : ℕ) (ks : List ℕ) → has k (without j ks) ≡ true → has k ks ≡ true
has-without_sub k j [] h = h
has-without_sub k j (i ∷ ks) h = ground (arith, has-without_sub k j ks)

has-without_ne : (k j : ℕ) (ks : List ℕ) → has k (without j ks) ≡ true → (j == k) ≡ false
has-without_ne k j [] h = absurd (cc h)
has-without_ne k j (i ∷ ks) h = ground (arith, has-without_ne k j ks)

module _ (f : F64) (q : Mpsc Message) where
  abbrev pub IsFound : ℕ → Server f → Type 0
  IsFound id s = (c : ConnectedClient) × (get_client f id s ≡ some c)

  abbrev pub AreListed : World f q → Type 0
  AreListed w = (id : ℕ) → has id w.handlers ≡ true → IsFound id w.server

  end_handler-AreListed : (k : ℕ) (w : World f q) → AreListed w → AreListed (end_handler f q k w)
  end_handler-AreListed k w h id on = h id (has-without_sub id k w.handlers on)

  leave-AreListed : (now k : ℕ) (w : World f q) → AreListed w → AreListed (leave f q now k w)
  leave-AreListed now k w h id on =
      let (c, e) = h id (has-without_sub id k w.handlers on) in
      (c, lookup-remove_ne k id w.server.connections (has-without_ne id k w.handlers on) ∙ e)

  forward_as-AreListed :
      (k : ℕ) (works : Bool) (m : Message) (answer : Result WireMessage) (w : World f q)
      → AreListed w
      → AreListed (forward_as f q k works m answer w)
  forward_as-AreListed k works m (err e) w h = end_handler-AreListed k w h
  forward_as-AreListed k true m (ok wire) w h = h
  forward_as-AreListed k false m (ok wire) w h = end_handler-AreListed k w h

  outgoing_from-AreListed :
      (k : ℕ) (works : Bool) (w : World f q) (o : Option (Message × q.Channel))
      → AreListed w
      → AreListed (outgoing_from f q k works w o)
  outgoing_from-AreListed k works w none h = h
  outgoing_from-AreListed k works w (some (m, d)) h =
      forward_as-AreListed k works m (to_wire m) (record w { channels = insert k d w.channels }) h

  outgoing_on-AreListed :
      (k : ℕ) (works : Bool) (w : World f q) (o : Option q.Channel)
      → AreListed w
      → AreListed (outgoing_on f q k works w o)
  outgoing_on-AreListed k works w none h = h
  outgoing_on-AreListed k works w (some d) h = outgoing_from-AreListed k works w (q.recv d) h

  incoming-AreListed :
      (now k : ℕ) (works : Bool) (i : Incoming) (w : World f q)
      → AreListed w
      → AreListed (incoming f q now k works i w)
  incoming-AreListed now k works (Incoming.received (WireMessage.text s)) w h = h
  incoming-AreListed now k works (Incoming.received (WireMessage.binary b)) w h = h
  incoming-AreListed now k true (Incoming.received (WireMessage.ping b)) w h = h
  incoming-AreListed now k false (Incoming.received (WireMessage.ping b)) w h = h
  incoming-AreListed now k works (Incoming.received (WireMessage.pong b)) w h = h
  incoming-AreListed now k works (Incoming.received WireMessage.close) w h =
      leave-AreListed now k w h
  incoming-AreListed now k works (Incoming.received WireMessage.frame) w h = h
  incoming-AreListed now k works Incoming.failed w h = leave-AreListed now k w h

  handshaken-AreListed :
      (now k : ℕ) (addr : Text) (n : ℕ) (w : World f q)
      → AreListed w
      → AreListed (handshaken f q now k addr n w)
  handshaken-AreListed now k addr zero w h id on = h id on
  handshaken-AreListed now k addr (suc n) w h id on = elim (Bool-cases (k == id)) [
    | inl same ↦ (
      new_client k addr,
      lookup-insert k id (new_client k addr) w.server.connections ∙ rw same refl,
    )
    | inr other ↦
        let (c, e) = h id (rw other at on) in
        (c, lookup-insert_ne k id (new_client k addr) w.server.connections other ∙ e)
  ]

  delivered-AreListed :
      (w : World f q) (sent : Option (Sent f q)) → AreListed w → AreListed (delivered f q w sent)
  delivered-AreListed w none h = h
  delivered-AreListed w (some (n, m, cs)) h = h

  told_one-AreListed :
      (w : World f q) (cs : Option (Channels f q)) → AreListed w → AreListed (told_one f q w cs)
  told_one-AreListed w none h = h
  told_one-AreListed w (some cs) h = h

  pub step-AreListed :
      (s : Step) (w : World f q) → stays s ≡ true → AreListed w → AreListed (step f q s w)
  step-AreListed Step.accepts w stay h = elim (Bool-cases w.listening) [
    | inl on ↦
        elim (Bool-cases (leb w.server.config.max_connections (connection_count f w.server))) [
          | inl full ↦ rw (on, full) h
          | inr room ↦ rw (on, room) h
        ]
    | inr off ↦ rw off h
  ]
  step-AreListed Step.accept_fails w stay h = elim (Bool-cases w.listening) [
    | inl on ↦ rw on h
    | inr off ↦ rw off h
  ]
  step-AreListed Step.stops w stay h = absurd (cc stay)
  step-AreListed (Step.handshakes now k addr) w stay h =
      handshaken-AreListed now k addr w.pending w h
  step-AreListed Step.handshake_fails w stay h = h
  step-AreListed (Step.writes k works) w stay h = elim (Bool-cases (has k w.handlers)) [
    | inl on ↦ rw on (outgoing_on-AreListed k works w (lookup k w.channels) h)
    | inr off ↦ rw off h
  ]
  step-AreListed (Step.reads now k works i) w stay h = elim (Bool-cases (has k w.handlers)) [
    | inl on ↦ rw on (incoming-AreListed now k works i w h)
    | inr off ↦ rw off h
  ]
  step-AreListed (Step.hangs_up now k) w stay h = elim (Bool-cases (has k w.handlers)) [
    | inl on ↦ elim (Bool-cases (is_orphaned f q k w)) [
      | inl gone ↦ rw (on, gone) (leave-AreListed now k w h)
      | inr held ↦ rw (on, held) h
    ]
    | inr off ↦ rw off h
  ]
  step-AreListed (Step.delivers now client m) w stay h =
      delivered-AreListed w
        (counted f q now m (0, w.server.metrics, w.channels) (send f q client m w.channels)) h
  step-AreListed (Step.tells client m) w stay h =
      told_one-AreListed w (told f q w.channels (send f q client m w.channels)) h
  step-AreListed Step.shuts w stay h = absurd (cc stay)

  run_from-AreListed :
      (steps : List Step) (w : World f q)
      → all_stay steps ≡ true
      → AreListed w
      → AreListed (run f q steps w)
  unfolding run
  run_from-AreListed [] w stay h = h
  run_from-AreListed (s ∷ steps) w stay h = elim (Bool-cases (stays s)) [
    | inl e ↦ run_from-AreListed steps (step f q s w) (rw e at stay) (step-AreListed s w e h)
    | inr e ↦ absurd (cc (rw e at stay))
  ]

  -- As long as nobody calls `shutdown`: every client whose handler reads and writes is found in the
  -- table of the server, whatever its tasks do in whatever order.
  pub run-AreListed :
      (c : ServerConfig) (steps : List Step)
      → all_stay steps ≡ true
      → AreListed (run f q steps (begin f q (new f c)))
  run-AreListed c steps stay =
      run_from-AreListed steps (begin f q (new f c)) stay (λ id on. absurd (cc on))

-- ===== src/Server/Leak.antt =====
-- src/server.rs: a handler that leaves by `?`, when a write fails or a text is not UTF-8, skips the
-- code after its loop.
use ws_fabric.Prelude.{
  ℕ, zero, suc, ◌≡◌, refl, ◌∙◌, Bool, true, false, not, List, [], ◌∷◌, Option, none, some, arith,
  if◌then◌else◌, Text, nat_eq, ◌==◌,
}
use ws_fabric.Prelude.Assoc.{lookup, insert, lookup-insert_ne, lookup-remove_ne}
use ws_fabric.Error.{Result, ok, err}
use ws_fabric.Float.{F64}
use ws_fabric.Channel.{Mpsc}
use ws_fabric.Message.{Message}
use ws_fabric.Socket.{WireMessage, Incoming, to_wire}
use ws_fabric.Server.{ConnectedClient, Channels, new_client}
use ws_fabric.Server.Handler.{
  World, has, without, outgoing_on, outgoing_from, forward_as, incoming, leave, end_handler,
  dropped,
}
use ws_fabric.Server.Steps.{Step, handshaken}

has-without : (k j : ℕ) (ks : List ℕ) → has k ks ≡ false → has k (without j ks) ≡ false
has-without k j [] h = refl
has-without k j (i ∷ ks) h = ground (arith, has-without k j ks)

pub has-without_self : (k : ℕ) (ks : List ℕ) → has k (without k ks) ≡ false
has-without_self k [] = refl
has-without_self k (i ∷ ks) = ground (arith, has-without_self k ks)

pub has_other : (k j : ℕ) (ks : List ℕ) → has k ks ≡ false → has j ks ≡ true → (j == k) ≡ false
has_other k j [] h e = absurd (cc e)
has_other k j (i ∷ ks) h e = ground (arith, has_other k j ks)

-- The step is no `shutdown`, and no handshake that gives this id to another client.
abbrev pub spares : ℕ → Step → Bool
spares id Step.shuts = false
spares id Step.stops = false
spares id (Step.handshakes now k addr) = not (k == id)
spares id _ = true

abbrev pub all_spare : ℕ → List Step → Bool
all_spare id [] = true
all_spare id (s ∷ steps) = if spares id s then all_spare id steps else false

module _ (f : F64) (q : Mpsc Message) (id : ℕ) (c : ConnectedClient) where
  abbrev pub IsDeafAt : Channels f q → Type 0
  IsDeafAt cs = (ch : q.Channel) × (lookup id cs ≡ some ch) × (q.is_open ch ≡ false)

  -- The client is in the table, but it has no handler, and its channel has no receiver.
  abbrev pub IsLeaked : World f q → Type 0
  IsLeaked w =
      (has id w.handlers ≡ false) × (lookup id w.server.connections ≡ some c) × IsDeafAt w.channels

  pub insert-IsDeafAt :
      (k : ℕ) (d : q.Channel) (cs : Channels f q)
      → (k == id) ≡ false
      → IsDeafAt cs
      → IsDeafAt (insert k d cs)
  insert-IsDeafAt k d cs other (ch, e, shut) = (ch, lookup-insert_ne k id d cs other ∙ e, shut)

  dropped-IsDeafAt :
      (k : ℕ) (cs : Channels f q) (o : Option q.Channel)
      → (k == id) ≡ false
      → IsDeafAt cs
      → IsDeafAt (dropped f q k cs o)
  dropped-IsDeafAt k cs none other h = h
  dropped-IsDeafAt k cs (some d) other h = insert-IsDeafAt k (q.drop_receiver d) cs other h

  end_handler-IsLeaked :
      (k : ℕ) (w : World f q) → (k == id) ≡ false → IsLeaked w → IsLeaked (end_handler f q k w)
  end_handler-IsLeaked k w other h = (
    has-without id k w.handlers h.0,
    h.1,
    dropped-IsDeafAt k w.channels (lookup k w.channels) other h.2,
  )

  pub leave-IsLeaked :
      (now k : ℕ) (w : World f q) → (k == id) ≡ false → IsLeaked w → IsLeaked (leave f q now k w)
  leave-IsLeaked now k w other h = (
    has-without id k w.handlers h.0,
    lookup-remove_ne k id w.server.connections other ∙ h.1,
    dropped-IsDeafAt k w.channels (lookup k w.channels) other h.2,
  )

  forward_as-IsLeaked :
      (k : ℕ) (works : Bool) (m : Message) (answer : Result WireMessage) (w : World f q)
      → (k == id) ≡ false
      → IsLeaked w
      → IsLeaked (forward_as f q k works m answer w)
  forward_as-IsLeaked k works m (err e) w other h = end_handler-IsLeaked k w other h
  forward_as-IsLeaked k true m (ok wire) w other h = h
  forward_as-IsLeaked k false m (ok wire) w other h = end_handler-IsLeaked k w other h

  outgoing_from-IsLeaked :
      (k : ℕ) (works : Bool) (w : World f q) (o : Option (Message × q.Channel))
      → (k == id) ≡ false
      → IsLeaked w
      → IsLeaked (outgoing_from f q k works w o)
  outgoing_from-IsLeaked k works w none other h = h
  outgoing_from-IsLeaked k works w (some (m, d)) other h =
      forward_as-IsLeaked k works m (to_wire m) (record w { channels = insert k d w.channels })
        other (h.0, h.1, insert-IsDeafAt k d w.channels other h.2)

  pub outgoing_on-IsLeaked :
      (k : ℕ) (works : Bool) (w : World f q) (o : Option q.Channel)
      → (k == id) ≡ false
      → IsLeaked w
      → IsLeaked (outgoing_on f q k works w o)
  outgoing_on-IsLeaked k works w none other h = h
  outgoing_on-IsLeaked k works w (some d) other h =
      outgoing_from-IsLeaked k works w (q.recv d) other h

  pub incoming-IsLeaked :
      (now k : ℕ) (works : Bool) (i : Incoming) (w : World f q)
      → (k == id) ≡ false
      → IsLeaked w
      → IsLeaked (incoming f q now k works i w)
  incoming-IsLeaked now k works (Incoming.received (WireMessage.text s)) w other h = h
  incoming-IsLeaked now k works (Incoming.received (WireMessage.binary b)) w other h = h
  incoming-IsLeaked now k true (Incoming.received (WireMessage.ping b)) w other h = h
  incoming-IsLeaked now k false (Incoming.received (WireMessage.ping b)) w other h = h
  incoming-IsLeaked now k works (Incoming.received (WireMessage.pong b)) w other h = h
  incoming-IsLeaked now k works (Incoming.received WireMessage.close) w other h =
      leave-IsLeaked now k w other h
  incoming-IsLeaked now k works (Incoming.received WireMessage.frame) w other h = h
  incoming-IsLeaked now k works Incoming.failed w other h = leave-IsLeaked now k w other h

  pub handshaken-IsLeaked :
      (now k : ℕ) (addr : Text) (n : ℕ) (w : World f q)
      → (k == id) ≡ false
      → IsLeaked w
      → IsLeaked (handshaken f q now k addr n w)
  handshaken-IsLeaked now k addr zero w other h = h
  handshaken-IsLeaked now k addr (suc n) w other h = (
    rw other h.0,
    lookup-insert_ne k id (new_client k addr) w.server.connections other ∙ h.1,
    insert-IsDeafAt k (q.channel w.server.config.buffer_size) w.channels other h.2,
  )

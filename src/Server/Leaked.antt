-- ===== src/Server/Leaked.antt =====
-- src/server.rs: a client whose handler has left by `?`, whatever the tasks do then.
use ws_fabric.Prelude.{
  ℕ, ◌≡◌, refl, true, false, List, [], ◌∷◌, Option, none, some, arith, inl, inr, nat_eq, ◌==◌, leb,
  Bool-cases,
}
use ws_fabric.Prelude.Assoc.{lookup, insert, lookup-insert_self}
use ws_fabric.Error.{Result, ok, err}
use ws_fabric.Float.{F64}
use ws_fabric.Channel.{Sending, Mpsc}
use ws_fabric.Message.{Message}
use ws_fabric.Socket.{WireMessage, to_wire}
use ws_fabric.Server.{
  connection_count, ConnectedClient, Channels, get_client, send, send_in, sending, counted, told,
}
use ws_fabric.Server.Handler.{World, has, forward_as, is_orphaned, end_handler}
use ws_fabric.Server.Steps.{Step, step, run, delivered, told_one}
use ws_fabric.Server.Leak.{
  IsDeafAt, IsLeaked, all_spare, handshaken-IsLeaked, has-without_self, has_other,
  incoming-IsLeaked, insert-IsDeafAt, leave-IsLeaked, outgoing_on-IsLeaked, spares,
}

module _ (f : F64) (q : Mpsc Message) (id : ℕ) (c : ConnectedClient) where
  abbrev KeepsDeaf : Sending (Channels f q) → Type 0
  KeepsDeaf (Sending.accepted cs) = IsDeafAt f q id c cs
  KeepsDeaf _ = Unit

  sending-KeepsDeaf :
      (tx : ℕ) (m : Message) (cs : Channels f q) (d : q.Channel) (answer : Sending q.Channel)
      → IsDeafAt f q id c cs
      → lookup tx cs ≡ some d
      → q.send m d ≡ answer
      → KeepsDeaf (sending f q tx cs answer)
  sending-KeepsDeaf tx m cs d (Sending.accepted d') (ch, e, shut) found e' =
      elim (Bool-cases (tx == id)) [
        | inl same ↦
            let same_id : tx ≡ id = ground (arith, same) in
            let same_ch : d ≡ ch = cc (e, found, same_id) in
            absurd (cc (q.refuses m ch shut, same_ch, e'))
        | inr other ↦ insert-IsDeafAt f q id c tx d' cs other (ch, e, shut)
      ]
  sending-KeepsDeaf tx m cs d Sending.waits h found e' = tt
  sending-KeepsDeaf tx m cs d Sending.closed h found e' = tt

  send_in-KeepsDeaf :
      (tx : ℕ) (m : Message) (cs : Channels f q) (o : Option q.Channel)
      → IsDeafAt f q id c cs
      → lookup tx cs ≡ o
      → KeepsDeaf (send_in f q tx m cs o)
  send_in-KeepsDeaf tx m cs none h e = tt
  send_in-KeepsDeaf tx m cs (some d) h e = sending-KeepsDeaf tx m cs d (q.send m d) h e refl

  send-KeepsDeaf :
      (client : ConnectedClient) (m : Message) (cs : Channels f q)
      → IsDeafAt f q id c cs
      → KeepsDeaf (send f q client m cs)
  unfolding send
  send-KeepsDeaf client m cs h = send_in-KeepsDeaf client.tx m cs (lookup client.tx cs) h refl

  delivered-IsLeaked :
      (now : ℕ) (m : Message) (w : World f q) (answer : Sending (Channels f q))
      → IsLeaked f q id c w
      → KeepsDeaf answer
      → IsLeaked f q id c
          (delivered f q w (counted f q now m (0, w.server.metrics, w.channels) answer))
  delivered-IsLeaked now m w (Sending.accepted cs) h deaf = (h.0, h.1, deaf)
  delivered-IsLeaked now m w Sending.waits h deaf = h
  delivered-IsLeaked now m w Sending.closed h deaf = h

  told_one-IsLeaked :
      (w : World f q) (answer : Sending (Channels f q))
      → IsLeaked f q id c w
      → KeepsDeaf answer
      → IsLeaked f q id c (told_one f q w (told f q w.channels answer))
  told_one-IsLeaked w (Sending.accepted cs) h deaf = (h.0, h.1, deaf)
  told_one-IsLeaked w Sending.waits h deaf = h
  told_one-IsLeaked w Sending.closed h deaf = h

  step-IsLeaked :
      (s : Step) (w : World f q)
      → spares id s ≡ true
      → IsLeaked f q id c w
      → IsLeaked f q id c (step f q s w)
  step-IsLeaked Step.accepts w spared h = elim (Bool-cases w.listening) [
    | inl on ↦
        elim (Bool-cases (leb w.server.config.max_connections (connection_count f w.server))) [
          | inl full ↦ rw (on, full) h
          | inr room ↦ rw (on, room) h
        ]
    | inr off ↦ rw off h
  ]
  step-IsLeaked Step.accept_fails w spared h = elim (Bool-cases w.listening) [
    | inl on ↦ rw on h
    | inr off ↦ rw off h
  ]
  step-IsLeaked Step.stops w spared h = absurd (cc spared)
  step-IsLeaked (Step.handshakes now k addr) w spared h =
      handshaken-IsLeaked f q id c now k addr w.pending w (ground (arith, spared)) h
  step-IsLeaked Step.handshake_fails w spared h = h
  step-IsLeaked (Step.writes k works) w spared h = elim (Bool-cases (has k w.handlers)) [
    | inl on ↦ rw on (
        outgoing_on-IsLeaked f q id c k works w (lookup k w.channels)
          (has_other id k w.handlers h.0 on) h)
    | inr off ↦ rw off h
  ]
  step-IsLeaked (Step.reads now k works i) w spared h = elim (Bool-cases (has k w.handlers)) [
    | inl on ↦
        rw on (incoming-IsLeaked f q id c now k works i w (has_other id k w.handlers h.0 on) h)
    | inr off ↦ rw off h
  ]
  step-IsLeaked (Step.hangs_up now k) w spared h = elim (Bool-cases (has k w.handlers)) [
    | inl on ↦ elim (Bool-cases (is_orphaned f q k w)) [
      | inl gone ↦
          rw (on, gone) (leave-IsLeaked f q id c now k w (has_other id k w.handlers h.0 on) h)
      | inr held ↦ rw (on, held) h
    ]
    | inr off ↦ rw off h
  ]
  step-IsLeaked (Step.delivers now client m) w spared h =
      delivered-IsLeaked now m w (send f q client m w.channels) h
        (send-KeepsDeaf client m w.channels h.2)
  step-IsLeaked (Step.tells client m) w spared h =
      told_one-IsLeaked w (send f q client m w.channels) h (send-KeepsDeaf client m w.channels h.2)
  step-IsLeaked Step.shuts w spared h = absurd (cc spared)

  run-IsLeaked :
      (steps : List Step) (w : World f q)
      → all_spare id steps ≡ true
      → IsLeaked f q id c w
      → IsLeaked f q id c (run f q steps w)
  unfolding run
  run-IsLeaked [] w spared h = h
  run-IsLeaked (s ∷ steps) w spared h = elim (Bool-cases (spares id s)) [
    | inl e ↦ run-IsLeaked steps (step f q s w) (rw e at spared) (step-IsLeaked s w e h)
    | inr e ↦ absurd (cc (rw e at spared))
  ]

  end_handler_self :
      (w : World f q) (d : q.Channel)
      → lookup id w.server.connections ≡ some c
      → lookup id w.channels ≡ some d
      → IsLeaked f q id c (end_handler f q id w)
  end_handler_self w d listed e = rw e (
    has-without_self id w.handlers,
    listed,
    (
      q.drop_receiver d,
      lookup-insert_self id (q.drop_receiver d) w.channels,
      (q.drop_receiver_lem d).1,
    ),
  )

  failed_write :
      (w : World f q) (d : q.Channel) (m : Message) (answer : Result WireMessage)
      → lookup id w.server.connections ≡ some c
      → lookup id w.channels ≡ some d
      → IsLeaked f q id c (forward_as f q id false m answer w)
  failed_write w d m (err e) listed found = end_handler_self w d listed found
  failed_write w d m (ok wire) listed found = end_handler_self w d listed found

  failed_step :
      (w : World f q) (ch d : q.Channel) (m : Message)
      → has id w.handlers ≡ true
      → lookup id w.server.connections ≡ some c
      → lookup id w.channels ≡ some ch
      → q.recv ch ≡ some (m, d)
      → IsLeaked f q id c (step f q (Step.writes id false) w)
  failed_step w ch d m on listed found e =
      rw (on, found, e)
        (failed_write (record w { channels = insert id d w.channels }) d m (to_wire m) listed
          (lookup-insert_self id d w.channels))

  IsLeaked-send :
      (w : World f q) (m : Message)
      → IsLeaked f q id c w
      → c.tx ≡ id
      → send f q c m w.channels ≡ Sending.closed
  unfolding send
  IsLeaked-send w m h own = rw (own, h.2.1, q.refuses m h.2.0 h.2.2) refl

  -- When the write of a queued message to a client fails, its handler ends and leaves the client in
  -- the table: whatever the tasks do then, but for `shutdown` and a handshake with the same id, the
  -- client is found there and every send to it fails.
  pub run-leaked :
      (w : World f q) (ch d : q.Channel) (m later : Message) (steps : List Step)
      → has id w.handlers ≡ true
      → lookup id w.server.connections ≡ some c
      → c.tx ≡ id
      → lookup id w.channels ≡ some ch
      → q.recv ch ≡ some (m, d)
      → all_spare id steps ≡ true
      → (get_client f id (run f q (Step.writes id false ∷ steps) w).server ≡ some c)
        × (has id (run f q (Step.writes id false ∷ steps) w).handlers ≡ false)
        × (send f q c later (run f q (Step.writes id false ∷ steps) w).channels ≡ Sending.closed)
  unfolding run
  run-leaked w ch d m later steps on listed own found e spared =
      let leaked =
        run-IsLeaked steps (step f q (Step.writes id false) w) spared
          (failed_step w ch d m on listed found e) in
      (
        leaked.1,
        leaked.0,
        IsLeaked-send (run f q steps (step f q (Step.writes id false) w)) later leaked own,
      )

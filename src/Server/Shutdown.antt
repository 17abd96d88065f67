-- ===== src/Server/Shutdown.antt =====
-- src/server.rs: what `shutdown` does, and what goes on after it.
use ws_fabric.Prelude.{
  ℕ, suc, ◌+◌, ◌<◌, ◌≡◌, refl, ap, ◌∙◌, true, false, arith, List, [], ◌∷◌, ◌++◌, Option, none, some,
  Text, nat_eq,
}
use ws_fabric.Prelude.Assoc.{lookup-insert_self}
use ws_fabric.Float.{F64}
use ws_fabric.Channel.{Sending, Mpsc}
use ws_fabric.Message.{Message}
use ws_fabric.Server.{
  Server, ConnectedClient, Channels, Sent, clients, get_client, connection_count, new_client, send,
  goodbye, broadcast_to, say_goodbye, shutdown,
}
use ws_fabric.Server.Delivery.{HasRoom, queue_at}
use ws_fabric.Server.Broadcast.{gained, deliver_all}
use ws_fabric.Server.Handler.{World, begin}
use ws_fabric.Server.Steps.{Step, step, run, handshaken}
use ws_fabric.Server.Race.{accept_one}
use ws_fabric.Server.Listening.{run-IsListening, step-IsListening, run-stopped, stops-listening}

module _ (f : F64) (q : Mpsc Message) where
  abbrev pub channels_of : Option (Sent f q) → Option (Channels f q)
  channels_of none = none
  channels_of (some sent) = some sent.2

  say_goodbye-after :
      (now : ℕ) (c : ConnectedClient) (rest : List ConnectedClient) (sent : Sent f q)
      (answer : Sending (Channels f q))
      → send f q c goodbye sent.2 ≡ answer
      → ((sent' : Sent f q)
          → say_goodbye f q rest sent'.2 ≡ channels_of (broadcast_to f q now goodbye rest sent'))
      → say_goodbye f q (c ∷ rest) sent.2
        ≡ channels_of (broadcast_to f q now goodbye (c ∷ rest) sent)
  unfolding say_goodbye broadcast_to
  say_goodbye-after now c rest sent (Sending.accepted cs) e later = rw e (later _)
  say_goodbye-after now c rest sent Sending.waits e later = rw e refl
  say_goodbye-after now c rest sent Sending.closed e later = rw e (later _)

  -- The loop of `shutdown` does to the channels what a broadcast of its close message does.
  pub say_goodbye-broadcast_to :
      (now : ℕ) (cls : List ConnectedClient) (sent : Sent f q)
      → say_goodbye f q cls sent.2 ≡ channels_of (broadcast_to f q now goodbye cls sent)
  unfolding say_goodbye broadcast_to
  say_goodbye-broadcast_to now [] sent = refl
  say_goodbye-broadcast_to now (c ∷ rest) sent =
      say_goodbye-after now c rest sent (send f q c goodbye sent.2) refl
        (say_goodbye-broadcast_to now rest)

  -- If no channel with a receiver is too full for it, `shutdown` returns: the table is empty, the
  -- server does not run, and every channel with a receiver holds the close message last, once for
  -- each client of the table that sends to it.
  pub shutdown_lem :
      (s : Server f) (cs : Channels f q)
      → HasRoom f q (clients f s) cs
      → (cs' : Channels f q) × (shutdown f q s cs
          ≡ some (record s { connections = []; running = false }, cs'))
        × ((t : ℕ)
            → queue_at f q t cs' ≡ queue_at f q t cs ++ gained f q t goodbye (clients f s) cs)
  unfolding shutdown
  shutdown_lem s cs room =
      let sent : Sent f q = (0, s.metrics, cs) in
      let (out, returns, (_, _, queues)) =
        deliver_all f q 0 goodbye (clients f s) 0 s.metrics cs room in
      let told_out = say_goodbye-broadcast_to 0 (clients f s) sent ∙ ap channels_of returns in
      (out.2, rw told_out refl, queues)

  -- What the tasks of a server that starts have done, if they shut it down in between.
  abbrev pub after_shutdown : Server f → List Step → List Step → World f q
  after_shutdown s before after = run f q after (step f q Step.shuts (run f q before (begin f q s)))

  enters :
      (now id n m : ℕ) (addr : Text) (w : World f q)
      → n ≡ suc m
      → get_client f id (handshaken f q now id addr n w).server ≡ some (new_client id addr)
  enters now id n m addr w e =
      rw e (lookup-insert_self id (new_client id addr) w.server.connections)

  -- The loop of `start` does not end with `shutdown`. Whatever the tasks of a server do from its start
  -- and after it was shut down: it does not run, the loop still listens (it never receives from
  -- `shutdown_rx`), and if there are fewer connections than the maximum, a connection is accepted and
  -- its client enters the table.
  pub run-after_shutdown :
      (s : Server f) (before after : List Step) (now id : ℕ) (addr : Text)
      → connection_count f (after_shutdown s before after).server
        < (after_shutdown s before after).server.config.max_connections
      → ((after_shutdown s before after).server.running ≡ false)
        × ((after_shutdown s before after).listening ≡ true)
        × (step f q Step.stops (after_shutdown s before after) ≡ after_shutdown s before after)
        × (get_client f id
              (step f q
                (Step.handshakes now id addr)
                (step f q Step.accepts (after_shutdown s before after))).server
            ≡ some (new_client id addr))
  run-after_shutdown s before after now id addr room =
      let w : World f q = after_shutdown s before after in
      let first =
        run-IsListening f q before (begin f q s) (record { listening = refl; tx = refl }) in
      let shut_first = step-IsListening f q Step.shuts (run f q before (begin f q s)) first in
      let last =
        run-IsListening f q after (step f q Step.shuts (run f q before (begin f q s))) shut_first in
      (
        run-stopped f q after (step f q Step.shuts (run f q before (begin f q s))) shut_first refl,
        last.listening,
        stops-listening f q w last,
        ap (λ v. get_client f id (step f q (Step.handshakes now id addr) v).server)
              (accept_one f q w last.listening room)
            ∙ enters now id (w.pending + 1) w.pending addr (record w { pending = w.pending + 1 })
                (omega arith),
      )

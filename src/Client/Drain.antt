-- ===== src/Client/Drain.antt =====
-- src/client.rs: everything that is queued reaches the socket.
use ws_fabric.Prelude.{
  ℕ, zero, suc, ◌≡◌, refl, ap, ◌∙◌, true, List, [], ◌∷◌, ◌++◌, some, length, All,
}
use ws_fabric.Error.{ok}
use ws_fabric.Float.{F64}
use ws_fabric.Channel.{Mpsc}
use ws_fabric.Message.{Message}
use ws_fabric.Socket.{WireMessage, Written, Task, to_wire}
use ws_fabric.Client.{Connection, outgoing}
use ws_fabric.Client.Order.{in_order, in_order-forwarded}

module _ (f : F64) (q : Mpsc Message) where
  -- The branch of the channel so many times, with writes that succeed.
  unfoldable pub drain : ℕ → Connection f q → Connection f q
  drain zero s = s
  drain (suc n) s = drain n (outgoing f q true s)

  abbrev pub IsConvertible : Message → Type 0
  IsConvertible m = (w : WireMessage) × (to_wire m ≡ ok w)

  -- The task runs with this channel.
  abbrev pub Runs : q.Channel → Connection f q → Type 0
  Runs tx s = (s.task ≡ Task.running) × (s.client.tx ≡ some tx)

  outgoing_first :
      (s : Connection f q) (tx d : q.Channel) (m : Message) (w : WireMessage)
      → Runs tx s
      → q.recv tx ≡ some (m, d)
      → to_wire m ≡ ok w
      → Runs d (outgoing f q true s)
        × ((outgoing f q true s).written ≡ s.written ++ (Written.forwarded w ∷ []))
  outgoing_first s tx d m w (runs, open_tx) e e' = rw (open_tx, e, e') ((runs, refl), refl)

  -- If the task runs, every message that is queued can be converted and the writes succeed, then as
  -- many turns of the channel's branch as there are messages write them all in order, leave the
  -- channel empty and the task running.
  pub drain_lem :
      (rest : List Message) (s : Connection f q) (tx : q.Channel)
      → Runs tx s
      → q.queued tx ≡ rest
      → All IsConvertible rest
      → (in_order (drain (length rest) s).written [] ≡ in_order s.written rest)
        × ((d : q.Channel) × Runs d (drain (length rest) s) × (q.queued d ≡ []))
  unfolding drain
  drain_lem [] s tx runs e all = (refl, (tx, runs, e))
  drain_lem (m ∷ rest) s tx runs e ((w, wire), all) =
      let (d, first) = q.recv_first m rest tx e in
      let (left, _, _) = q.recv_lem m tx d first in
      let (on, wrote) = outgoing_first s tx d m w runs first wire in
      let queued : q.queued d ≡ rest = cc (left, e) in
      let later = drain_lem rest (outgoing f q true s) d on queued all in
      (
        later.0 ∙ ap (λ ws. in_order ws rest) wrote ∙ in_order-forwarded s.written w m rest wire,
        later.1,
      )

-- ===== src/Server/Broadcast.antt =====
-- src/server.rs: who gets a broadcast, and what it answers.
use ws_fabric.Prelude.{
  ℕ, ◌+◌, ◌%◌, ◌^◌, ◌≡◌, refl, sym, ap, subst, ◌∙◌, true, false, List, [], ◌∷◌, ◌++◌, append_assoc,
  append-nil, some, arith, inl, inr, replicate, if◌then◌else◌, nat_eq, ◌==◌, Bool-cases,
}
use ws_fabric.Error.{ok}
use ws_fabric.Float.{F64}
use ws_fabric.Channel.{Sending, Mpsc}
use ws_fabric.Message.{Message, len}
use ws_fabric.Metrics.{ConnectionMetrics, record_message_sent}
use ws_fabric.Server.{
  Server, ConnectedClient, Channels, Sent, clients, send, broadcast_to, broadcast,
}
use ws_fabric.Server.Delivery.{
  open_at, queue_at, reached, HasRoom, IsSent, Answers, send-Answers, HasRoom-rest, IsSent-HasRoom,
  reached-IsSent, copies,
}

module _ (f : F64) (q : Mpsc Message) where
  -- What every channel gains.
  abbrev pub gained : ℕ → Message → List ConnectedClient → Channels f q → List Message
  gained t m cls cs = if open_at f q t cs then replicate (copies t cls) m else []

  -- How a broadcast to these clients ends.
  abbrev pub Ends : Message → List ConnectedClient → Sent f q → Sent f q → Type 0
  Ends m cls (n, mt, cs) (n', mt', cs') =
      (n' ≡ n + reached f q cls cs)
      × (mt'.messages_sent % 2 ^ 64 ≡ (mt.messages_sent + reached f q cls cs) % 2 ^ 64)
      × ((t : ℕ) → queue_at f q t cs' ≡ queue_at f q t cs ++ gained t m cls cs)

  gained-accepted :
      (t : ℕ) (m : Message) (c : ConnectedClient) (rest : List ConnectedClient)
      (cs cs' : Channels f q)
      → open_at f q c.tx cs ≡ true
      → IsSent f q c.tx m cs cs'
      → queue_at f q t cs' ++ gained t m rest cs' ≡ queue_at f q t cs ++ gained t m (c ∷ rest) cs
  gained-accepted t m c rest cs cs' shown done =
      let (same, queued, _) = done t in
      elim (Bool-cases (c.tx == t)) [
        | inl e ↦
            let same_tx : c.tx ≡ t = ground (arith, e) in
            let shown_t : open_at f q t cs ≡ true =
              subst (λ k. open_at f q k cs ≡ true) same_tx shown in
            let first : queue_at f q t cs' ≡ queue_at f q t cs ++ (m ∷ []) = rw e at queued in
            rw (same, shown_t, e, first)
              (append_assoc (queue_at f q t cs) (m ∷ []) (replicate (copies t rest) m))
        | inr e ↦
            let kept : queue_at f q t cs' ≡ queue_at f q t cs =
              (rw e at queued) ∙ append-nil (queue_at f q t cs) in
            rw (same, e, kept) refl
      ]

  gained-closed :
      (t : ℕ) (m : Message) (c : ConnectedClient) (rest : List ConnectedClient) (cs : Channels f q)
      → open_at f q c.tx cs ≡ false
      → gained t m rest cs ≡ gained t m (c ∷ rest) cs
  gained-closed t m c rest cs shut = elim (Bool-cases (c.tx == t)) [
    | inl e ↦
        let same_tx : c.tx ≡ t = ground (arith, e) in
        let shut_t : open_at f q t cs ≡ false =
          subst (λ k. open_at f q k cs ≡ false) same_tx shut in
        rw (shut_t) refl
    | inr e ↦ rw e refl
  ]

  Ends-accepted :
      (now n : ℕ) (m : Message) (c : ConnectedClient) (rest : List ConnectedClient)
      (mt : ConnectionMetrics) (cs cs' : Channels f q) (out : Sent f q)
      → open_at f q c.tx cs ≡ true
      → IsSent f q c.tx m cs cs'
      → Ends m rest (n + 1, record_message_sent now (len m) mt, cs') out
      → Ends m (c ∷ rest) (n, mt, cs) out
  unfolding record_message_sent
  Ends-accepted now n m c rest mt cs cs' out shown done (count, messages, queues) =
      let others = reached-IsSent f q rest c.tx m cs cs' done in
      (
        rw shown (omega (arith, count, others)),
        rw shown (omega (arith, messages, others)),
        λ t. queues t ∙ gained-accepted t m c rest cs cs' shown done,
      )

  Ends-closed :
      (n : ℕ) (m : Message) (c : ConnectedClient) (rest : List ConnectedClient)
      (mt : ConnectionMetrics) (cs : Channels f q) (out : Sent f q)
      → open_at f q c.tx cs ≡ false
      → Ends m rest (n, mt, cs) out
      → Ends m (c ∷ rest) (n, mt, cs) out
  Ends-closed n m c rest mt cs out shut (count, messages, queues) = (
    rw shut (omega (arith, count)),
    rw shut (omega (arith, messages)),
    λ t. queues t ∙ ap (◌++◌ (queue_at f q t cs)) (gained-closed t m c rest cs shut),
  )

  -- `broadcast_to` returns, and so ends.
  abbrev Returns : ℕ → Message → List ConnectedClient → Sent f q → Type 0
  Returns now m cls sent =
      (out : Sent f q) × (broadcast_to f q now m cls sent ≡ some out) × Ends m cls sent out

  deliver-Returns :
      (now : ℕ) (m : Message) (c : ConnectedClient) (rest : List ConnectedClient) (n : ℕ)
      (mt : ConnectionMetrics) (cs : Channels f q) (answer : Sending (Channels f q))
      → send f q c m cs ≡ answer
      → Answers f q c.tx m cs answer
      → ((cs' : Channels f q)
          → IsSent f q c.tx m cs cs'
          → Returns now m rest (n + 1, record_message_sent now (len m) mt, cs'))
      → Returns now m rest (n, mt, cs)
      → Returns now m (c ∷ rest) (n, mt, cs)
  unfolding broadcast_to
  deliver-Returns now m c rest n mt cs (Sending.accepted cs') e (shown, done) sent closed =
      let (out, returns, ends) = sent cs' done in
      (out, rw e returns, Ends-accepted now n m c rest mt cs cs' out shown done ends)
  deliver-Returns now m c rest n mt cs Sending.waits e answers sent closed = absurd answers
  deliver-Returns now m c rest n mt cs Sending.closed e shut sent closed =
      let (out, returns, ends) = closed in
      (out, rw e returns, Ends-closed n m c rest mt cs out shut ends)

  pub deliver_all :
      (now : ℕ) (m : Message) (cls : List ConnectedClient) (n : ℕ) (mt : ConnectionMetrics)
      (cs : Channels f q)
      → HasRoom f q cls cs
      → Returns now m cls (n, mt, cs)
  unfolding broadcast_to
  deliver_all now m [] n mt cs room =
      ((n, mt, cs), refl, (omega arith, omega arith, λ t. sym (nothing t)))
    where
      nothing : (t : ℕ) → queue_at f q t cs ++ gained t m [] cs ≡ queue_at f q t cs
      nothing t = elim (Bool-cases (open_at f q t cs)) [
        | inl e ↦ rw e (append-nil (queue_at f q t cs))
        | inr e ↦ rw e (append-nil (queue_at f q t cs))
      ]
  deliver_all now m (c ∷ rest) n mt cs room =
      deliver-Returns now m c rest n mt cs (send f q c m cs) refl
        (send-Answers f q c rest m cs room)
        (λ cs' done.
          deliver_all now m rest (n + 1) (record_message_sent now (len m) mt) cs'
            (IsSent-HasRoom f q c rest m cs cs' room done))
        (deliver_all now m rest n mt cs (HasRoom-rest f q c rest cs room))

  -- If no channel with a receiver is too full for it, a broadcast returns. Its answer is the number
  -- of clients in the table whose channel has a receiver, the messages sent are counted by as much
  -- (modulo 2 ^ 64), and every such channel gets the message once for each of its clients, behind
  -- what it held, and no other channel anything.
  pub broadcast_lem :
      (now : ℕ) (m : Message) (s : Server f) (cs : Channels f q)
      → HasRoom f q (clients f s) cs
      → (mt : ConnectionMetrics) × (cs' : Channels f q) × (broadcast f q now m s cs
          ≡ some (ok (reached f q (clients f s) cs), record s { metrics = mt }, cs'))
        × (mt.messages_sent % 2 ^ 64
            ≡ (s.metrics.messages_sent + reached f q (clients f s) cs) % 2 ^ 64)
        × ((t : ℕ) → queue_at f q t cs' ≡ queue_at f q t cs ++ gained t m (clients f s) cs)
  unfolding broadcast
  broadcast_lem now m s cs room =
      let (out, returns, (count, messages, queues)) =
        deliver_all now m (clients f s) 0 s.metrics cs room in
      let all : out.0 ≡ reached f q (clients f s) cs = omega (arith, count) in
      (out.1, out.2, rw (returns, all) refl, messages, queues)

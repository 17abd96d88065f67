-- ===== src/Server/Delivery.antt =====
-- src/server.rs: what a send to a client does to the channels.
use ws_fabric.Prelude.{
  ℕ, suc, ◌+◌, ◌≤◌, ◌<◌, ◌≡◌, refl, sym, ap, ◌∙◌, Bool, true, false, List, [], ◌∷◌, ◌++◌,
  append-nil, Option, none, some, arith, inl, inr, length, length-append, if◌then◌else◌, nat_eq,
  ◌==◌, Bool-cases,
}
use ws_fabric.Prelude.Assoc.{lookup, insert, lookup-insert}
use ws_fabric.Float.{F64}
use ws_fabric.Channel.{Sending, Mpsc}
use ws_fabric.Message.{Message}
use ws_fabric.Server.{ConnectedClient, Channels, send, send_in}

-- How many of the clients send to this channel.
abbrev pub copies : ℕ → List ConnectedClient → ℕ
copies t [] = 0
copies t (c ∷ cs) = if c.tx == t then suc (copies t cs) else copies t cs

copies_self :
    (c : ConnectedClient) (rest : List ConnectedClient)
    → copies c.tx (c ∷ rest) ≡ suc (copies c.tx rest)
copies_self c rest = let same : (c.tx == c.tx) ≡ true = ground arith in rw same refl

module _ (f : F64) (q : Mpsc Message) where
  abbrev pub open_of : Option q.Channel → Bool
  open_of none = false
  open_of (some ch) = q.is_open ch

  abbrev pub queue_of : Option q.Channel → List Message
  queue_of none = []
  queue_of (some ch) = q.queued ch

  abbrev pub capacity_of : Option q.Channel → ℕ
  capacity_of none = 0
  capacity_of (some ch) = q.capacity ch

  abbrev pub open_at : ℕ → Channels f q → Bool
  open_at t cs = open_of (lookup t cs)

  abbrev pub queue_at : ℕ → Channels f q → List Message
  queue_at t cs = queue_of (lookup t cs)

  -- The clients whose channel has a receiver.
  abbrev pub reached : List ConnectedClient → Channels f q → ℕ
  reached [] cs = 0
  reached (c ∷ rest) cs = (if open_at c.tx cs then 1 else 0) + reached rest cs

  -- No send has to wait.
  abbrev pub HasRoom : List ConnectedClient → Channels f q → Type 0
  HasRoom cls cs =
      (t : ℕ)
      → open_at t cs ≡ true
      → length (queue_at t cs) + copies t cls ≤ capacity_of (lookup t cs)

  -- A message has been put last into one channel.
  abbrev pub IsSent : ℕ → Message → Channels f q → Channels f q → Type 0
  IsSent tx m cs cs' =
      (t : ℕ)
      → (open_at t cs' ≡ open_at t cs)
        × (queue_at t cs' ≡ queue_at t cs ++ (if tx == t then m ∷ [] else []))
        × (capacity_of (lookup t cs') ≡ capacity_of (lookup t cs))

  insert-IsSent :
      (tx : ℕ) (m : Message) (cs : Channels f q) (ch d : q.Channel)
      → lookup tx cs ≡ some ch
      → q.is_open ch ≡ true
      → q.send m ch ≡ Sending.accepted d
      → IsSent tx m cs (insert tx d cs)
  insert-IsSent tx m cs ch d found shown e t = elim (Bool-cases (tx == t)) [
    | inl same ↦
        let same_tx : tx ≡ t = ground (arith, same) in
        let here : lookup t cs ≡ some ch = ap (λ k. lookup k cs) (sym same_tx) ∙ found in
        let (queued, capacity, shown') = q.accepted_lem m ch d e in
        rw (lookup-insert tx t d cs, same, here) (shown' ∙ sym shown, queued, capacity)
    | inr other ↦ rw (lookup-insert tx t d cs, other) (refl, sym (append-nil (queue_at t cs)), refl)
  ]

  -- What `send` comes to where it need not wait.
  abbrev pub Answers : ℕ → Message → Channels f q → Sending (Channels f q) → Type 0
  Answers tx m cs (Sending.accepted cs') = (open_at tx cs ≡ true) × IsSent tx m cs cs'
  Answers tx m cs Sending.waits = ⊥
  Answers tx m cs Sending.closed = open_at tx cs ≡ false

  send_in-Answers :
      (c : ConnectedClient) (rest : List ConnectedClient) (m : Message) (cs : Channels f q)
      (o : Option q.Channel)
      → HasRoom (c ∷ rest) cs
      → lookup c.tx cs ≡ o
      → Answers c.tx m cs (send_in f q c.tx m cs o)
  send_in-Answers c rest m cs none room e = rw e refl
  send_in-Answers c rest m cs (some ch) room e = elim (Bool-cases (q.is_open ch)) [
    | inl shown ↦
        let here : open_at c.tx cs ≡ true = ap open_of e ∙ shown in
        let fits : length (q.queued ch) < q.capacity ch =
          let held = ap (λ o. length (queue_of o)) e in
          let limit = ap capacity_of e in
          omega (arith, held, limit, copies_self c rest, room c.tx here) in
        let (d, e') = q.accepts m ch shown fits in
        rw e' (here, insert-IsSent c.tx m cs ch d e shown e')
    | inr shut ↦ rw (q.refuses m ch shut) (ap open_of e ∙ shut)
  ]

  pub send-Answers :
      (c : ConnectedClient) (rest : List ConnectedClient) (m : Message) (cs : Channels f q)
      → HasRoom (c ∷ rest) cs
      → Answers c.tx m cs (send f q c m cs)
  unfolding send
  send-Answers c rest m cs room = send_in-Answers c rest m cs (lookup c.tx cs) room refl

  pub HasRoom-rest :
      (c : ConnectedClient) (rest : List ConnectedClient) (cs : Channels f q)
      → HasRoom (c ∷ rest) cs
      → HasRoom rest cs
  HasRoom-rest c rest cs room t shown =
      let before = room t shown in
      elim (Bool-cases (c.tx == t)) [
        | inl e ↦ omega (arith, (rw e at before))
        | inr e ↦ (rw e at before)
      ]

  pub IsSent-HasRoom :
      (c : ConnectedClient) (rest : List ConnectedClient) (m : Message) (cs cs' : Channels f q)
      → HasRoom (c ∷ rest) cs
      → IsSent c.tx m cs cs'
      → HasRoom rest cs'
  IsSent-HasRoom c rest m cs cs' room done t shown =
      let (same, queued, limit) = done t in
      let before = room t (sym same ∙ shown) in
      let longer = ap length queued in
      elim (Bool-cases (c.tx == t)) [
        | inl e ↦
            let grown : length (queue_at t cs') ≡ length (queue_at t cs) + 1 =
              (rw e at longer) ∙ length-append (queue_at t cs) (m ∷ []) in
            omega (arith, grown, limit, (rw e at before))
        | inr e ↦
            let kept : length (queue_at t cs') ≡ length (queue_at t cs) =
              (rw e at longer) ∙ ap length (append-nil (queue_at t cs)) in
            omega (arith, kept, limit, (rw e at before))
      ]

  pub reached-IsSent :
      (rest : List ConnectedClient) (tx : ℕ) (m : Message) (cs cs' : Channels f q)
      → IsSent tx m cs cs'
      → reached rest cs' ≡ reached rest cs
  reached-IsSent [] tx m cs cs' done = refl
  reached-IsSent (c ∷ rest) tx m cs cs' done =
      rw ((done c.tx).0, reached-IsSent rest tx m cs cs' done) refl

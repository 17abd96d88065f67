-- ===== src/Channel/Fifo.antt =====
-- A channel as a queue: test data for what uses `tokio::sync::mpsc`.
use ws_fabric.Prelude.{
  ℕ, ◌<◌, ◌≡◌, refl, Bool, true, false, List, [], ◌∷◌, ◌++◌, Option, none, some, length, ltb,
  lt→ltb, if◌then◌else◌, Bool-cases, inl, inr,
}
use ws_fabric.Channel.{Sending, Mpsc}

module _ (A : Type 0) where
  pub record Queue : Type 0 where
    pub queued : List A
    pub capacity : ℕ
    pub is_open : Bool

  abbrev pub push : A → Queue → Sending Queue
  push a c =
      if c.is_open
      then (if ltb (length c.queued) c.capacity
          then Sending.accepted (record c { queued = c.queued ++ (a ∷ []) })
          else Sending.waits)
      else Sending.closed

  abbrev pub pop_from : Queue → List A → Option (A × Queue)
  pop_from c [] = none
  pop_from c (a ∷ rest) = some (a, record c { queued = rest })

  pub pushed :
      (a : A) (c d : Queue)
      → push a c ≡ Sending.accepted d
      → (d.queued ≡ c.queued ++ (a ∷ [])) × (d.capacity ≡ c.capacity) × (d.is_open ≡ true)
  pushed a c d e = elim (Bool-cases c.is_open) [
    | inl opened ↦ elim (Bool-cases (ltb (length c.queued) c.capacity)) [
      | inl fits ↦
          let e' = rw fits at (rw opened at e) in
          let same : d ≡ record c { queued = c.queued ++ (a ∷ []) } = cc e' in
          rw same (refl, refl, opened)
      | inr full ↦ absurd (cc (rw full at (rw opened at e)))
    ]
    | inr shut ↦ absurd (cc (rw shut at e))
  ]

  pub popped :
      (a : A) (c d : Queue) (rest : List A)
      → pop_from c rest ≡ some (a, d)
      → (rest ≡ a ∷ d.queued) × (d.capacity ≡ c.capacity) × (d.is_open ≡ c.is_open)
  popped a c d [] e = absurd (cc e)
  popped a c d (b ∷ rest) e =
      let same : d ≡ record c { queued = rest } = cc e in
      let first : a ≡ b = cc e in rw (same, first) (refl, refl, refl)

  pub accepts_push :
      (a : A) (c : Queue)
      → c.is_open ≡ true
      → length c.queued < c.capacity
      → (d : Queue) × (push a c ≡ Sending.accepted d)
  accepts_push a c opened fits = (
    record c { queued = c.queued ++ (a ∷ []) },
    rw (opened, lt→ltb (length c.queued) c.capacity fits) refl,
  )

  pub refused : (a : A) (c : Queue) → push a c ≡ Sending.closed → c.is_open ≡ false
  refused a c e = elim (Bool-cases c.is_open) [
    | inl opened ↦ elim (Bool-cases (ltb (length c.queued) c.capacity)) [
      | inl fits ↦ absurd (cc (rw fits at (rw opened at e)))
      | inr full ↦ absurd (cc (rw full at (rw opened at e)))
    ]
    | inr shut ↦ shut
  ]

  abbrev pub fifo : Mpsc A
  fifo = record {
    Channel = Queue;
    channel = λ n. record { queued = []; capacity = n; is_open = true };
    send = push;
    recv = λ c. pop_from c c.queued;
    drop_receiver = λ c. record c { queued = []; is_open = false };
    queued = λ c. c.queued;
    capacity = λ c. c.capacity;
    is_open = λ c. c.is_open;
    channel_lem = λ n positive. (refl, refl, refl);
    accepted_lem = pushed;
    accepts = accepts_push;
    refuses = λ a c shut. rw shut refl;
    closed_lem = refused;
    recv_lem = λ a c d e. popped a c d c.queued e;
    recv_first = λ a rest c e. (record c { queued = rest }, rw e refl);
    drop_receiver_lem = λ c. (refl, refl);
  }

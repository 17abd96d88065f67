-- ===== src/Channel.antt =====
-- The bounded channels of `tokio::sync::mpsc`, which src/client.rs and src/server.rs use: a
-- parameter, with the documented facts that the program relies on.
pub mod Fifo
use ws_fabric.Prelude.{
  ℕ, ◌<◌, ◌≡◌, Bool, true, false, List, [], ◌∷◌, ◌++◌, Option, none, some, length,
}

-- What `send` comes to: it waits while the channel is full, and fails if the receiver is gone.
pub data Sending (C : Type 0) : Type 0 where
  accepted : C → Sending C
  waits closed : Sending C

pub record Mpsc (A : Type 0) : Type 1 where
  pub Channel : Type 0
  -- `channel` with its capacity (0 panics), `Sender::send`, `Receiver::recv` (`none` while the
  -- channel is empty), and the drop of the receiver
  pub channel : ℕ → Channel
  pub send : A → Channel → Sending Channel
  pub recv : Channel → Option (A × Channel)
  pub drop_receiver : Channel → Channel
  -- what is in the channel, how much it can hold, and whether the receiver is there
  pub queued : Channel → List A
  pub capacity : Channel → ℕ
  pub is_open : Channel → Bool
  pub channel_lem :
      (n : ℕ)
      → 0 < n
      → (queued (channel n) ≡ []) × (capacity (channel n) ≡ n) × (is_open (channel n) ≡ true)
  pub accepted_lem :
      (a : A) (c d : Channel)
      → send a c ≡ Sending.accepted d
      → (queued d ≡ queued c ++ (a ∷ [])) × (capacity d ≡ capacity c) × (is_open d ≡ true)
  pub accepts :
      (a : A) (c : Channel)
      → is_open c ≡ true
      → length (queued c) < capacity c
      → (d : Channel) × (send a c ≡ Sending.accepted d)
  pub refuses : (a : A) (c : Channel) → is_open c ≡ false → send a c ≡ Sending.closed
  pub closed_lem : (a : A) (c : Channel) → send a c ≡ Sending.closed → is_open c ≡ false
  pub recv_lem :
      (a : A) (c d : Channel)
      → recv c ≡ some (a, d)
      → (queued c ≡ a ∷ queued d) × (capacity d ≡ capacity c) × (is_open d ≡ is_open c)
  pub recv_first :
      (a : A) (rest : List A) (c : Channel)
      → queued c ≡ a ∷ rest
      → (d : Channel) × (recv c ≡ some (a, d))
  pub drop_receiver_lem :
      (c : Channel) → (queued (drop_receiver c) ≡ []) × (is_open (drop_receiver c) ≡ false)

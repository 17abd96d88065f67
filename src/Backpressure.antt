-- ===== src/Backpressure.antt =====
-- src/backpressure.rs, and `BackpressureConfig` of src/config.rs: how much is buffered, and when
-- that is too much. The shared state has one owner at a time, the holder of its lock.
mod Tests
use ws_fabric.Prelude.{
  ℕ, ◌+◌, ◌-◌, ◌*◌, ◌/◌, ◌^◌, ◌≤◌, ◌<◌, ◌≡◌, ◌↔◌, refl, Bool, true, false, ◌&&◌, not, List, [], ◌∷◌,
  arith, inl, inr, ltb, leb, if◌then◌else◌, add64, Bool-cases, ltb→lt, lt→ltb,
}
use ws_fabric.Float.{F64}

module _ (f : F64) where
  pub record BackpressureConfig : Type 0 where
    pub enabled : Bool
    pub max_buffer_size : ℕ
    pub backpressure_threshold : f.Float
    pub recovery_threshold : f.Float

  pub record BackpressureController : Type 0 where
    pub config : BackpressureConfig
    pub current_size : ℕ

  unfoldable pub new : BackpressureConfig → BackpressureController
  new c = record { config = c; current_size = 0 }

  -- The size above which there is backpressure.
  abbrev pub limit : BackpressureConfig → ℕ
  limit c = f.to_ℕ (f.mul (f.of_ℕ c.max_buffer_size) c.backpressure_threshold)

  unfoldable pub is_backpressure_active : BackpressureController → Bool
  is_backpressure_active b = if b.config.enabled then ltb (limit b.config) b.current_size else false

  unfoldable pub can_send : BackpressureController → Bool
  unfolding is_backpressure_active
  can_send b = not (is_backpressure_active b)

  abbrev pub record_send : ℕ → BackpressureController → BackpressureController
  record_send size b = record b { current_size = add64 b.current_size size }

  -- `saturating_sub`, which is the subtraction of ℕ.
  abbrev pub record_recv : ℕ → BackpressureController → BackpressureController
  record_recv size b = record b { current_size = b.current_size - size }

  abbrev pub current_size : BackpressureController → ℕ
  current_size b = b.current_size

  abbrev pub utilization : BackpressureController → f.Float
  utilization b = f.div (f.of_ℕ b.current_size) (f.of_ℕ b.config.max_buffer_size)

  unfoldable pub is_full : BackpressureController → Bool
  is_full b = leb b.config.max_buffer_size b.current_size

  -- The loop of `wait_for_backpressure_clear`, which wakes once for each state that it is given:
  -- whether it has returned.
  unfoldable pub wait_for_backpressure_clear : List BackpressureController → Bool
  wait_for_backpressure_clear [] = false
  wait_for_backpressure_clear (b ∷ later) =
      let rest = wait_for_backpressure_clear later in
      if is_backpressure_active b then rest else true

  pub data Event : Type 0 where
    send recv : ℕ → Event

  pub run : List Event → BackpressureController → BackpressureController
  run [] b = b
  run (Event.send size ∷ events) b = run events (record_send size b)
  run (Event.recv size ∷ events) b = run events (record_recv size b)

  -- What has been sent, and what has been received.
  abbrev pub sent : List Event → ℕ
  sent [] = 0
  sent (Event.send size ∷ events) = size + sent events
  sent (Event.recv size ∷ events) = sent events

  abbrev pub received : List Event → ℕ
  received [] = 0
  received (Event.send size ∷ events) = received events
  received (Event.recv size ∷ events) = size + received events

  run_within :
      (events : List Event) (b : BackpressureController)
      → b.current_size + sent events < 2 ^ 64
      → ((run events b).current_size ≤ b.current_size + sent events)
        × (b.current_size + sent events ≤ (run events b).current_size + received events)
        × ((run events b).config ≡ b.config)
  unfolding run
  run_within [] b h = (omega arith, omega arith, refl)
  run_within (Event.send size ∷ events) b h =
      let later = run_within events (record_send size b) (omega arith) in
      (omega (arith, later.0), omega (arith, later.1), later.2)
  run_within (Event.recv size ∷ events) b h =
      let later = run_within events (record_recv size b) (omega arith) in
      (omega (arith, later.0), omega (arith, later.1), later.2)

  is_backpressure_active_lem :
      (b : BackpressureController) (c : BackpressureConfig)
      → b.config ≡ c
      → c.enabled ≡ true
      → is_backpressure_active b ≡ ltb (limit c) b.current_size
  unfolding is_backpressure_active
  is_backpressure_active_lem b c same on = ground (arith, same)

  -- Whatever is sent and received (less than 2 ^ 64 bytes sent in all), the recorded size of an
  -- enabled controller lies between what was sent less what was received and what was sent: so if
  -- it has backpressure it was sent more than the limit, and if it was sent more than the limit
  -- plus what it received then it has backpressure.
  pub backpressure_lem :
      (c : BackpressureConfig) (events : List Event)
      → c.enabled ≡ true
      → sent events < 2 ^ 64
      → ((run events (new c)).current_size ≤ sent events)
        × (sent events ≤ (run events (new c)).current_size + received events)
        × ((is_backpressure_active (run events (new c)) ≡ true) → (limit c < sent events))
        × ((limit c + received events < sent events)
            → (is_backpressure_active (run events (new c)) ≡ true))
  unfolding new
  backpressure_lem c events on h =
      let bounds = run_within events (new c) (omega arith) in
      let test = is_backpressure_active_lem (run events (new c)) c bounds.2 on in
      (
        omega (arith, bounds.0),
        omega (arith, bounds.1),
        (λ active. ground (arith, bounds.0, test)),
        (λ over. ground (arith, bounds.1, test)),
      )

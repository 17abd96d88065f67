-- ===== src/Reconnect.antt =====
-- src/reconnect.rs, and `ReconnectConfig` of src/config.rs: waiting longer before each attempt to
-- reconnect. Durations and clock readings are nanoseconds.
mod Tests
use ws_fabric.Prelude.{
  ℕ, ◌+◌, ◌*◌, ◌/◌, ◌^◌, ◌≤◌, ◌<◌, ◌≡◌, ◌↔◌, refl, ap, ◌∙◌, Bool, true, false, ◌&&◌, not, List, [],
  ◌∷◌, Option, none, some, arith, min, inl, inr, length, ltb, leb, if◌then◌else◌, add32, Bool-cases,
}
use ws_fabric.Error.{Error, Result, ok, err}
use ws_fabric.Float.{F64}

abbrev pub nanos_per_milli : ℕ
nanos_per_milli = 1000000

module _ (f : F64) where
  pub record ReconnectConfig : Type 0 where
    pub enabled : Bool
    pub max_attempts : ℕ
    pub initial_delay : ℕ
    pub max_delay : ℕ
    pub backoff_multiplier : f.Float

  pub record ReconnectState : Type 0 where
    pub config : ReconnectConfig
    pub attempt : ℕ
    pub last_attempt : Option ℕ
    pub current_delay : ℕ

  abbrev pub default : ReconnectConfig
  default = record {
    enabled = true;
    max_attempts = 0;
    initial_delay = 100 * nanos_per_milli;
    max_delay = 30000 * nanos_per_milli;
    backoff_multiplier = f.div (f.of_ℕ 3) (f.of_ℕ 2);
  }

  unfoldable pub new : ReconnectConfig → ReconnectState
  new c = record { config = c; attempt = 0; last_attempt = none; current_delay = c.initial_delay }

  abbrev pub is_enabled : ReconnectState → Bool
  is_enabled s = s.config.enabled

  abbrev pub next_delay : ReconnectState → ℕ
  next_delay s = s.current_delay

  abbrev pub attempt_count : ReconnectState → ℕ
  attempt_count s = s.attempt

  unfoldable pub should_reconnect : ReconnectState → Bool
  should_reconnect s =
      if s.config.enabled
      then (if ltb 0 s.config.max_attempts && leb s.config.max_attempts s.attempt
          then false
          else true)
      else false

  abbrev next_millis : ReconnectState → ℕ
  next_millis s = f.to_ℕ (
      f.minimum (f.mul (f.of_ℕ (s.current_delay / nanos_per_milli)) s.config.backoff_multiplier)
        (f.of_ℕ (s.config.max_delay / nanos_per_milli)))

  unfoldable pub record_attempt : ℕ → ReconnectState → ReconnectState
  record_attempt now s = record s {
    attempt = add32 s.attempt 1;
    last_attempt = some now;
    current_delay = next_millis s * nanos_per_milli;
  }

  unfoldable pub reset : ReconnectState → ReconnectState
  reset s = record s { attempt = 0; last_attempt = none; current_delay = s.config.initial_delay }

  -- The time to sleep, or the refusal.
  unfoldable pub wait_for_next_attempt : ReconnectState → Result ℕ
  wait_for_next_attempt s =
      if should_reconnect s then ok s.current_delay else err Error.reconnect_timeout

  -- A client that records an attempt at each clock reading, as long as it should reconnect.
  pub attempts : List ℕ → ReconnectState → ReconnectState
  attempts [] s = s
  attempts (now ∷ times) s = attempts times (if should_reconnect s then record_attempt now s else s)

  -- The delay after an attempt is at most the configured maximum, if that is at most 2 ^ 53
  -- milliseconds, whatever the multiplier is, a NaN included.
  record_attempt-within :
      (now : ℕ) (s : ReconnectState)
      → s.config.max_delay / nanos_per_milli ≤ 2 ^ 53
      → (record_attempt now s).current_delay ≤ s.config.max_delay
  unfolding record_attempt
  record_attempt-within now s h =
      let top : ℕ = s.config.max_delay / nanos_per_milli in
      let grown : f.Float =
        f.mul (f.of_ℕ (s.current_delay / nanos_per_milli)) s.config.backoff_multiplier in
      omega (arith, f.to_ℕ-minimum-le grown top, f.to_ℕ-of_ℕ top h)

  abbrev pub IsTrying : ReconnectState → Type 0
  IsTrying s =
      (s.config.enabled ≡ true)
      × (0 < s.config.max_attempts)
      × (s.config.max_attempts < 2 ^ 32)
      × (s.attempt ≤ s.config.max_attempts)

  -- With a limit on attempts, another one is made exactly below the limit.
  should_reconnect_lem :
      (s : ReconnectState)
      → IsTrying s
      → should_reconnect s ≡ not (leb s.config.max_attempts s.attempt)
  unfolding should_reconnect
  should_reconnect_lem s (on, p, _, _) = ground arith

  IsTrying-next :
      (now : ℕ) (s : ReconnectState)
      → IsTrying s
      → add32 s.attempt 1 ≤ s.config.max_attempts
      → IsTrying (record_attempt now s)
  unfolding record_attempt
  IsTrying-next now s (on, p, small, _) h = (on, p, small, h)

  attempts-step :
      (now : ℕ) (times : List ℕ) (s : ReconnectState) (b : Bool)
      → should_reconnect s ≡ b
      → attempts (now ∷ times) s ≡ attempts times (if b then record_attempt now s else s)
  unfolding attempts
  attempts-step now times s b e = ap (λ t. attempts times (if t then record_attempt now s else s)) e

  attempts_from :
      (times : List ℕ) (s : ReconnectState)
      → IsTrying s
      → ((attempts times s).attempt ≡ min (s.attempt + length times) s.config.max_attempts)
        × ((attempts times s).config ≡ s.config)
  unfolding record_attempt
  attempts_from [] s h = unfold attempts in (omega (arith, h.3), refl)
  attempts_from (now ∷ times) s h = elim (Bool-cases (leb s.config.max_attempts s.attempt)) [
    | inl e ↦
        let stays : should_reconnect s ≡ false = rw (should_reconnect_lem s h, e) in
        let rest = attempts_from times s h in
        let reached : s.config.max_attempts ≤ s.attempt = ground arith in
        rw (attempts-step now times s false stays) (omega (arith, rest.0, reached), rest.1)
    | inr e ↦
        let goes : should_reconnect s ≡ true = rw (should_reconnect_lem s h, e) in
        let below : s.attempt < s.config.max_attempts = ground arith in
        let next : add32 s.attempt 1 ≤ s.config.max_attempts = omega (arith, h.2, below) in
        let rest = attempts_from times (record_attempt now s) (IsTrying-next now s h next) in
        rw (attempts-step now times s true goes) (omega (arith, rest.0, below, h.2), rest.1)
  ]

  -- With reconnection enabled and a limit on attempts of 1 to 2 ^ 32 - 1, a client that tries at
  -- some number of times makes that many attempts up to the limit, and should then try again
  -- exactly if the limit is not reached.
  pub attempts_lem :
      (times : List ℕ) (c : ReconnectConfig)
      → c.enabled ≡ true
      → 0 < c.max_attempts
      → c.max_attempts < 2 ^ 32
      → ((attempts times (new c)).attempt ≡ min (length times) c.max_attempts)
        × (should_reconnect (attempts times (new c)) ≡ ltb (length times) c.max_attempts)
  unfolding new
  attempts_lem times c on p small =
      let s : ReconnectState = attempts times (new c) in
      let (count, same) = attempts_from times (new c) (on, p, small, omega arith) in
      let trying : IsTrying s = simp same (on, p, small, omega (arith, count)) in
      let same_limit : s.config.max_attempts ≡ c.max_attempts =
        ap (λ (d : ReconnectConfig). d.max_attempts) same in
      (omega (arith, count), should_reconnect_lem s trying ∙ ground (arith, count, same_limit))

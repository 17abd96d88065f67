-- ===== src/Error.antt =====
-- src/error.rs: the errors and `Result`. The texts that only a human reads are left out; the
-- fields that carry numbers are kept.
pub mod Make
use ws_fabric.Prelude.{ℕ, Bool, true, false}
use ws_fabric.RateLimitType.{RateLimitType}

pub data Error : Type 0 where
  connection_failed connection_closed reconnect_timeout invalid_frame : Error
  message_too_large : ℕ → ℕ → Error
  utf8_error protocol_violation handshake_failed io web_socket invalid_url : Error
  buffer_full backpressure_timeout authentication_failed tls not_supported : Error
  invalid_state timeout invalid_subprotocol subprotocol_negotiation_failed : Error
  -- what was limited, and the time to wait in nanoseconds
  rate_limit_exceeded : RateLimitType → ℕ → Error
  -- connections counted, and the limit
  connection_limit_exceeded : ℕ → ℕ → Error

pub data Result {ℓ} (A : Type ℓ) : Type ℓ where
  ok : A → Result A
  err : Error → Result A

abbrev pub is_ok {ℓ} : {A : Type ℓ} → Result A → Bool
is_ok (ok a) = true
is_ok (err e) = false

infixl 5 ◌>>=◌ ◌>>◌
-- The `?` operator, with what follows it.
abbrev pub ◌>>=◌ {ℓ κ} : {A : Type ℓ} {B : Type κ} → Result A → (A → Result B) → Result B
err failure >>= next = err failure
ok value >>= next = next value

-- The same after a call that returns nothing.
abbrev pub ◌>>◌ {κ} : {B : Type κ} → Result (Unit {0}) → Result B → Result B
first >> next = first >>= λ _. next

-- An early `return Err(e)` unless the test holds.
abbrev pub ensure : Bool → Error → Result (Unit {0})
ensure false failure = err failure
ensure true failure = ok tt

unfoldable pub is_retryable : Error → Bool
is_retryable Error.io = true
is_retryable Error.connection_closed = true
is_retryable Error.timeout = true
is_retryable Error.tls = true
is_retryable _ = false

unfoldable pub should_reconnect : Error → Bool
should_reconnect Error.io = true
should_reconnect Error.connection_closed = true
should_reconnect Error.timeout = true
should_reconnect _ = false

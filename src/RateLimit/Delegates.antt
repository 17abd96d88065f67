-- ===== src/RateLimit/Delegates.antt =====
-- src/ratelimit.rs: the builder methods of `RateLimitConfig`, and what `GlobalRateLimiter` leaves to
-- its limiter.
use ws_fabric.Prelude.{ℕ, Bool, List, Option}
use ws_fabric.Error.{Result}
use ws_fabric.Float.{F64}
use ws_fabric.RateLimitType.{RateLimitType}
use ws_fabric.RateLimit.{
  RateLimitConfig, RateLimiter, RateLimitStatus, default, disabled, new, try_acquire, acquire,
  status, reset, is_enabled,
}
use ws_fabric.RateLimit.Global.{GlobalRateLimiter, new as new_global}

abbrev pub with_messages_per_second : ℕ → RateLimitConfig → RateLimitConfig
with_messages_per_second limit c = record c { messages_per_second = limit }

abbrev pub with_bytes_per_second : ℕ → RateLimitConfig → RateLimitConfig
with_bytes_per_second limit c = record c { bytes_per_second = limit }

abbrev pub with_operations_per_second : ℕ → RateLimitConfig → RateLimitConfig
with_operations_per_second limit c = record c { operations_per_second = limit }

abbrev pub with_burst_size : ℕ → RateLimitConfig → RateLimitConfig
with_burst_size size c = record c { burst_size = size }

unfoldable pub default_config : ℕ → RateLimiter
default_config now = new now default

unfoldable pub disabled_limiter : ℕ → RateLimiter
disabled_limiter now = new now disabled

unfoldable pub global_default_config : ℕ → ℕ → GlobalRateLimiter
global_default_config now limit = new_global now default limit

-- The limiter's part of an answer, put back.
abbrev pub with_limiter {ℓ} :
    {A : Type ℓ} → GlobalRateLimiter → A × RateLimiter → A × GlobalRateLimiter
with_limiter g (answer, l) = (answer, record g { limiter = l })

module _ (f : F64) where
  abbrev pub global_try_acquire :
      ℕ → ℕ → GlobalRateLimiter → RateLimitType → ℕ → Result (Unit {0}) × GlobalRateLimiter
  global_try_acquire now later g ty amount =
      with_limiter g (try_acquire f now later g.limiter ty amount)

  abbrev pub global_acquire :
      GlobalRateLimiter
      → RateLimitType
      → ℕ
      → List (ℕ × ℕ)
      → Option (Result (Unit {0})) × GlobalRateLimiter
  global_acquire g ty amount rounds = with_limiter g (acquire f g.limiter ty amount rounds)

  abbrev pub global_status :
      ℕ → ℕ → GlobalRateLimiter → RateLimitType → RateLimitStatus × GlobalRateLimiter
  global_status now later g ty = with_limiter g (status f now later g.limiter ty)

abbrev pub global_is_enabled : GlobalRateLimiter → Bool
global_is_enabled g = is_enabled g.limiter

abbrev pub global_reset : ℕ → GlobalRateLimiter → GlobalRateLimiter
global_reset now g = record g { limiter = reset now g.limiter }

-- `Default for RateLimiter`
unfoldable pub default_limiter : ℕ → RateLimiter
unfolding default_config
default_limiter now = default_config now

abbrev pub config : RateLimiter → RateLimitConfig
config l = l.config

abbrev pub connection_count : GlobalRateLimiter → ℕ
connection_count g = g.connection_count

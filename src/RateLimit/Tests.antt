-- ===== src/RateLimit/Tests.antt =====
-- src/ratelimit.rs: a new limiter with the default configuration, and a limit of two connections.
use ws_fabric.Prelude.{◌+◌, ◌≤◌, ◌≡◌, refl, arith, [], ◌∷◌, none}
use ws_fabric.Float.Rationals.{rationals}
use ws_fabric.RateLimitType.{RateLimitType, type_eq}
use ws_fabric.RateLimit.{RateLimiter, default, new, try_acquire, acquire}
use ws_fabric.RateLimit.Limiter.{
  HasBucket, IsValid, Outcome, try_acquire-Outcome, try_acquire-IsValid,
}
use ws_fabric.RateLimit.Limiter.Acquire.{new-limiter-IsValid, acquire_over_capacity_waits}
use ws_fabric.RateLimit.Global
use ws_fabric.RateLimit.Global.{
  GlobalRateLimiter, add_connection, add_connection_lem, add_connection_limits, World, Reach, here,
  next, admits, start,
}

abbrev limiter : RateLimiter
limiter = new 5 default

limiter-IsValid : IsValid 5 limiter
limiter-IsValid = new-limiter-IsValid 5 default (omega arith) (omega arith)

try_acquire-IsValid_example :
    IsValid 8 (try_acquire rationals 5 8 limiter RateLimitType.byte 2000).1
try_acquire-IsValid_example =
    try_acquire-IsValid rationals 5 8 limiter RateLimitType.byte 2000 (omega arith) (omega arith)
      limiter-IsValid

abbrev message_bucket : HasBucket 5 limiter RateLimitType.message
message_bucket = limiter-IsValid RateLimitType.message

try_acquire-Outcome_example :
    Outcome rationals 5 8 limiter RateLimitType.message 7 message_bucket.bucket
try_acquire-Outcome_example =
    try_acquire-Outcome rationals 5 8 limiter RateLimitType.message 7 message_bucket.bucket
      (omega arith) (omega arith) (omega arith) message_bucket.found message_bucket.valid

acquire_over_capacity_waits_example :
    (acquire rationals limiter RateLimitType.message 101 ((6, 7) ∷ (8, 9) ∷ [])).0 ≡ none
unfolding new
acquire_over_capacity_waits_example =
    acquire_over_capacity_waits rationals 5 limiter RateLimitType.message 101 ((6, 7) ∷ (8, 9) ∷ [])
      limiter-IsValid
      (omega arith, omega arith, omega arith, (omega arith, omega arith, omega arith, tt))
      (omega arith)

abbrev one_open : World
one_open = record {
  shared = record (start 5 default 2).shared { connection_count = 1 };
  open_connections = 1;
  withdrawing = 0;
}

admitted : Reach (start 5 default 2) one_open
unfolding Global.new Global.exceeds Global.fetch_add
admitted = next here (omega arith) (admits (start 5 default 2) refl)

add_connection_limits_example :
    (one_open.open_connections ≤ one_open.shared.max_connections)
    × (one_open.shared.connection_count ≡ one_open.open_connections + one_open.withdrawing)
add_connection_limits_example = add_connection_limits 5 default 2 one_open admitted

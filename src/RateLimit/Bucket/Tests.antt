-- ===== src/RateLimit/Bucket/Tests.antt =====
-- src/ratelimit.rs: a bucket of 10 tokens, 5 a second, that has been full for two seconds.
use ws_fabric.Prelude.{ℕ, ◌≤◌, ◌≡◌, refl, arith, true}
use ws_fabric.Float.Rationals.{rationals}
use ws_fabric.RateLimit.Bucket.{TokenBucket, try_consume, tokens_for}
use ws_fabric.RateLimit.Bucket.Bounds.{IsValid}
use ws_fabric.RateLimit.Bucket.Burst.{burst_doubles_capacity}

abbrev bucket : TokenBucket
bucket = record { tokens = 10; last_refill = 0; capacity = 10; refill_rate = 5 }

abbrev now : ℕ
now = 2000000000

bucket-IsValid : IsValid now bucket
bucket-IsValid = record {
  within = omega arith;
  past = omega arith;
  small = (omega arith, omega arith);
}

due : 10 ≤ tokens_for rationals now 5
unfolding tokens_for
due = omega arith

burst_doubles_capacity_example :
    ((try_consume rationals now 10 bucket).0 ≡ true)
    × ((try_consume rationals now 10 (try_consume rationals now 10 bucket).1).0 ≡ true)
burst_doubles_capacity_example =
    burst_doubles_capacity rationals now bucket bucket-IsValid refl (omega arith) (omega arith)
      (omega arith) (omega arith) due

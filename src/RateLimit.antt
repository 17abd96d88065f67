-- ===== src/RateLimit.antt =====
-- src/ratelimit.rs: the configuration and `RateLimiter`. The buckets live in `Bucket`, the limiter
-- of a pool of connections in `Global`. A clone shares its buckets, so there is one state.
pub mod Bucket
pub mod Limiter
pub mod Global
pub mod Delegates
mod Tests
use ws_fabric.Prelude.{
  ℕ, ◌*◌, ◌^◌, ◌-◌, Bool, true, false, not, List, [], ◌∷◌, Option, none, some, max, map, ◌==◌,
  if◌then◌else◌, u64_max,
}
use ws_fabric.Prelude.Assoc.{lookup, insert}
use ws_fabric.Error.{Error, Result, ok, err}
use ws_fabric.Float.{F64}
use ws_fabric.RateLimitType.{RateLimitType, all_types, type_eq}
use ws_fabric.RateLimit.Bucket.{
  TokenBucket, try_consume, time_until_full, available, new as new_bucket, reset as reset_bucket,
}

pub record RateLimitConfig : Type 0 where
  pub messages_per_second : ℕ
  pub bytes_per_second : ℕ
  pub operations_per_second : ℕ
  pub burst_size : ℕ

abbrev pub default : RateLimitConfig
default = record {
  messages_per_second = 100;
  bytes_per_second = 1024 * 1024;
  operations_per_second = 1000;
  burst_size = 100;
}

abbrev pub disabled : RateLimitConfig
disabled = record {
  messages_per_second = u64_max;
  bytes_per_second = u64_max;
  operations_per_second = u64_max;
  burst_size = u64_max;
}

abbrev pub get_limit : RateLimitConfig → RateLimitType → ℕ
get_limit c RateLimitType.message = c.messages_per_second
get_limit c RateLimitType.byte = c.bytes_per_second
get_limit c RateLimitType.operation = c.operations_per_second

-- The capacity that `RateLimiter::new` gives a bucket.
abbrev pub capacity_for : RateLimitConfig → RateLimitType → ℕ
capacity_for c RateLimitType.byte = max c.burst_size 1024
capacity_for c _ = max c.burst_size 1

pub record RateLimiter : Type 0 where
  pub config : RateLimitConfig
  pub buckets : List (RateLimitType × TokenBucket)

pub record RateLimitStatus : Type 0 where
  pub remaining : ℕ
  pub resets_in : ℕ
  pub limit : ℕ
  pub capacity : ℕ

-- The loop of `new`.
pub make_buckets :
    ℕ
    → RateLimitConfig
    → List RateLimitType
    → List (RateLimitType × TokenBucket)
    → List (RateLimitType × TokenBucket)
make_buckets now c [] buckets = buckets
make_buckets now c (ty ∷ tys) buckets =
    make_buckets now c tys (insert ty (new_bucket now (capacity_for c ty) (get_limit c ty)) buckets)

unfoldable pub new : ℕ → RateLimitConfig → RateLimiter
unfolding make_buckets
new now c = record { config = c; buckets = make_buckets now c all_types [] }

-- A bucket that was changed in place.
abbrev pub put : RateLimiter → RateLimitType → TokenBucket → RateLimiter
put l ty b = record l { buckets = insert ty b l.buckets }

module _ (f : F64) where
  pub acquire_from :
      ℕ → ℕ → RateLimiter → RateLimitType → ℕ → Option TokenBucket → Result (Unit {0}) × RateLimiter
  acquire_from now later l ty amount none = (err Error.invalid_state, l)
  acquire_from now later l ty amount (some b) =
      let (granted, b') = try_consume f now amount b in
      if granted
      then (ok tt, put l ty b')
      else (let (wait, b'') = time_until_full f later b' in
          (err (Error.rate_limit_exceeded ty wait), put l ty b''))

  -- The clock is read for the request at `now`, and for the answer to a refusal at `later`.
  pub try_acquire : ℕ → ℕ → RateLimiter → RateLimitType → ℕ → Result (Unit {0}) × RateLimiter
  try_acquire now later l ty amount =
      if amount == 0 then (ok tt, l) else acquire_from now later l ty amount (lookup ty l.buckets)

  -- One round of the loop of `acquire`, with the rounds that follow it.
  pub acquire_round :
      (RateLimiter → Option (Result (Unit {0})) × RateLimiter)
      → Result (Unit {0}) × RateLimiter
      → Option (Result (Unit {0})) × RateLimiter
  acquire_round again (ok _, l') = (some (ok tt), l')
  acquire_round again (err (Error.rate_limit_exceeded _ _), l') = again l'
  acquire_round again (err e, l') = (some (err e), l')

  -- The loop of `acquire`: one pair of clock readings for each round. `none`: still asleep.
  pub acquire_loop :
      RateLimiter → RateLimitType → ℕ → List (ℕ × ℕ) → Option (Result (Unit {0})) × RateLimiter
  acquire_loop l ty amount [] = (none, l)
  acquire_loop l ty amount ((now, later) ∷ rounds) =
      acquire_round (λ l'. acquire_loop l' ty amount rounds) (try_acquire now later l ty amount)

  pub acquire :
      RateLimiter → RateLimitType → ℕ → List (ℕ × ℕ) → Option (Result (Unit {0})) × RateLimiter
  acquire l ty amount rounds =
      if amount == 0 then (some (ok tt), l) else acquire_loop l ty amount rounds

  status_from :
      ℕ → ℕ → RateLimiter → RateLimitType → Option TokenBucket → RateLimitStatus × RateLimiter
  status_from now later l ty none =
      (record { remaining = 0; resets_in = 0; limit = 0; capacity = 0 }, l)
  status_from now later l ty (some b) =
      let (remaining, b') = available f now b in
      let (wait, b'') = time_until_full f later b' in
      (
        record {
          remaining = remaining;
          resets_in = wait;
          limit = b''.refill_rate;
          capacity = b''.capacity;
        },
        put l ty b'',
      )

  unfoldable pub status : ℕ → ℕ → RateLimiter → RateLimitType → RateLimitStatus × RateLimiter
  unfolding status_from
  status now later l ty = status_from now later l ty (lookup ty l.buckets)

-- One clock reading serves all buckets.
unfoldable pub reset : ℕ → RateLimiter → RateLimiter
reset now l = record l { buckets = map (λ e. (e.0, reset_bucket now e.1)) l.buckets }

reset_from : ℕ → RateLimiter → RateLimitType → Option TokenBucket → RateLimiter
reset_from now l ty none = l
reset_from now l ty (some b) = put l ty (reset_bucket now b)

unfoldable pub reset_type : ℕ → RateLimiter → RateLimitType → RateLimiter
unfolding reset_from
reset_type now l ty = reset_from now l ty (lookup ty l.buckets)

unfoldable pub is_enabled : RateLimiter → Bool
is_enabled l = not (l.config.messages_per_second == u64_max)

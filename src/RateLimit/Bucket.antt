-- ===== src/RateLimit/Bucket.antt =====
-- src/ratelimit.rs, `TokenBucket`. Time is in nanoseconds and an argument of each call. The
-- limiter calls a bucket under its lock, so the two atomics change in one thread at a time and a
-- `compare_exchange_weak` that fails for no reason is merely repeated.
pub mod Bounds
pub mod Burst
mod Tests
use ws_fabric.Prelude.{
  ℕ, ◌-◌, ◌*◌, ◌^◌, Bool, true, false, ◌==◌, ltb, leb, if◌then◌else◌, min, saturating_add64, Text,
}
use ws_fabric.Float.{F64}

pub record TokenBucket : Type 0 where
  pub tokens : ℕ
  pub last_refill : ℕ
  pub capacity : ℕ
  pub refill_rate : ℕ

unfoldable pub new : ℕ → ℕ → ℕ → TokenBucket
new now capacity rate = record {
  tokens = capacity;
  last_refill = now;
  capacity = capacity;
  refill_rate = rate;
}

abbrev pub nanos_per_second : ℕ
nanos_per_second = 1_000_000_000

-- The test and the exchange of `try_consume`.
pub take_tokens : ℕ → TokenBucket → Bool × TokenBucket
take_tokens amount b =
    if ltb b.tokens amount then (false, b) else (true, record b { tokens = b.tokens - amount })

module _ (f : F64) where
  -- `(elapsed_nanos as f64 / 1e9 * refill_rate as f64) as u64`
  pub tokens_for : ℕ → ℕ → ℕ
  tokens_for elapsed rate =
      f.to_ℕ (f.mul (f.div (f.of_ℕ elapsed) (f.of_ℕ nanos_per_second)) (f.of_ℕ rate))

  -- `(added_tokens as f64 / refill_rate as f64 * 1e9) as u64`
  pub nanos_for : ℕ → ℕ → ℕ
  nanos_for added rate =
      f.to_ℕ (f.mul (f.div (f.of_ℕ added) (f.of_ℕ rate)) (f.of_ℕ nanos_per_second))

  -- The body of `refill` once there are tokens to add.
  pub credit : ℕ → ℕ → TokenBucket → TokenBucket
  credit elapsed to_add b =
      let new_tokens = min (saturating_add64 b.tokens to_add) b.capacity in
      let added = new_tokens - b.tokens in
      record b {
        tokens = new_tokens;
        last_refill = saturating_add64 b.last_refill (min (nanos_for added b.refill_rate) elapsed);
      }

  pub refill : ℕ → TokenBucket → TokenBucket
  refill now b =
      let elapsed = now - b.last_refill in
      let to_add = tokens_for elapsed b.refill_rate in
      if elapsed == 0 then b else if ltb 0 to_add then credit elapsed to_add b else b

  pub try_consume : ℕ → ℕ → TokenBucket → Bool × TokenBucket
  try_consume now amount b = take_tokens amount (refill now b)

  pub available : ℕ → TokenBucket → ℕ × TokenBucket
  available now b = let b' = refill now b in (b'.tokens, b')

  -- The wait that `time_until_full` computes from the tokens at hand.
  pub wait_for : ℕ → TokenBucket → ℕ
  wait_for at_hand b =
      if leb b.capacity at_hand
      then 0
      else if b.refill_rate == 0
      then 60 * nanos_per_second
      else f.from_secs (f.div (f.of_ℕ (b.capacity - at_hand)) (f.of_ℕ b.refill_rate))

  pub time_until_full : ℕ → TokenBucket → ℕ × TokenBucket
  time_until_full now b = let (at_hand, b') = available now b in (wait_for at_hand b', b')

pub reset : ℕ → TokenBucket → TokenBucket
reset now b = record b { tokens = b.capacity; last_refill = now }

abbrev pub capacity : TokenBucket → ℕ
capacity b = b.capacity

abbrev pub refill_rate : TokenBucket → ℕ
refill_rate b = b.refill_rate

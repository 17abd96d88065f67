-- ===== src/RateLimit/Bucket/Burst.antt =====
-- A full bucket that has been idle.
use ws_fabric.Prelude.{
  ℕ, ◌-◌, ◌^◌, ◌≤◌, ◌<◌, ◌≡◌, refl, ap, true, inl, inr, arith, min, saturating_add64, le→ltb,
}
use ws_fabric.Float.{F64}
use ws_fabric.RateLimit.Bucket.{
  TokenBucket, credit, refill, take_tokens, try_consume, tokens_for, nanos_for, nanos_per_second,
}
use ws_fabric.RateLimit.Bucket.Bounds.{IsValid, try_consume_lem}

module _ (f : F64) where
  nanos_for-zero : (rate : ℕ) → 0 < rate → rate < 2 ^ 64 → nanos_for f 0 rate ≡ 0
  unfolding nanos_for
  nanos_for-zero rate h k = f.to_ℕ-zero rate nanos_per_second h k

  -- Where at least the capacity is due, a refill fills the bucket.
  refill-full :
      (now : ℕ) (b : TokenBucket)
      → IsValid now b
      → b.last_refill < now
      → 0 < b.capacity
      → b.capacity ≤ tokens_for f (now - b.last_refill) b.refill_rate
      → (refill f now b).tokens ≡ b.capacity
  unfolding refill credit
  refill-full now b v h p due = ground arith

  -- A full bucket has nothing added, and so its time does not move.
  credit-full :
      (elapsed to_add : ℕ) (b : TokenBucket)
      → b.tokens ≡ b.capacity
      → b.capacity < 2 ^ 64
      → b.last_refill < 2 ^ 64
      → 0 < b.refill_rate
      → b.refill_rate < 2 ^ 64
      → credit f elapsed to_add b ≡ b
  unfolding credit
  credit-full elapsed to_add b full c l p q =
      let same : min (saturating_add64 b.tokens to_add) b.capacity ≡ b.tokens = omega arith in
      let nothing : min (saturating_add64 b.tokens to_add) b.capacity - b.tokens ≡ 0 =
        omega arith in
      ground (
        arith,
        same,
        ap (λ n. nanos_for f n b.refill_rate) nothing,
        nanos_for-zero b.refill_rate p q,
      )

  -- A refill of a full bucket forgets the time that has passed: it stays due.
  refill_keeps_due :
      (now : ℕ) (b : TokenBucket)
      → IsValid now b
      → b.tokens ≡ b.capacity
      → 0 < b.refill_rate
      → b.refill_rate < 2 ^ 64
      → refill f now b ≡ b
  unfolding refill
  refill_keeps_due now b v full p q = ground (
    arith,
    credit-full (now - b.last_refill) (tokens_for f (now - b.last_refill) b.refill_rate) b full
        v.small.0 (omega (arith, v.past, v.small.1)) p q,
  )

  first_burst :
      (now : ℕ) (b : TokenBucket)
      → refill f now b ≡ b
      → b.tokens ≡ b.capacity
      → try_consume f now b.capacity b ≡ (true, record b { tokens = b.tokens - b.capacity })
  unfolding try_consume take_tokens
  first_burst now b kept full = rw kept (rw (le→ltb b.tokens b.capacity (omega arith)))

  -- A valid bucket, of a positive capacity and rate, that has been full for as long as its capacity
  -- takes to accrue grants its capacity twice at one instant: the time for which nothing was added
  -- stays due.
  pub burst_doubles_capacity :
      (now : ℕ) (b : TokenBucket)
      → IsValid now b
      → b.tokens ≡ b.capacity
      → b.last_refill < now
      → 0 < b.capacity
      → 0 < b.refill_rate
      → b.refill_rate < 2 ^ 64
      → b.capacity ≤ tokens_for f (now - b.last_refill) b.refill_rate
      → ((try_consume f now b.capacity b).0 ≡ true)
        × ((try_consume f now b.capacity (try_consume f now b.capacity b).1).0 ≡ true)
  burst_doubles_capacity now b v full h p r q due =
      let once = first_burst now b (refill_keeps_due now b v full r q) full in
      let b' : TokenBucket = record b { tokens = b.tokens - b.capacity } in
      let v' : IsValid now b' = record { within = omega arith; past = v.past; small = v.small } in
      let filled = refill-full now b' v' h p due in
      rw once (
        refl,
        elim (try_consume_lem f now b.capacity b') [
          | inl granted ↦ granted.0
          | inr refused ↦ absurd (omega (arith, refused.1, filled))
        ],
      )

-- ===== src/RateLimit/Bucket/Bounds.antt =====
-- A bucket never holds more than its capacity, and never credits time that has not passed.
use ws_fabric.Prelude.{
  ℕ, ◌+◌, ◌-◌, ◌^◌, ◌≤◌, ◌<◌, ◌≡◌, ◌⊎◌, true, false, ◌==◌, ltb, inl, inr, Bool-cases, arith,
}
use ws_fabric.Float.{F64}
use ws_fabric.RateLimit.Bucket.{
  TokenBucket, new, credit, refill, take_tokens, try_consume, available, time_until_full, reset,
  tokens_for,
}

-- At a time, a bucket of 64-bit numbers.
pub record IsValid (now : ℕ) (b : TokenBucket) : Type 0 where
  pub within : b.tokens ≤ b.capacity
  pub past : b.last_refill ≤ now
  pub small : (b.capacity < 2 ^ 64) × (now < 2 ^ 64)

-- What no operation changes.
abbrev pub SameLimits : TokenBucket → TokenBucket → Type 0
SameLimits b b' = (b'.capacity ≡ b.capacity) × (b'.refill_rate ≡ b.refill_rate)

module _ (f : F64) where
  credit-IsValid :
      (now to_add : ℕ) (b : TokenBucket)
      → IsValid now b
      → IsValid now (credit f (now - b.last_refill) to_add b)
  unfolding credit
  credit-IsValid now to_add b v = record {
    within = omega arith;
    past = omega (arith, v.past);
    small = v.small;
  }

  pub refill-IsValid : (now : ℕ) (b : TokenBucket) → IsValid now b → IsValid now (refill f now b)
  unfolding refill
  refill-IsValid now b v =
      let elapsed : ℕ = now - b.last_refill in
      let to_add : ℕ = tokens_for f elapsed b.refill_rate in
      elim (Bool-cases (elapsed == 0)) [
        | inl none_passed ↦ rw none_passed v
        | inr passed ↦ elim (Bool-cases (ltb 0 to_add)) [
          | inl some_due ↦ rw (passed, some_due) (credit-IsValid now to_add b v)
          | inr none_due ↦ rw (passed, none_due) v
        ]
      ]

  pub SameLimits-refill : (now : ℕ) (b : TokenBucket) → SameLimits b (refill f now b)
  unfolding refill credit
  SameLimits-refill now b = ground arith

  -- A refill takes no token away.
  pub refill_mono : (now : ℕ) (b : TokenBucket) → IsValid now b → b.tokens ≤ (refill f now b).tokens
  unfolding refill credit
  refill_mono now b v = ground arith

  take_tokens-IsValid :
      (now amount : ℕ) (b : TokenBucket) → IsValid now b → IsValid now (take_tokens amount b).1
  unfolding take_tokens
  take_tokens-IsValid now amount b v = elim (Bool-cases (ltb b.tokens amount)) [
    | inl short ↦ rw short v
    | inr enough ↦
        rw enough (record { within = omega (arith, v.within); past = v.past; small = v.small })
  ]

  pub try_consume-IsValid :
      (now amount : ℕ) (b : TokenBucket)
      → IsValid now b
      → IsValid now (try_consume f now amount b).1
  unfolding try_consume
  try_consume-IsValid now amount b v =
      take_tokens-IsValid now amount (refill f now b) (refill-IsValid now b v)

  pub SameLimits-try_consume :
      (now amount : ℕ) (b : TokenBucket) → SameLimits b (try_consume f now amount b).1
  unfolding try_consume take_tokens
  SameLimits-try_consume now amount b = ground (arith, SameLimits-refill now b)

  -- A request is granted exactly if the refilled bucket has the tokens; then they are taken, and
  -- otherwise the bucket is only refilled.
  pub try_consume_lem :
      (now amount : ℕ) (b : TokenBucket)
      → (((try_consume f now amount b).0 ≡ true)
          × (amount ≤ (refill f now b).tokens)
          × ((try_consume f now amount b).1.tokens + amount ≡ (refill f now b).tokens))
        ⊎ (((try_consume f now amount b).0 ≡ false)
            × ((refill f now b).tokens < amount)
            × ((try_consume f now amount b).1 ≡ refill f now b))
  unfolding try_consume take_tokens
  try_consume_lem now amount b = elim (Bool-cases (ltb (refill f now b).tokens amount)) [
    | inl short ↦ inr (rw short, ground arith, rw short)
    | inr enough ↦ inl (rw enough, ground arith, rw enough (ground arith))
  ]

  pub time_until_full-IsValid :
      (now : ℕ) (b : TokenBucket) → IsValid now b → IsValid now (time_until_full f now b).1
  unfolding time_until_full available
  time_until_full-IsValid now b v = refill-IsValid now b v

  pub SameLimits-time_until_full :
      (now : ℕ) (b : TokenBucket) → SameLimits b (time_until_full f now b).1
  unfolding time_until_full available
  SameLimits-time_until_full now b = SameLimits-refill now b

pub IsValid-later :
    (now later : ℕ) (b : TokenBucket)
    → now ≤ later
    → later < 2 ^ 64
    → IsValid now b
    → IsValid later b
IsValid-later now later b h s v = record {
  within = v.within;
  past = omega (arith, v.past);
  small = (v.small.0, s);
}

pub new-IsValid :
    (now capacity rate : ℕ) → capacity < 2 ^ 64 → now < 2 ^ 64 → IsValid now (new now capacity rate)
unfolding new
new-IsValid now capacity rate c n = record {
  within = omega arith;
  past = omega arith;
  small = (c, n);
}

pub reset-IsValid : (now : ℕ) (b : TokenBucket) → IsValid now b → IsValid now (reset now b)
unfolding reset
reset-IsValid now b v = record { within = omega arith; past = omega arith; small = v.small }

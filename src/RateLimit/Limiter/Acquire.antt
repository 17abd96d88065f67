-- ===== src/RateLimit/Limiter/Acquire.antt =====
-- src/ratelimit.rs, `RateLimiter::new` and `acquire`: the start, and the loop that waits.
use ws_fabric.Prelude.{
  ℕ, ◌^◌, ◌≤◌, ◌<◌, ◌≡◌, ◌∙◌, refl, sym, ap, subst, false, List, [], ◌∷◌, Option, none, some, arith,
  ◌==◌,
}
use ws_fabric.Prelude.Assoc.{lookup, lookup-insert}
use ws_fabric.Error.{Error, Result, err}
use ws_fabric.Float.{F64}
use ws_fabric.RateLimitType.{RateLimitType, type_eq}
use ws_fabric.RateLimit.{
  RateLimitConfig, RateLimiter, get_limit, capacity_for, new, put, try_acquire, acquire_round,
  acquire_loop, acquire,
}
use ws_fabric.RateLimit.Bucket.{TokenBucket, refill}
use ws_fabric.RateLimit.Bucket
use ws_fabric.RateLimit.Bucket.Bounds.{refill-IsValid, SameLimits-refill, new-IsValid}
use ws_fabric.RateLimit.Limiter.{
  HasBucket, IsValid, Outcome, granted, refused, try_acquire-Outcome, put-IsValid, IsValid-at,
}

made :
    (now : ℕ) (c : RateLimitConfig) (ty : RateLimitType)
    → lookup ty (new now c).buckets ≡ some (Bucket.new now (capacity_for c ty) (get_limit c ty))
unfolding new
made now c RateLimitType.message = simp lookup-insert
made now c RateLimitType.byte = simp lookup-insert
made now c RateLimitType.operation = simp lookup-insert

small_capacity :
    (c : RateLimitConfig) (ty : RateLimitType) → c.burst_size < 2 ^ 64 → capacity_for c ty < 2 ^ 64
small_capacity c RateLimitType.byte h = omega arith
small_capacity c _ h = omega arith

-- A new limiter has a full bucket for every type, with the capacity and the rate that the
-- configuration gives (burst sizes and times being 64-bit numbers).
pub new-limiter-IsValid :
    (now : ℕ) (c : RateLimitConfig) → c.burst_size < 2 ^ 64 → now < 2 ^ 64 → IsValid now (new now c)
new-limiter-IsValid now c h n ty = record {
  bucket = Bucket.new now (capacity_for c ty) (get_limit c ty);
  found = made now c ty;
  valid = new-IsValid now (capacity_for c ty) (get_limit c ty) (small_capacity c ty h) n;
  capacity = unfold Bucket.new new in refl;
  rate = unfold Bucket.new new in refl;
}

-- Clock readings that do not go back, from a time on.
abbrev pub Ordered : ℕ → List (ℕ × ℕ) → Type 0
Ordered start [] = Unit
Ordered start ((now, later) ∷ rounds) =
    (start ≤ now) × (now ≤ later) × (later < 2 ^ 64) × Ordered later rounds

module _ (f : F64) where
  abbrev Refused : ℕ → ℕ → RateLimiter → RateLimitType → ℕ → Type 0
  Refused now later l ty amount =
      (wait : ℕ) × (l' : RateLimiter) × (try_acquire f now later l ty amount
        ≡ (err (Error.rate_limit_exceeded ty wait), l'))
      × IsValid later l'
      × (l'.config ≡ l.config)

  Outcome-Refused :
      {now later : ℕ} {l : RateLimiter} {ty : RateLimitType} {amount : ℕ} {b : TokenBucket}
      → Outcome f now later l ty amount b
      → now ≤ later
      → later < 2 ^ 64
      → IsValid now l
      → lookup ty l.buckets ≡ some b
      → (refill f now b).tokens < amount
      → Refused now later l ty amount
  Outcome-Refused (granted b' enough taken same v' e) h s v found short = absurd (omega arith)
  Outcome-Refused {now} {later} {l} {ty} {amount} {b} (refused b' wait _ same v' e) h s v found
        short =
      (wait, put l ty b', e, put-IsValid now later l ty b b' h s v found same v', refl)

  over_capacity-Refused :
      (now later : ℕ) (l : RateLimiter) (ty : RateLimitType) (amount : ℕ)
      → IsValid now l
      → now ≤ later
      → later < 2 ^ 64
      → capacity_for l.config ty < amount
      → Refused now later l ty amount
  over_capacity-Refused now later l ty amount v h s over =
      let own : HasBucket now l ty = v ty in
      let full : (refill f now own.bucket).tokens < amount = omega (
        arith,
        (refill-IsValid f now own.bucket own.valid).within,
        (SameLimits-refill f now own.bucket).0,
        own.capacity,
      ) in
      Outcome-Refused
        (try_acquire-Outcome f now later l ty amount own.bucket (omega arith) h s own.found
          own.valid)
        h s v own.found full

  acquire_loop-refused :
      (now later wait : ℕ) (l l' : RateLimiter) (ty : RateLimitType) (amount : ℕ)
      (rounds : List (ℕ × ℕ))
      → try_acquire f now later l ty amount ≡ (err (Error.rate_limit_exceeded ty wait), l')
      → acquire_loop f l ty amount ((now, later) ∷ rounds) ≡ acquire_loop f l' ty amount rounds
  unfolding acquire_loop acquire_round
  acquire_loop-refused now later wait l l' ty amount rounds e =
      ap (acquire_round f (λ l''. acquire_loop f l'' ty amount rounds)) e

  acquire_loop_step :
      (now later : ℕ) (l : RateLimiter) (ty : RateLimitType) (amount : ℕ) (rounds : List (ℕ × ℕ))
      → Refused now later l ty amount
      → ((l' : RateLimiter)
          → IsValid later l'
          → l'.config ≡ l.config
          → (acquire_loop f l' ty amount rounds).0 ≡ none)
      → (acquire_loop f l ty amount ((now, later) ∷ rounds)).0 ≡ none
  acquire_loop_step now later l ty amount rounds (wait, l', refusal, valid, same) rest =
      ap (λ (r : Option (Result (Unit {0})) × RateLimiter). r.0)
        (acquire_loop-refused now later wait l l' ty amount rounds refusal)
      ∙ rest l' valid same

  acquire_loop_stuck :
      (start : ℕ) (l : RateLimiter) (ty : RateLimitType) (amount : ℕ) (rounds : List (ℕ × ℕ))
      → IsValid start l
      → Ordered start rounds
      → capacity_for l.config ty < amount
      → (acquire_loop f l ty amount rounds).0 ≡ none
  acquire_loop_stuck start l ty amount [] v o over = unfold acquire_loop in refl
  acquire_loop_stuck start l ty amount ((now, later) ∷ rounds) v (h, k, s, o) over =
      acquire_loop_step now later l ty amount rounds
        (over_capacity-Refused now later l ty amount (IsValid-at start now l h (omega arith) v) k s
          over)
        (λ l' valid same.
          acquire_loop_stuck later l' ty amount rounds valid o
            (subst (λ c. capacity_for c ty < amount) (sym same) over))

  -- `acquire` of more than the capacity of its bucket never returns, on a valid limiter and by a
  -- 64-bit clock that does not go back: however long it waits, it is asleep again after every
  -- round.
  pub acquire_over_capacity_waits :
      (start : ℕ) (l : RateLimiter) (ty : RateLimitType) (amount : ℕ) (rounds : List (ℕ × ℕ))
      → IsValid start l
      → Ordered start rounds
      → capacity_for l.config ty < amount
      → (acquire f l ty amount rounds).0 ≡ none
  unfolding acquire
  acquire_over_capacity_waits start l ty amount rounds v o over =
      let some_asked : (amount == 0) ≡ false = ground arith in
      rw some_asked (acquire_loop_stuck start l ty amount rounds v o over)

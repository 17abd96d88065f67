-- ===== src/RateLimit/Limiter.antt =====
-- src/ratelimit.rs, `RateLimiter`: what it guarantees: its buckets stay as configured, and what it grants it has.
pub mod Acquire
use ws_fabric.Prelude.{
  ℕ, ◌+◌, ◌-◌, ◌^◌, ◌≤◌, ◌<◌, ◌≡◌, ◌≢◌, ◌⊎◌, ◌∙◌, refl, sym, ap, subst, Bool, true, false, List, [],
  ◌∷◌, Option, none, some, arith, inl, inr, Bool-cases, Option-cases, max, ◌==◌, if◌then◌else◌,
  nat_eq,
}
use ws_fabric.Prelude.Assoc.{lookup, insert, lookup-insert_self, lookup-insert_ne}
use ws_fabric.Error.{Error, Result, ok, err}
use ws_fabric.Float.{F64}
use ws_fabric.RateLimitType.{RateLimitType, all_types, type_eq, same_type, same_type_iff}
use ws_fabric.RateLimit.{
  RateLimitConfig, RateLimiter, get_limit, capacity_for, new, put, acquire_from, try_acquire,
  acquire_loop, acquire,
}
use ws_fabric.RateLimit.Bucket.{TokenBucket, refill, try_consume, time_until_full}
use ws_fabric.RateLimit.Bucket
use ws_fabric.RateLimit.Bucket.Bounds
use ws_fabric.RateLimit.Bucket.Bounds.{
  SameLimits, try_consume-IsValid, SameLimits-try_consume, time_until_full-IsValid,
  SameLimits-time_until_full, try_consume_lem, IsValid-later, new-IsValid, refill-IsValid,
  SameLimits-refill,
}

-- The bucket of a type, as configured.
pub record HasBucket (now : ℕ) (l : RateLimiter) (ty : RateLimitType) : Type 0 where
  pub bucket : TokenBucket
  pub found : lookup ty l.buckets ≡ some bucket
  pub valid : Bounds.IsValid now bucket
  pub capacity : bucket.capacity ≡ capacity_for l.config ty
  pub rate : bucket.refill_rate ≡ get_limit l.config ty

-- Every type has its bucket.
abbrev pub IsValid : ℕ → RateLimiter → Type 0
IsValid now l = (ty : RateLimitType) → HasBucket now l ty

pub IsValid-at :
    (now later : ℕ) (l : RateLimiter)
    → now ≤ later
    → later < 2 ^ 64
    → IsValid now l
    → IsValid later l
IsValid-at now later l h s v ty =
    let old : HasBucket now l ty = v ty in
    record {
      bucket = old.bucket;
      found = old.found;
      valid = IsValid-later now later old.bucket h s old.valid;
      capacity = old.capacity;
      rate = old.rate;
    }

pub put-IsValid :
    (now later : ℕ) (l : RateLimiter) (ty : RateLimitType) (b b' : TokenBucket)
    → now ≤ later
    → later < 2 ^ 64
    → IsValid now l
    → lookup ty l.buckets ≡ some b
    → SameLimits b b'
    → Bounds.IsValid later b'
    → IsValid later (put l ty b')
put-IsValid now later l ty b b' h s v found same v' ty' = elim (Bool-cases (same_type ty ty')) [
  | inl e ↦ subst (HasBucket later (put l ty b')) ((same_type_iff ty ty').0 e) changed
  | inr e ↦
      let old : HasBucket now l ty' = v ty' in
      record {
        bucket = old.bucket;
        found = lookup-insert_ne ty ty' b' l.buckets e ∙ old.found;
        valid = IsValid-later now later old.bucket h s old.valid;
        capacity = old.capacity;
        rate = old.rate;
      }
]
  where
    is_old : (v ty).bucket ≡ b
    is_old = cc ((v ty).found, found)

    changed : HasBucket later (put l ty b') ty
    changed = record {
      bucket = b';
      found = lookup-insert_self ty b' l.buckets;
      valid = v';
      capacity = same.0 ∙ ap (λ (x : TokenBucket). x.capacity) (sym is_old) ∙ (v ty).capacity;
      rate = same.1 ∙ ap (λ (x : TokenBucket). x.refill_rate) (sym is_old) ∙ (v ty).rate;
    }

module _ (f : F64) where
  -- What a request for some tokens of a type can come to.
  pub data Outcome (now later : ℕ) (l : RateLimiter) (ty : RateLimitType) (amount : ℕ)
      (b : TokenBucket) : Type 0 where
    granted :
        (b' : TokenBucket)
        → amount ≤ (refill f now b).tokens
        → b'.tokens + amount ≡ (refill f now b).tokens
        → SameLimits b b'
        → Bounds.IsValid later b'
        → try_acquire f now later l ty amount ≡ (ok tt, put l ty b')
        → Outcome now later l ty amount b
    refused :
        (b' : TokenBucket) (wait : ℕ)
        → (refill f now b).tokens < amount
        → SameLimits b b'
        → Bounds.IsValid later b'
        → try_acquire f now later l ty amount
          ≡ (err (Error.rate_limit_exceeded ty wait), put l ty b')
        → Outcome now later l ty amount b

  try_acquire-found :
      (now later : ℕ) (l : RateLimiter) (ty : RateLimitType) (amount : ℕ) (b : TokenBucket)
      → 0 < amount
      → lookup ty l.buckets ≡ some b
      → try_acquire f now later l ty amount ≡ acquire_from f now later l ty amount (some b)
  unfolding try_acquire
  try_acquire-found now later l ty amount b p found =
      let some_asked : (amount == 0) ≡ false = ground arith in rw (some_asked, found)

  -- On a valid limiter a request for some tokens is granted exactly if the refilled bucket of its
  -- type has them, and then takes them; otherwise it is refused with the type and a time to wait.
  -- Nothing changes but that bucket, which stays valid and keeps its capacity and rate.
  pub try_acquire-Outcome :
      (now later : ℕ) (l : RateLimiter) (ty : RateLimitType) (amount : ℕ) (b : TokenBucket)
      → 0 < amount
      → now ≤ later
      → later < 2 ^ 64
      → lookup ty l.buckets ≡ some b
      → Bounds.IsValid now b
      → Outcome now later l ty amount b
  unfolding acquire_from
  try_acquire-Outcome now later l ty amount b p h s found v =
      let b1 : TokenBucket = (try_consume f now amount b).1 in
      let v1 : Bounds.IsValid later b1 =
        IsValid-later now later b1 h s (try_consume-IsValid f now amount b v) in
      let same : SameLimits b b1 = SameLimits-try_consume f now amount b in
      let ends : SameLimits b1 (time_until_full f later b1).1 =
        SameLimits-time_until_full f later b1 in
      let asked = try_acquire-found now later l ty amount b p found in
      elim (try_consume_lem f now amount b) [
        | inl (yes', enough, taken) ↦ granted b1 enough taken same v1 (asked ∙ rw yes')
        | inr (no', short, rest) ↦
            refused (time_until_full f later b1).1 (time_until_full f later b1).0 short
              (ends.0 ∙ same.0, ends.1 ∙ same.1) (time_until_full-IsValid f later b1 v1)
              (asked ∙ rw no')
      ]

  Outcome-IsValid :
      {now later : ℕ} {l : RateLimiter} {ty : RateLimitType} {amount : ℕ} {b : TokenBucket}
      → Outcome now later l ty amount b
      → now ≤ later
      → later < 2 ^ 64
      → IsValid now l
      → lookup ty l.buckets ≡ some b
      → IsValid later (try_acquire f now later l ty amount).1
  Outcome-IsValid {now} {later} {l} {ty} {amount} {b} (granted b' enough taken same v' e) h s v
        found =
      rw e (put-IsValid now later l ty b b' h s v found same v')
  Outcome-IsValid {now} {later} {l} {ty} {amount} {b} (refused b' wait short same v' e) h s v
        found =
      rw e (put-IsValid now later l ty b b' h s v found same v')

  -- Whatever is asked of it, by a 64-bit clock that does not go back, a valid limiter stays valid:
  -- each type has its bucket, with the configured capacity and rate, and never more tokens than the
  -- capacity.
  pub try_acquire-IsValid :
      (now later : ℕ) (l : RateLimiter) (ty : RateLimitType) (amount : ℕ)
      → now ≤ later
      → later < 2 ^ 64
      → IsValid now l
      → IsValid later (try_acquire f now later l ty amount).1
  try_acquire-IsValid now later l ty amount h s v = elim (Bool-cases (amount == 0)) [
    | inl none_asked ↦ unfold try_acquire in rw none_asked (IsValid-at now later l h s v)
    | inr some_asked ↦
        let own : HasBucket now l ty = v ty in
        Outcome-IsValid
          (try_acquire-Outcome now later l ty amount own.bucket (ground arith) h s own.found
            own.valid)
          h s v own.found
  ]

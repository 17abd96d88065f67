-- ===== src/RateLimit/Global.antt =====
-- src/ratelimit.rs, `GlobalRateLimiter`: the count of connections, which several tasks change by
-- atomic additions and subtractions without a lock.
use ws_fabric.Prelude.{
  ℕ, ◌+◌, ◌-◌, ◌^◌, ◌≤◌, ◌<◌, ◌≡◌, ◌⊎◌, refl, Bool, true, false, arith, inl, inr, Bool-cases, ltb,
  if◌then◌else◌, add64, sub64, add64-eq,
}
use ws_fabric.Error.{Error, Result, ok, err}
use ws_fabric.RateLimit.{RateLimiter, RateLimitConfig, new as new_limiter}

pub record GlobalRateLimiter : Type 0 where
  pub limiter : RateLimiter
  pub connection_count : ℕ
  pub max_connections : ℕ

unfoldable pub new : ℕ → RateLimitConfig → ℕ → GlobalRateLimiter
new now c limit = record {
  limiter = new_limiter now c;
  connection_count = 0;
  max_connections = limit;
}

-- The two atomic steps of `add_connection`: `fetch_add`, which returns the old count, and what
-- follows the test of it.
unfoldable pub fetch_add : GlobalRateLimiter → ℕ × GlobalRateLimiter
fetch_add g = (g.connection_count, record g { connection_count = add64 g.connection_count 1 })

unfoldable pub fetch_sub : GlobalRateLimiter → GlobalRateLimiter
fetch_sub g = record g { connection_count = sub64 g.connection_count 1 }

-- `count + 1 > self.max_connections`
unfoldable pub exceeds : GlobalRateLimiter → ℕ → Bool
exceeds g count = ltb g.max_connections (add64 count 1)

settle : GlobalRateLimiter → ℕ → Result (Unit {0}) × GlobalRateLimiter
unfolding fetch_sub exceeds
settle g count =
    if exceeds g count
    then (err (Error.connection_limit_exceeded (add64 count 1) g.max_connections), fetch_sub g)
    else (ok tt, g)

unfoldable pub add_connection : GlobalRateLimiter → Result (Unit {0}) × GlobalRateLimiter
unfolding fetch_add settle
add_connection g = let (count, g') = fetch_add g in settle g' count

unfoldable pub remove_connection : GlobalRateLimiter → GlobalRateLimiter
unfolding fetch_sub
remove_connection g = fetch_sub g

refusal :
    (g : GlobalRateLimiter)
    → g.connection_count + 1 < 2 ^ 64
    → ltb g.max_connections (g.connection_count + 1) ≡ true
    → add_connection g
      ≡ (err (Error.connection_limit_exceeded (g.connection_count + 1) g.max_connections), g)
unfolding add_connection
refusal g h e =
    let next : add64 g.connection_count 1 ≡ g.connection_count + 1 =
      add64-eq g.connection_count 1 h in
    let back : sub64 (g.connection_count + 1) 1 ≡ g.connection_count = omega arith in
    rw (next, e, back)

addition :
    (g : GlobalRateLimiter)
    → g.connection_count + 1 < 2 ^ 64
    → ltb g.max_connections (g.connection_count + 1) ≡ false
    → add_connection g ≡ (ok tt, record g { connection_count = g.connection_count + 1 })
unfolding add_connection
addition g h e =
    let next : add64 g.connection_count 1 ≡ g.connection_count + 1 =
      add64-eq g.connection_count 1 h in
    rw (next, e)

-- With no other task between the two steps, and a count that one more does not overflow: a
-- connection is added below the limit, and otherwise refused with the count that it would have
-- made, and nothing changed.
pub add_connection_lem :
    (g : GlobalRateLimiter)
    → g.connection_count + 1 < 2 ^ 64
    → ((g.connection_count < g.max_connections)
        × (add_connection g ≡ (ok tt, record g { connection_count = g.connection_count + 1 })))
      ⊎ ((g.max_connections ≤ g.connection_count)
          × (add_connection g ≡ (
            err (Error.connection_limit_exceeded (g.connection_count + 1) g.max_connections),
            g,
          )))
add_connection_lem g h = elim (Bool-cases (ltb g.max_connections (g.connection_count + 1))) [
  | inl e ↦ inr (ground arith, refusal g h e)
  | inr e ↦ inl (ground arith, addition g h e)
]

-- All tasks together: the limiter, the connections that were added and are open, and the tasks
-- that exceeded the limit and have not yet taken their addition back.
pub record World : Type 0 where
  pub shared : GlobalRateLimiter
  pub open_connections : ℕ
  pub withdrawing : ℕ

-- One atomic step of some task.
pub data Step : World → World → Type 0 where
  admits :
      (w : World)
      → exceeds w.shared (fetch_add w.shared).0 ≡ false
      → Step w
          (record w { shared = (fetch_add w.shared).1; open_connections = w.open_connections + 1 })
  overshoots :
      (w : World)
      → exceeds w.shared (fetch_add w.shared).0 ≡ true
      → Step w (record w { shared = (fetch_add w.shared).1; withdrawing = w.withdrawing + 1 })
  withdraws :
      (w : World)
      → 0 < w.withdrawing
      → Step w (record w { shared = fetch_sub w.shared; withdrawing = w.withdrawing - 1 })
  removes :
      (w : World)
      → 0 < w.open_connections
      → Step w (record w {
        shared = remove_connection w.shared;
        open_connections = w.open_connections - 1;
      })

-- Fewer tasks than 2 ^ 64 - 1 are under way at any time.
abbrev pub HasRoom : World → Type 0
HasRoom w = w.open_connections + w.withdrawing + 1 < 2 ^ 64

pub data Reach (w : World) : World → Type 0 where
  here : Reach w w
  next : {v u : World} → Reach w v → HasRoom v → Step v u → Reach w u

pub record IsSafe (w : World) : Type 0 where
  pub counted : w.shared.connection_count ≡ w.open_connections + w.withdrawing
  pub limited : w.open_connections ≤ w.shared.max_connections

Step-IsSafe : {v u : World} → HasRoom v → Step v u → IsSafe v → IsSafe u
unfolding exceeds fetch_add fetch_sub remove_connection
Step-IsSafe r (admits w h) s = record { counted = omega (arith, s.counted); limited = ground arith }
Step-IsSafe r (overshoots w h) s = record {
  counted = omega (arith, s.counted);
  limited = s.limited;
}
Step-IsSafe r (withdraws w h) s = record { counted = omega (arith, s.counted); limited = s.limited }
Step-IsSafe r (removes w h) s = record {
  counted = omega (arith, s.counted);
  limited = omega (arith, s.limited);
}

Reach-IsSafe : {w v : World} → IsSafe w → Reach w v → IsSafe v
Reach-IsSafe s here = s
Reach-IsSafe s (next r room st) = Step-IsSafe room st (Reach-IsSafe s r)

-- The world before the first connection.
abbrev pub start : ℕ → RateLimitConfig → ℕ → World
start now c limit = record { shared = new now c limit; open_connections = 0; withdrawing = 0 }

-- However the tasks interleave, the limit on open connections holds, and the count is theirs and
-- that of the tasks about to withdraw, if connections are removed only after they were added and
-- fewer than 2 ^ 64 - 1 tasks have added one or are about to withdraw.
pub add_connection_limits :
    (now : ℕ) (c : RateLimitConfig) (limit : ℕ) (w : World)
    → Reach (start now c limit) w
    → (w.open_connections ≤ w.shared.max_connections)
      × (w.shared.connection_count ≡ w.open_connections + w.withdrawing)
unfolding new
add_connection_limits now c limit w r =
    let s : IsSafe w = Reach-IsSafe (record { counted = refl; limited = omega arith }) r in
    (s.limited, s.counted)

-- ===== src/Pool/Health.antt =====
-- src/pool.rs: the task of `start_health_check_task`, which cleans up at every tick of its timer.
use ws_fabric.Prelude.{
  ℕ, ◌≡◌, refl, ap, ◌∙◌, Bool, false, not, List, [], ◌∷◌, map, inl, inr, All, retain, Text,
  Bool-cases,
}
use ws_fabric.Pool.Vec.{PooledConnection}
use ws_fabric.Pool.Server.{ServerPool, should_evict, cleanup as cleanup_in}
use ws_fabric.Pool.{ConnectionPool, cleanup}

-- A tick: what the clients answer then, and the clock.
abbrev pub Tick : Type 0
Tick = (ℕ → Bool) × ℕ

unfoldable pub health_checks : List Tick → ConnectionPool → ConnectionPool
health_checks [] p = p
health_checks ((connected, now) ∷ ticks) p = health_checks ticks (cleanup connected now p).1

-- The connections in use, with the servers they are to.
abbrev pub in_use_of : List (Text × ServerPool) → List (Text × List PooledConnection)
in_use_of pools = map (λ e. (e.0, e.1.in_use)) pools

abbrev cleaned : (ℕ → Bool) → ℕ → ℕ → Text × ServerPool → Text × ServerPool
cleaned connected now timeout e = (e.0, (cleanup_in connected now timeout e.1).1)

in_use_of-cleaned :
    (connected : ℕ → Bool) (now timeout : ℕ) (pools : List (Text × ServerPool))
    → in_use_of (map (cleaned connected now timeout) pools) ≡ in_use_of pools
in_use_of-cleaned connected now timeout [] = refl
in_use_of-cleaned connected now timeout ((url, s) ∷ pools) =
    ap (◌∷◌ (url, s.in_use)) (in_use_of-cleaned connected now timeout pools)

-- Health checks leave the connections in use alone, however often the timer ticks.
pub in_use_of-health_checks :
    (ticks : List Tick) (p : ConnectionPool)
    → in_use_of (health_checks ticks p).pools ≡ in_use_of p.pools
unfolding health_checks
in_use_of-health_checks [] p = refl
in_use_of-health_checks ((connected, now) ∷ ticks) p =
    in_use_of-health_checks ticks (cleanup connected now p).1
    ∙ in_use_of-cleaned connected now p.config.idle_timeout p.pools

-- No available connection is to be evicted.
abbrev pub IsClean : (ℕ → Bool) → ℕ → ℕ → List (Text × ServerPool) → Type 0
IsClean connected now timeout =
    All (λ e. All (λ c. should_evict connected now timeout c ≡ false) e.1.available)

retained :
    (connected : ℕ → Bool) (now timeout : ℕ) (cs : List PooledConnection)
    → All
        (λ c. should_evict connected now timeout c ≡ false)
        (retain (λ c. not (should_evict connected now timeout c)) cs)
retained connected now timeout [] = tt
retained connected now timeout (c ∷ cs) = elim (Bool-cases (should_evict connected now timeout c)) [
  | inl out ↦ rw out (retained connected now timeout cs)
  | inr kept ↦ rw kept (kept, retained connected now timeout cs)
]

cleaned-IsClean :
    (connected : ℕ → Bool) (now timeout : ℕ) (pools : List (Text × ServerPool))
    → IsClean connected now timeout (map (cleaned connected now timeout) pools)
cleaned-IsClean connected now timeout [] = tt
cleaned-IsClean connected now timeout ((url, s) ∷ pools) =
    (retained connected now timeout s.available, cleaned-IsClean connected now timeout pools)

-- After a check no available connection is idle for too long or has a client that is not connected.
pub cleanup-IsClean :
    (connected : ℕ → Bool) (now : ℕ) (p : ConnectionPool)
    → IsClean connected now p.config.idle_timeout (cleanup connected now p).1.pools
cleanup-IsClean connected now p = cleaned-IsClean connected now p.config.idle_timeout p.pools

-- ===== src/Pool/Drift.antt =====
-- src/pool.rs: how far `total_created` is from the connections that a pool has.
use ws_fabric.Prelude.{
  ℕ, ◌+◌, ◌^◌, ◌≤◌, ◌<◌, ◌≡◌, refl, sym, Bool, true, false, ◌&&◌, not, List, [], ◌∷◌, Option, none,
  some, arith, inl, inr, if◌then◌else◌, length, retain, leb, Text, Bool-cases,
}
use ws_fabric.Pool.Vec.{
  PooledConnection, remove_id, weight, weight_of, weight-append, weight-remove_id, weight-retain,
}
use ws_fabric.Pool.Server.{
  ServerPool, hand_out, reuse_found, retry_found, created, create, close_found, close_available,
  keep_or_drop, release_found, cleanup, should_evict, total_connections, get_available,
  remove_in_use, new_server,
}
use ws_fabric.Pool.Sections.{held, Section, enter, get_available-both, remove_in_use-both}
use ws_fabric.Pool.Ownership.{Turn, run, total-held, weight-length}

abbrev each : Text → ℕ
each id = 1

-- An unhealthy connection that the waiting loop takes out.
abbrev lost_by : (ℕ → Bool) → Option PooledConnection → ℕ
lost_by connected none = 0
lost_by connected (some c) = if connected c.client then 0 else 1

-- The connections that a section drops without counting them down.
abbrev lost : (ℕ → Bool) → Section → ServerPool → ℕ
lost connected (Section.retries now) p = lost_by connected (get_available p).0
lost connected (Section.cleans now timeout) p = (cleanup connected now timeout p).0
lost connected _ p = 0

-- The same in a run.
pub all_lost : ℕ → List Turn → ServerPool → ℕ
all_lost limit [] p = 0
all_lost limit ((connected, s) ∷ turns) p =
    lost connected s p + all_lost limit turns (enter connected limit s p)

-- The count is ahead by k.
abbrev IsAhead : ℕ → ServerPool → Type 0
IsAhead k p = p.total_created ≡ held each p + k

-- The count of a pool from which a connection was taken out.
abbrev IsTaken : ℕ → Option PooledConnection × ServerPool → Type 0
IsTaken k (o, p) = p.total_created ≡ (weight_of each o + held each p) + k

-- From a count to the next one.
abbrev Moves : ℕ → ℕ → ServerPool → Type 0
Moves n k p = IsAhead k p × (p.total_created ≤ n + 1)

module _ (connected : ℕ → Bool) (now limit k : ℕ) where
  hand_out-Moves :
      (c : PooledConnection) (p : ServerPool)
      → IsTaken k (some c, p)
      → Moves p.total_created k (hand_out now c p)
  hand_out-Moves c p h = (
    omega
        (arith, h, weight-append each p.in_use (record c { in_use = true; last_used = now } ∷ [])),
    omega arith,
  )

  reuse_found-Moves :
      (x : Option PooledConnection × ServerPool)
      → IsTaken k x
      → Moves x.1.total_created k (reuse_found connected now limit x).1
  reuse_found-Moves (none, p) h = (omega (arith, h), omega arith)
  reuse_found-Moves (some c, p) h = elim (Bool-cases (connected c.client)) [
    | inl e ↦ rw e (hand_out-Moves c p h)
    | inr e ↦ rw e (omega (arith, h), omega arith)
  ]

  retry_found-Moves :
      (x : Option PooledConnection × ServerPool)
      → IsTaken k x
      → Moves x.1.total_created (k + lost_by connected x.0) (retry_found connected now x).1
  retry_found-Moves (none, p) h = (omega (arith, h), omega arith)
  retry_found-Moves (some c, p) h = elim (Bool-cases (connected c.client)) [
    | inl e ↦ rw e (let m = hand_out-Moves c p h in (omega (arith, m.0), m.1))
    | inr e ↦ rw e (omega (arith, h), omega arith)
  ]

  keep_or_drop-Moves :
      (c : PooledConnection) (p : ServerPool)
      → IsTaken k (some c, p)
      → Moves p.total_created k (keep_or_drop connected now limit c p)
  keep_or_drop-Moves c p h =
      elim (Bool-cases (connected c.client && leb (total_connections p) limit)) [
        | inl e ↦ rw e (
          omega (
            arith,
            h,
            weight-append each p.available (record c { in_use = false; last_used = now } ∷ []),
          ),
          omega arith,
        )
        | inr e ↦ rw e (omega (arith, h), omega arith)
      ]

  release_found-Moves :
      (p : ServerPool) (x : Option PooledConnection × ServerPool)
      → IsAhead k p
      → IsTaken k x
      → x.1.total_created ≡ p.total_created
      → Moves p.total_created k (release_found connected now limit p x)
  release_found-Moves p (none, p') a h e = (a, omega arith)
  release_found-Moves p (some c, p') a h e =
      let m = keep_or_drop-Moves c p' h in (m.0, omega (arith, m.1, e))

close_available-Moves :
    (k : ℕ) (p : ServerPool) (x : Option PooledConnection × List PooledConnection)
    → IsAhead k p
    → weight_of each x.0 + weight each x.1 ≡ weight each p.available
    → Moves p.total_created k (close_available p x)
close_available-Moves k p (none, rest) a h = (a, omega arith)
close_available-Moves k p (some c, rest) a h = (omega (arith, a, h), omega arith)

close_found-Moves :
    (k : ℕ) (id : Text) (p : ServerPool) (x : Option PooledConnection × ServerPool)
    → IsAhead k p
    → IsTaken k x
    → x.1.total_created ≡ p.total_created
    → Moves p.total_created k (close_found id p x)
close_found-Moves k id p (none, p') a h e =
    close_available-Moves k p (remove_id id p.available) a
      (sym (weight-remove_id each id p.available))
close_found-Moves k id p (some c, p') a h e = (omega (arith, h), omega (arith, e))

create-Moves :
    (k now client : ℕ) (id : Text) (p : ServerPool)
    → IsAhead k p
    → p.total_created + 1 < 2 ^ 64
    → Moves p.total_created k (create now client id p.url p)
create-Moves k now client id p a room = (
  omega (arith, a, room, weight-append each p.in_use (created now client id p.url ∷ [])),
  omega (arith, room),
)

cleanup-Moves :
    (connected : ℕ → Bool) (now timeout k : ℕ) (p : ServerPool)
    → IsAhead k p
    → Moves p.total_created
        (k + (cleanup connected now timeout p).0)
        (cleanup connected now timeout p).1
cleanup-Moves connected now timeout k p a =
    let stays : PooledConnection → Bool = λ c. not (should_evict connected now timeout c) in
    (
      omega (
        arith,
        a,
        weight-length p.available,
        weight-length (retain stays p.available),
        weight-retain each stays p.available,
      ),
      omega arith,
    )

-- What is taken out of the available ones, and of those in use.
available-IsTaken : (k : ℕ) (p : ServerPool) → IsAhead k p → IsTaken k (get_available p)
available-IsTaken k p a = omega (arith, a, get_available-both p each)

in_use-IsTaken : (k : ℕ) (id : Text) (p : ServerPool) → IsAhead k p → IsTaken k (remove_in_use id p)
in_use-IsTaken k id p a = omega (arith, a, remove_in_use-both id each p)

enter-Moves :
    (connected : ℕ → Bool) (limit k : ℕ) (s : Section) (p : ServerPool)
    → IsAhead k p
    → p.total_created + 1 < 2 ^ 64
    → Moves p.total_created (k + lost connected s p) (enter connected limit s p)
enter-Moves connected limit k (Section.reuses now) p a room =
    let m = reuse_found-Moves connected now limit k (get_available p) (available-IsTaken k p a) in
    (omega (arith, m.0), m.1)
enter-Moves connected limit k (Section.retries now) p a room =
    retry_found-Moves connected now limit k (get_available p) (available-IsTaken k p a)
enter-Moves connected limit k (Section.creates now client id) p a room =
    let m = create-Moves k now client id p a room in (omega (arith, m.0), m.1)
enter-Moves connected limit k (Section.releases now id) p a room =
    let m =
      release_found-Moves connected now limit k p (remove_in_use id p) a (in_use-IsTaken k id p a)
        refl in
    (omega (arith, m.0), m.1)
enter-Moves connected limit k (Section.closes id) p a room =
    let m = close_found-Moves k id p (remove_in_use id p) a (in_use-IsTaken k id p a) refl in
    (omega (arith, m.0), m.1)
enter-Moves connected limit k (Section.cleans now timeout) p a room =
    cleanup-Moves connected now timeout k p a

run-IsAhead :
    (limit k : ℕ) (turns : List Turn) (p : ServerPool)
    → IsAhead k p
    → p.total_created + length turns < 2 ^ 64
    → IsAhead (k + all_lost limit turns p) (run limit turns p)
unfolding run all_lost
run-IsAhead limit k [] p a room = omega (arith, a)
run-IsAhead limit k ((connected, s) ∷ turns) p a room =
    let m = enter-Moves connected limit k s p a (omega (arith, room)) in
    let rest =
      run-IsAhead limit (k + lost connected s p) turns (enter connected limit s p) m.0
        (omega (arith, m.1, room)) in
    omega (arith, rest)

-- In whatever order tasks reuse, wait, create, release, close and clean up (fewer than 2 ^ 64
-- times): `total_created` is the number of connections that the pool has, and those that the
-- waiting loop found unhealthy or that a cleanup removed.
pub run-total_created :
    (limit : ℕ) (turns : List Turn) (url : Text)
    → length turns < 2 ^ 64
    → (run limit turns (new_server url)).total_created
      ≡ total_connections (run limit turns (new_server url)) + all_lost limit turns (new_server url)
run-total_created limit turns url room =
    let a : IsAhead 0 (new_server url) = omega arith in
    omega (
      arith,
      run-IsAhead limit 0 turns (new_server url) a (omega (arith, room)),
      total-held (run limit turns (new_server url)),
    )

-- ===== src/Pool/Ownership.antt =====
-- src/pool.rs: the critical sections of any tasks, in any order: every connection has one place,
-- and one holder at most; and how many there are.
use ws_fabric.Prelude.{
  ℕ, ◌+◌, ◌≤◌, ◌<◌, ◌≡◌, refl, Bool, List, [], ◌∷◌, arith, length, if◌then◌else◌, Text, list_eq,
  text_eq_iff, ◌=?◌,
}
use ws_fabric.Pool.Vec.{PooledConnection, weight}
use ws_fabric.Pool.Server.{ServerPool, new_server, total_connections}
use ws_fabric.Pool.Sections.{held, Section, enter, added, enter-held}

abbrev pub once : Text → Text → ℕ
once id k = if k =? id then 1 else 0

-- Every id has one place at most.
abbrev pub IsOwned : ServerPool → Type 0
IsOwned p = (id : Text) → held (once id) p ≤ 1

-- A section with the states of the clients at that time. A connection that is created has a new
-- id.
abbrev pub Turn : Type 0
Turn = (ℕ → Bool) × Section

abbrev pub IsFresh : Section → ServerPool → Type 0
IsFresh (Section.creates now client k) p = held (once k) p ≡ 0
IsFresh _ p = Unit

unfoldable pub run : ℕ → List Turn → ServerPool → ServerPool
run limit [] p = p
run limit ((connected, s) ∷ turns) p = run limit turns (enter connected limit s p)

abbrev pub AreFresh : ℕ → List Turn → ServerPool → Type 0
AreFresh limit [] p = Unit
AreFresh limit ((connected, s) ∷ turns) p =
    IsFresh s p × AreFresh limit turns (enter connected limit s p)

pub once_self : (id : Text) → once id id ≡ 1
once_self id = rw ((text_eq_iff id id).1 refl) refl

pub weight-length : (cs : List PooledConnection) → weight (λ _. 1) cs ≡ length cs
weight-length [] = refl
weight-length (c ∷ cs) = omega (arith, weight-length cs)

-- A connection is created only while there are fewer than the limit.
abbrev IsAdmitted : ℕ → Section → ServerPool → Type 0
IsAdmitted limit (Section.creates now client k) p = total_connections p < limit
IsAdmitted limit _ p = Unit

abbrev AreAdmitted : ℕ → List Turn → ServerPool → Type 0
AreAdmitted limit [] p = Unit
AreAdmitted limit ((connected, s) ∷ turns) p =
    IsAdmitted limit s p × AreAdmitted limit turns (enter connected limit s p)

pub total-held : (p : ServerPool) → total_connections p ≡ held (λ _. 1) p
total-held p = omega (arith, weight-length p.available, weight-length p.in_use)

added-IsAdmitted :
    (limit : ℕ) (s : Section) (p : ServerPool)
    → IsAdmitted limit s p
    → held (λ _. 1) p ≤ limit
    → held (λ _. 1) p + added (λ _. 1) s ≤ limit
added-IsAdmitted limit (Section.creates now client k) p a h = omega (arith, total-held p, a)
added-IsAdmitted limit _ p a h = omega (arith, h)

run-held :
    (limit : ℕ) (turns : List Turn) (p : ServerPool)
    → AreAdmitted limit turns p
    → held (λ _. 1) p ≤ limit
    → held (λ _. 1) (run limit turns p) ≤ limit
unfolding run
run-held limit [] p a h = h
run-held limit ((connected, s) ∷ turns) p a h =
    run-held limit turns (enter connected limit s p) a.1
      (omega (arith, enter-held connected limit (λ _. 1) s p, added-IsAdmitted limit s p a.0 h))

-- The connections to a server never exceed the limit, in whatever order tasks reuse, release,
-- close and clean up, if a connection is added only while there are fewer than the limit (the code
-- tests that in an earlier critical section than the one that adds it).
run-within :
    (limit : ℕ) (turns : List Turn) (url : Text)
    → AreAdmitted limit turns (new_server url)
    → total_connections (run limit turns (new_server url)) ≤ limit
run-within limit turns url a = omega (
  arith,
  total-held (run limit turns (new_server url)),
  run-held limit turns (new_server url) a (omega arith),
)

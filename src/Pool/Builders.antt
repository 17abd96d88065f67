-- ===== src/Pool/Builders.antt =====
-- src/pool.rs: the builder methods of `PoolConfig`, and when what they build is valid.
use ws_fabric.Prelude.{
  ℕ, ◌<◌, ◌≡◌, refl, subst, Bool, false, List, [], ◌∷◌, Option, none, some, arith, inl, inr, ltb,
  ◌==◌, if◌then◌else◌, Bool-cases,
}
use ws_fabric.Error.{Error, Result, ok, err}
use ws_fabric.Pool.{PoolConfig, ConnectionPool, default, validate, new}

-- A failed `assert!` panics: `none`.
abbrev pub with_min_connections : ℕ → PoolConfig → Option PoolConfig
with_min_connections n c = if ltb 0 n then some (record c { min_connections = n }) else none

abbrev pub with_max_connections : ℕ → PoolConfig → Option PoolConfig
with_max_connections n c = if ltb 0 n then some (record c { max_connections = n }) else none

abbrev pub with_idle_timeout : ℕ → PoolConfig → PoolConfig
with_idle_timeout timeout c = record c { idle_timeout = timeout }

abbrev pub with_health_check_interval : ℕ → PoolConfig → PoolConfig
with_health_check_interval interval c = record c { health_check_interval = interval }

abbrev pub with_acquire_timeout : ℕ → PoolConfig → PoolConfig
with_acquire_timeout timeout c = record c { acquire_timeout = timeout }

abbrev pub with_health_check : Bool → PoolConfig → PoolConfig
with_health_check enabled c = record c { enable_health_check = enabled }

pub data Builder : Type 0 where
  min_connections max_connections idle_timeout check_interval acquire_timeout : ℕ → Builder
  health_check : Bool → Builder

abbrev pub apply : Builder → PoolConfig → Option PoolConfig
apply (Builder.min_connections n) c = with_min_connections n c
apply (Builder.max_connections n) c = with_max_connections n c
apply (Builder.idle_timeout t) c = some (with_idle_timeout t c)
apply (Builder.check_interval t) c = some (with_health_check_interval t c)
apply (Builder.acquire_timeout t) c = some (with_acquire_timeout t c)
apply (Builder.health_check b) c = some (with_health_check b c)

-- The calls one after another; `none` if one of them panics.
pub build : List Builder → Option PoolConfig → Option PoolConfig
build calls none = none
build [] (some c) = some c
build (call ∷ calls) (some c) = build calls (apply call c)

abbrev IsPositive : Option PoolConfig → Type 0
IsPositive none = Unit
IsPositive (some c) = (0 < c.min_connections) × (0 < c.max_connections)

apply-IsPositive :
    (call : Builder) (c : PoolConfig) → IsPositive (some c) → IsPositive (apply call c)
apply-IsPositive (Builder.min_connections n) c h = elim (Bool-cases (ltb 0 n)) [
  | inl e ↦ rw e (ground (arith, e), h.1)
  | inr e ↦ rw e tt
]
apply-IsPositive (Builder.max_connections n) c h = elim (Bool-cases (ltb 0 n)) [
  | inl e ↦ rw e (h.0, ground (arith, e))
  | inr e ↦ rw e tt
]
apply-IsPositive (Builder.idle_timeout t) c h = h
apply-IsPositive (Builder.check_interval t) c h = h
apply-IsPositive (Builder.acquire_timeout t) c h = h
apply-IsPositive (Builder.health_check b) c h = h

build-IsPositive :
    (calls : List Builder) (o : Option PoolConfig) → IsPositive o → IsPositive (build calls o)
unfolding build
build-IsPositive calls none h = tt
build-IsPositive [] (some c) h = h
build-IsPositive (call ∷ calls) (some c) h =
    build-IsPositive calls (apply call c) (apply-IsPositive call c h)

validate-positive :
    (c : PoolConfig)
    → (0 < c.min_connections) × (0 < c.max_connections)
    → validate c
      ≡ (if ltb c.max_connections c.min_connections then err Error.invalid_state else ok tt)
validate-positive c h =
    let least : (c.min_connections == 0) ≡ false = ground (arith, h) in
    let most : (c.max_connections == 0) ≡ false = ground (arith, h) in
    elim (Bool-cases (ltb c.max_connections c.min_connections)) [
      | inl e ↦ rw (least, most, e) refl
      | inr e ↦ rw (least, most, e) refl
    ]

-- A configuration that builder calls make from the default one is refused exactly if its minimum is
-- above its maximum.
pub validate-build :
    (calls : List Builder) (c : PoolConfig)
    → build calls (some default) ≡ some c
    → validate c
      ≡ (if ltb c.max_connections c.min_connections then err Error.invalid_state else ok tt)
validate-build calls c e =
    validate-positive c
      (subst IsPositive e (build-IsPositive calls (some default) (omega arith, omega arith)))

abbrev pub with_defaults : Result ConnectionPool
with_defaults = new default

-- ===== src/Pool.antt =====
-- src/pool.rs: the configuration, the connections to one server, and the pool of them by URL.
-- Every function here is what one task does under the lock of `pools`; between two of them other
-- tasks may take their turn. A client is a handle; whether it is connected is a question to
-- src/client.rs, and its answers at that time are the argument `connected`. The fields `config`
-- and `semaphore` of `ServerPool` are never read, and the metrics are not modelled here.
pub mod Vec
pub mod Server
pub mod Sections
pub mod Ownership
pub mod Waiting
pub mod Handle
pub mod Builders
pub mod Dead
pub mod Drift
pub mod Health
mod Tests
use ws_fabric.Prelude.{
  ℕ, ◌+◌, ◌-◌, ◌*◌, Bool, true, false, ◌&&◌, ◌||◌, not, List, [], ◌∷◌, ◌++◌, map, Option, none,
  some, length, retain, ltb, leb, ◌==◌, if◌then◌else◌, add64, Text, list_eq, ◌=?◌,
}
use ws_fabric.Prelude.Assoc.{lookup, insert}
use ws_fabric.Error.{Error, Result, ok, err, ensure, ◌>>◌}
use ws_fabric.Pool.Server.{
  ServerPool, Acquired, may_create, new_server, total_connections, reuse, retry, create,
  release as release_in, close as close_in, cleanup as cleanup_in,
}

pub record PoolConfig : Type 0 where
  pub min_connections : ℕ
  pub max_connections : ℕ
  pub idle_timeout : ℕ
  pub health_check_interval : ℕ
  pub acquire_timeout : ℕ
  pub enable_health_check : Bool

abbrev pub second : ℕ
second = 1000000000

abbrev pub default : PoolConfig
default = record {
  min_connections = 1;
  max_connections = 10;
  idle_timeout = 300 * second;
  health_check_interval = 30 * second;
  acquire_timeout = 5 * second;
  enable_health_check = true;
}

abbrev pub validate : PoolConfig → Result (Unit {0})
validate c =
    ensure (not (c.min_connections == 0)) Error.invalid_state
    >> (ensure (not (c.max_connections == 0)) Error.invalid_state
        >> ensure (not (ltb c.max_connections c.min_connections)) Error.invalid_state)

pub record ConnectionPool : Type 0 where
  pub config : PoolConfig
  pub pools : List (Text × ServerPool)

abbrev pub new : PoolConfig → Result ConnectionPool
new c = elim (validate c) [ ok _ ↦ ok (record { config = c; pools = [] }) | err e ↦ err e ]

abbrev at_url : Text → ConnectionPool → ServerPool → ConnectionPool
at_url url p s = record p { pools = insert url s p.pools }

module _ (connected : ℕ → Bool) where
  -- The first critical section of `get_with_config`.
  abbrev pub get_first : ℕ → Text → ConnectionPool → Acquired × ConnectionPool
  get_first now url p = elim (lookup url p.pools) [
    | none ↦ (may_create true, p)
    | some s ↦
        let (answer, s') = reuse connected now p.config.max_connections s in
        (answer, at_url url p s')
  ]

  -- A turn of its waiting loop; `may_create false` is to sleep.
  abbrev pub get_waiting : ℕ → Text → ConnectionPool → Acquired × ConnectionPool
  get_waiting now url p = elim (lookup url p.pools) [
    | none ↦ (may_create false, p)
    | some s ↦ let (answer, s') = retry connected now s in (answer, at_url url p s')
  ]

  abbrev pub release : ℕ → Text → Text → ConnectionPool → ConnectionPool
  release now url id p = elim (lookup url p.pools) [
    | none ↦ p
    | some s ↦ at_url url p (release_in connected now p.config.max_connections id s)
  ]

  abbrev cleanup_all : ℕ → ℕ → List (Text × ServerPool) → List (Text × ServerPool)
  cleanup_all now timeout pools = map (λ e. (e.0, (cleanup_in connected now timeout e.1).1)) pools

  abbrev removed_all : ℕ → ℕ → List (Text × ServerPool) → ℕ × ℕ
  removed_all now timeout [] = (0, 0)
  removed_all now timeout ((url, s) ∷ pools) =
      let (total, servers) = removed_all now timeout pools in
      let removed = (cleanup_in connected now timeout s).0 in
      if ltb 0 removed then (removed + total, 1 + servers) else (total, servers)

  -- `CleanupStats`, the connections removed and the servers cleaned.
  abbrev pub cleanup : ℕ → ConnectionPool → (ℕ × ℕ) × ConnectionPool
  cleanup now p = (
    removed_all now p.config.idle_timeout p.pools,
    record p { pools = cleanup_all now p.config.idle_timeout p.pools },
  )

-- The last critical section of `get_with_config`, for a client that has connected.
abbrev pub get_created : ℕ → ℕ → Text → Text → ConnectionPool → ConnectionPool
get_created now client id url p = elim (lookup url p.pools) [
  | none ↦ at_url url p (create now client id url (new_server url))
  | some s ↦ at_url url p (create now client id url s)
]

abbrev pub close : Text → Text → ConnectionPool → ConnectionPool
close url id p = elim (lookup url p.pools) [ none ↦ p | some s ↦ at_url url p (close_in id s) ]

pub record PoolStats : Type 0 where
  pub server_count : ℕ
  pub total_connections : ℕ
  pub available_connections : ℕ
  pub in_use_connections : ℕ
  pub total_created : ℕ

abbrev pub add_stats : ServerPool → PoolStats → PoolStats
add_stats s t = record {
  server_count = 1 + t.server_count;
  total_connections = length s.available + length s.in_use + t.total_connections;
  available_connections = length s.available + t.available_connections;
  in_use_connections = length s.in_use + t.in_use_connections;
  total_created = s.total_created + t.total_created;
}

abbrev pub stats : List (Text × ServerPool) → PoolStats
stats [] = record {
  server_count = 0;
  total_connections = 0;
  available_connections = 0;
  in_use_connections = 0;
  total_created = 0;
}
stats ((url, s) ∷ pools) = add_stats s (stats pools)

pub record ServerPoolStats : Type 0 where
  pub url : Text
  pub available : ℕ
  pub in_use : ℕ
  pub total : ℕ
  pub total_created : ℕ
  pub total_acquired : ℕ
  pub total_released : ℕ

abbrev pub stats_of : ServerPool → ServerPoolStats
stats_of s = record {
  url = s.url;
  available = length s.available;
  in_use = length s.in_use;
  total = length s.available + length s.in_use;
  total_created = s.total_created;
  total_acquired = s.total_acquired;
  total_released = s.total_released;
}

abbrev pub server_stats : Text → ConnectionPool → Option ServerPoolStats
server_stats url p = elim (lookup url p.pools) [ none ↦ none | some s ↦ some (stats_of s) ]

abbrev pub clients_of : List (Text × ServerPool) → List ℕ
clients_of [] = []
clients_of ((url, s) ∷ pools) =
    map (λ c. c.client) s.available ++ (map (λ c. c.client) s.in_use ++ clients_of pools)

-- The critical section of `close_all`: the clients that it closes then, and the empty pool.
unfoldable pub close_all : ConnectionPool → List ℕ × ConnectionPool
close_all p = (clients_of p.pools, record p { pools = [] })

-- ===== src/Pool/Server.antt =====
-- src/pool.rs, `ServerPool` and what `ConnectionPool` does to one: handing out, creating, taking
-- back, closing and cleaning up connections. Clock readings are nanoseconds.
use ws_fabric.Prelude.{
  ℕ, ◌+◌, ◌-◌, Bool, true, false, ◌&&◌, ◌||◌, not, List, [], ◌∷◌, ◌++◌, Option, none, some, length,
  retain, ltb, leb, if◌then◌else◌, add64, Text,
}
use ws_fabric.Pool.Vec.{PooledConnection, pop_last, remove_id}

pub record ServerPool : Type 0 where
  pub url : Text
  pub available : List PooledConnection
  pub in_use : List PooledConnection
  pub total_created : ℕ
  pub total_acquired : ℕ
  pub total_released : ℕ

abbrev pub new_server : Text → ServerPool
new_server url = record {
  url = url;
  available = [];
  in_use = [];
  total_created = 0;
  total_acquired = 0;
  total_released = 0;
}

abbrev pub total_connections : ServerPool → ℕ
total_connections p = length p.available + length p.in_use

abbrev pub new_connection : ℕ → ℕ → Text → Text → PooledConnection
new_connection now client id url = record {
  id = id;
  client = client;
  last_used = now;
  created_at = now;
  in_use = false;
  url = url;
}

abbrev pub get_available : ServerPool → Option PooledConnection × ServerPool
get_available p = let (last, front) = pop_last p.available in (last, record p { available = front })

abbrev pub add_available : PooledConnection → ServerPool → ServerPool
add_available c p = record p { available = p.available ++ (c ∷ []) }

abbrev pub add_in_use : PooledConnection → ServerPool → ServerPool
add_in_use c p = record p { in_use = p.in_use ++ (c ∷ []) }

abbrev pub remove_in_use : Text → ServerPool → Option PooledConnection × ServerPool
remove_in_use id p =
    let (found, rest) = remove_id id p.in_use in (found, record p { in_use = rest })

-- `saturating_sub` is the subtraction of ℕ.
abbrev pub one_less : ServerPool → ServerPool
one_less p = record p { total_created = p.total_created - 1 }

-- A client and the id of its connection, or whether a connection can be created.
pub data Acquired : Type 0 where
  handed : ℕ → Text → Acquired
  may_create : Bool → Acquired

-- `conn.in_use = true; conn.mark_used(); pool.add_in_use(conn)`
abbrev pub hand_out : ℕ → PooledConnection → ServerPool → ServerPool
hand_out now c p = record (add_in_use (record c { in_use = true; last_used = now }) p) {
  total_acquired = add64 p.total_acquired 1;
}

abbrev pub is_idle : ℕ → ℕ → PooledConnection → Bool
is_idle now timeout c = not c.in_use && ltb timeout (now - c.last_used)

-- `elapsed` is zero where the clock went back.
abbrev pub age : ℕ → PooledConnection → ℕ
age now c = now - c.created_at

abbrev pub created : ℕ → ℕ → Text → Text → PooledConnection
created now client id url = record (new_connection now client id url) { in_use = true }

abbrev pub create : ℕ → ℕ → Text → Text → ServerPool → ServerPool
create now client id url p = record (add_in_use (created now client id url) p) {
  total_created = add64 p.total_created 1;
  total_acquired = add64 p.total_acquired 1;
}

-- The rest of `close`, from a search of the available connections, and of those in use.
abbrev pub close_available :
    ServerPool → Option PooledConnection × List PooledConnection → ServerPool
close_available p (none, rest) = p
close_available p (some c, rest) = one_less (record p { available = rest })

abbrev pub close_found : Text → ServerPool → Option PooledConnection × ServerPool → ServerPool
close_found id p (none, p') = close_available p (remove_id id p.available)
close_found id p (some c, p') = one_less p'

abbrev pub close : Text → ServerPool → ServerPool
close id p = close_found id p (remove_in_use id p)

module _ (connected : ℕ → Bool) where
  abbrev pub is_healthy : PooledConnection → Bool
  is_healthy c = connected c.client

  abbrev pub should_evict : ℕ → ℕ → PooledConnection → Bool
  should_evict now max_age c = not c.in_use && (is_idle now max_age c || not (is_healthy c))

  -- `get_with_config` on an existing pool, before it waits.
  abbrev pub reuse_found : ℕ → ℕ → Option PooledConnection × ServerPool → Acquired × ServerPool
  reuse_found now limit (none, p) = (Acquired.may_create (ltb (total_connections p) limit), p)
  reuse_found now limit (some c, p) =
      if is_healthy c
      then (Acquired.handed c.client c.id, hand_out now c p)
      else (Acquired.may_create (ltb (total_connections p) limit), one_less p)

  abbrev pub reuse : ℕ → ℕ → ServerPool → Acquired × ServerPool
  reuse now limit p = reuse_found now limit (get_available p)

  -- A turn of its waiting loop, which drops an unhealthy connection uncounted.
  abbrev pub retry_found : ℕ → Option PooledConnection × ServerPool → Acquired × ServerPool
  retry_found now (none, p) = (Acquired.may_create false, p)
  retry_found now (some c, p) =
      if is_healthy c
      then (Acquired.handed c.client c.id, hand_out now c p)
      else (Acquired.may_create false, p)

  abbrev pub retry : ℕ → ServerPool → Acquired × ServerPool
  retry now p = retry_found now (get_available p)

  abbrev pub keep_or_drop : ℕ → ℕ → PooledConnection → ServerPool → ServerPool
  keep_or_drop now limit c p =
      if is_healthy c && leb (total_connections p) limit
      then add_available (record c { in_use = false; last_used = now }) p
      else one_less p

  abbrev pub release_found : ℕ → ℕ → ServerPool → Option PooledConnection × ServerPool → ServerPool
  release_found now limit p (none, p') = p
  release_found now limit p (some c, p') = record (keep_or_drop now limit c p') {
    total_released = add64 p.total_released 1;
  }

  abbrev pub release : ℕ → ℕ → Text → ServerPool → ServerPool
  release now limit id p = release_found now limit p (remove_in_use id p)

  abbrev pub cleanup : ℕ → ℕ → ServerPool → ℕ × ServerPool
  cleanup now idle_timeout p =
      let kept = retain (λ c. not (should_evict now idle_timeout c)) p.available in
      (length p.available - length kept, record p { available = kept })

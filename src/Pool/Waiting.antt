-- ===== src/Pool/Waiting.antt =====
-- src/pool.rs: the waiting loop of `get_with_config`, and closing a whole pool.
use ws_fabric.Prelude.{
  ℕ, ◌+◌, ◌*◌, ◌≤◌, ◌<◌, ◌≡◌, ◌⊎◌, refl, ap, Bool, true, false, List, [], ◌∷◌, ◌++◌, map, All,
  Option, none, some, arith, inl, inr, length, length-append, leb, if◌then◌else◌, Text, list_eq,
  nat_eq, Bool-cases,
}
use ws_fabric.Error.{Error, Result, ok, err}
use ws_fabric.Prelude.Assoc.{lookup}
use ws_fabric.Pool.Vec.{PooledConnection, pop_last}
use ws_fabric.Pool.Server.{ServerPool, Acquired, retry_found, get_available}
use ws_fabric.Pool.{ConnectionPool, stats, get_waiting, clients_of, close_all}

-- `sleep(Duration::from_millis(50))`
abbrev pub pause : ℕ
pause = 50000000

-- What a turn of the loop finds: the time since it began, the clock, the states of the clients, and
-- the pool that other tasks have left.
pub record Turn : Type 0 where
  pub elapsed : ℕ
  pub now : ℕ
  pub connected : ℕ → Bool
  pub pool : ConnectionPool

abbrev pub Answer : Type 0
Answer = Result (ℕ × Text) × ConnectionPool

abbrev pub waited : Option Answer → Acquired × ConnectionPool → Option Answer
waited rest (Acquired.handed client id, p) = some (ok (client, id), p)
waited rest (Acquired.may_create b, p) = rest

-- The loop over the turns that it is given; `none` if it has not returned by then.
unfoldable pub wait : ℕ → Text → List Turn → Option Answer
wait timeout url [] = none
wait timeout url (t ∷ later) =
    let rest = wait timeout url later in
    if leb timeout t.elapsed
    then some (err Error.timeout, t.pool)
    else waited rest (get_waiting t.connected t.now url t.pool)

-- Between two turns the loop has slept.
abbrev pub AreSpaced : ℕ → List Turn → Type 0
AreSpaced k [] = Unit
AreSpaced k (t ∷ ts) = (k * pause ≤ t.elapsed) × AreSpaced (k + 1) ts

-- What a turn takes from the connections to a server: the last one that is available.
abbrev pub found_at : Option ServerPool → Option PooledConnection
found_at none = none
found_at (some s) = (pop_last s.available).0

abbrev pub found : Text → Turn → Option PooledConnection
found url t = found_at (lookup url t.pool.pools)

-- A turn that goes on: it is early, and what it takes, if anything, is not connected.
abbrev pub GoesOn : ℕ → Text → Turn → Type 0
GoesOn timeout url t =
    (t.elapsed < timeout)
    × ((c : PooledConnection) → found url t ≡ some c → t.connected c.client ≡ false)

-- A turn in which the loop gives up: the timeout has passed, and the pool is as it was.
abbrev pub GivesUp : ℕ → Turn → Answer → Type 0
GivesUp timeout t a = (timeout ≤ t.elapsed) × (a ≡ (err Error.timeout, t.pool))

-- A turn that is early and hands out the connection that it takes, which is connected.
abbrev pub HandsOut : ℕ → Text → Turn → Answer → Type 0
HandsOut timeout url t a =
    (t.elapsed < timeout)
    × (c : PooledConnection) × (found url t ≡ some c)
    × (t.connected c.client ≡ true)
    × (a.0 ≡ ok (c.client, c.id))

-- The turn with which the loop ends.
pub record Ends (timeout : ℕ) (url : Text) (ts : List Turn) (a : Answer) : Type 0 where
  pub before : List Turn
  pub last : Turn
  pub after : List Turn
  pub split : ts ≡ before ++ last ∷ after
  pub goes_on : All (GoesOn timeout url) before
  pub outcome : GivesUp timeout last a ⊎ HandsOut timeout url last a

-- What a turn finds at a server, and what it gives then.
abbrev Takes : Turn → Option PooledConnection → Acquired → Type 0
Takes t o x =
    ((c : PooledConnection) × (o ≡ some c)
      × (t.connected c.client ≡ true)
      × (x ≡ Acquired.handed c.client c.id))
    ⊎ (((c : PooledConnection) → o ≡ some c → t.connected c.client ≡ false)
        × (x ≡ Acquired.may_create false))

retry_found-Takes :
    (t : Turn) (x : Option PooledConnection × ServerPool)
    → Takes t x.0 (retry_found t.connected t.now x).0
retry_found-Takes t (none, s) = inr ((λ c e. absurd (cc e)), refl)
retry_found-Takes t (some d, s) = elim (Bool-cases (t.connected d.client)) [
  | inl up ↦ rw up (inl (d, refl, up, refl))
  | inr down ↦ rw down (inr ((λ c e. cc (e, down)), refl))
]

get_waiting-Takes :
    (url : Text) (t : Turn) (o : Option ServerPool)
    → lookup url t.pool.pools ≡ o
    → Takes t (found_at o) (get_waiting t.connected t.now url t.pool).0
get_waiting-Takes url t none e = rw (get_waiting, e) (inr ((λ c h. absurd (cc h)), refl))
get_waiting-Takes url t (some s) e = rw (get_waiting, e) (retry_found-Takes t (get_available s))

waited-handed :
    (rest : Option Answer) (x : Acquired × ConnectionPool) (client : ℕ) (id : Text)
    → x.0 ≡ Acquired.handed client id
    → waited rest x ≡ some (ok (client, id), x.1)
waited-handed rest (y, p) client id e = ap (λ z. waited rest (z, p)) e

waited-may_create :
    (rest : Option Answer) (x : Acquired × ConnectionPool)
    → x.0 ≡ Acquired.may_create false
    → waited rest x ≡ rest
waited-may_create rest (y, p) e = ap (λ z. waited rest (z, p)) e

-- The answer of a turn which does not go on.
first_turn :
    (timeout : ℕ) (url : Text) (t : Turn) (ts : List Turn) (a : Answer)
    → GivesUp timeout t a ⊎ HandsOut timeout url t a
    → Ends timeout url (t ∷ ts) a
first_turn timeout url t ts a h = record {
  before = [];
  last = t;
  after = ts;
  split = refl;
  goes_on = tt;
  outcome = h;
}

later_turn :
    (timeout : ℕ) (url : Text) (t : Turn) (ts : List Turn) (a : Answer)
    → GoesOn timeout url t
    → Ends timeout url ts a
    → Ends timeout url (t ∷ ts) a
later_turn timeout url t ts a on h = record {
  before = t ∷ h.before;
  last = h.last;
  after = h.after;
  split = ap (λ us. t ∷ us) h.split;
  goes_on = (on, h.goes_on);
  outcome = h.outcome;
}

wait_from :
    (timeout k : ℕ) (url : Text) (ts : List Turn)
    → AreSpaced k ts
    → k * pause < timeout + pause
    → timeout + pause ≤ (k + length ts) * pause
    → (a : Answer) × (wait timeout url ts ≡ some a) × Ends timeout url ts a
unfolding wait
wait_from timeout k url [] spaced late enough = absurd (omega (arith, late, enough))
wait_from timeout k url (t ∷ ts) spaced late enough = elim (Bool-cases (leb timeout t.elapsed)) [
  | inl out ↦ rw out (_, refl, first_turn timeout url t ts _ (inl (ground (arith, out), refl)))
  | inr waits ↦
      let early : t.elapsed < timeout = ground (arith, waits) in
      let now_taken = get_waiting t.connected t.now url t.pool in
      elim (get_waiting-Takes url t (lookup url t.pool.pools) refl) [
        | inl (c, has, up, e) ↦
            rw (waits, waited-handed (wait timeout url ts) now_taken c.client c.id e)
              (_, refl, first_turn timeout url t ts _ (inr (early, c, has, up, refl)))
        | inr (down, e) ↦
            let (a, returns, ends) =
              wait_from timeout (k + 1) url ts spaced.1 (omega (arith, spaced.0, early))
                (omega (arith, enough)) in
            rw (waits, waited-may_create (wait timeout url ts) now_taken e)
              (a, returns, later_turn timeout url t ts a (early, down) ends)
      ]
]

-- The waiting loop returns, whatever other tasks do with the pool, within as many turns as the
-- timeout has pauses of 50 ms and one, if every pause lasts as long as that. It ends at the first
-- turn that finds the timeout passed, with `Timeout` and the pool unchanged, or that takes a
-- connection whose client is connected, with that connection, before the timeout.
pub wait_returns :
    (timeout : ℕ) (url : Text) (ts : List Turn)
    → AreSpaced 0 ts
    → timeout + pause ≤ length ts * pause
    → (a : Answer) × (wait timeout url ts ≡ some a) × Ends timeout url ts a
wait_returns timeout url ts spaced enough =
    wait_from timeout 0 url ts spaced (omega arith) (omega (arith, enough))

length-clients : (cs : List PooledConnection) → length (map (λ c. c.client) cs) ≡ length cs
length-clients [] = refl
length-clients (c ∷ cs) = omega (arith, length-clients cs)

length-clients_of :
    (pools : List (Text × ServerPool)) → length (clients_of pools) ≡ (stats pools).total_connections
length-clients_of [] = refl
length-clients_of ((url, s) ∷ pools) =
    let all =
      length-append (map (λ (c : PooledConnection). c.client) s.available)
        (map (λ (c : PooledConnection). c.client) s.in_use ++ clients_of pools) in
    let used =
      length-append (map (λ (c : PooledConnection). c.client) s.in_use) (clients_of pools) in
    omega (
      arith,
      all,
      used,
      length-clients s.available,
      length-clients s.in_use,
      length-clients_of pools,
    )

-- `close_all` closes as many clients as the statistics count connections, and leaves none.
pub close_all_lem :
    (p : ConnectionPool)
    → (length (close_all p).0 ≡ (stats p.pools).total_connections)
      × (stats (close_all p).1.pools ≡ stats [])
unfolding close_all
close_all_lem p = (length-clients_of p.pools, refl)

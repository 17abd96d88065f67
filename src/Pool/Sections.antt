-- ===== src/Pool/Sections.antt =====
-- src/pool.rs: what the critical sections on the connections to one server do to all of them: none
-- is duplicated, and only `create` adds one.
use ws_fabric.Prelude.{
  ℕ, ◌+◌, ◌≤◌, ◌≡◌, sym, Bool, true, false, ◌&&◌, not, List, [], ◌∷◌, Option, none, some, arith,
  inl, inr, leb, Text, list_eq, Bool-cases,
}
use ws_fabric.Pool.Vec.{
  PooledConnection, remove_id, weight, weight_of, weight-append, weight-pop_last, weight-remove_id,
  weight-retain,
}
use ws_fabric.Pool.Server.{
  ServerPool, hand_out, reuse_found, reuse, retry_found, retry, created, create, close_found,
  close_available, close, keep_or_drop, release_found, release, cleanup, should_evict,
  total_connections, get_available, remove_in_use,
}

-- What all connections of a pool weigh, if each weighs something by its id.
abbrev pub held : (Text → ℕ) → ServerPool → ℕ
held w p = weight w p.available + weight w p.in_use

-- A critical section of some task; the client that `create` adds has connected.
pub data Section : Type 0 where
  reuses retries : ℕ → Section
  creates : ℕ → ℕ → Text → Section
  releases : ℕ → Text → Section
  closes : Text → Section
  cleans : ℕ → ℕ → Section

abbrev pub enter : (ℕ → Bool) → ℕ → Section → ServerPool → ServerPool
enter connected limit (Section.reuses now) p = (reuse connected now limit p).1
enter connected limit (Section.retries now) p = (retry connected now p).1
enter connected limit (Section.creates now client id) p = create now client id p.url p
enter connected limit (Section.releases now id) p = release connected now limit id p
enter connected limit (Section.closes id) p = close id p
enter connected limit (Section.cleans now timeout) p = (cleanup connected now timeout p).1

hand_out-held :
    (now : ℕ) (c : PooledConnection) (p : ServerPool) (w : Text → ℕ)
    → held w (hand_out now c p) ≡ held w p + w c.id
hand_out-held now c p w =
    omega (arith, weight-append w p.in_use (record c { in_use = true; last_used = now } ∷ []))

-- A connection that was taken out of a pool, and the pool that is left.
abbrev pub both : (Text → ℕ) → Option PooledConnection × ServerPool → ℕ
both w (o, p) = weight_of w o + held w p

pub get_available-both : (p : ServerPool) (w : Text → ℕ) → both w (get_available p) ≡ held w p
get_available-both p w = omega (arith, weight-pop_last w p.available)

pub remove_in_use-both :
    (k : Text) (w : Text → ℕ) (p : ServerPool) → both w (remove_in_use k p) ≡ held w p
remove_in_use-both k w p = omega (arith, weight-remove_id w k p.in_use)

module _ (connected : ℕ → Bool) (now limit : ℕ) where
  reuse_found-held :
      (w : Text → ℕ) (x : Option PooledConnection × ServerPool)
      → held w (reuse_found connected now limit x).1 ≤ both w x
  reuse_found-held w (none, p) = omega arith
  reuse_found-held w (some c, p) = elim (Bool-cases (connected c.client)) [
    | inl e ↦ rw e (omega (arith, hand_out-held now c p w))
    | inr e ↦ rw e (omega arith)
  ]

  retry_found-held :
      (w : Text → ℕ) (x : Option PooledConnection × ServerPool)
      → held w (retry_found connected now x).1 ≤ both w x
  retry_found-held w (none, p) = omega arith
  retry_found-held w (some c, p) = elim (Bool-cases (connected c.client)) [
    | inl e ↦ rw e (omega (arith, hand_out-held now c p w))
    | inr e ↦ rw e (omega arith)
  ]

  keep_or_drop-held :
      (w : Text → ℕ) (c : PooledConnection) (p : ServerPool)
      → held w (keep_or_drop connected now limit c p) ≤ w c.id + held w p
  keep_or_drop-held w c p =
      elim (Bool-cases (connected c.client && leb (total_connections p) limit)) [
        | inl e ↦ rw e (
            omega (
              arith,
              weight-append w p.available (record c { in_use = false; last_used = now } ∷ []),
            ))
        | inr e ↦ rw e (omega arith)
      ]

  release_found-held :
      (w : Text → ℕ) (p : ServerPool) (x : Option PooledConnection × ServerPool)
      → both w x ≡ held w p
      → held w (release_found connected now limit p x) ≤ held w p
  release_found-held w p (none, p') h = omega arith
  release_found-held w p (some c, p') h = omega (arith, keep_or_drop-held w c p', h)

close_available-held :
    (w : Text → ℕ) (p : ServerPool) (x : Option PooledConnection × List PooledConnection)
    → weight_of w x.0 + weight w x.1 ≡ weight w p.available
    → held w (close_available p x) ≤ held w p
close_available-held w p (none, rest) h = omega arith
close_available-held w p (some c, rest) h = omega (arith, h)

close_found-held :
    (k : Text) (w : Text → ℕ) (p : ServerPool) (x : Option PooledConnection × ServerPool)
    → both w x ≡ held w p
    → held w (close_found k p x) ≤ held w p
close_found-held k w p (none, p') h =
    close_available-held w p (remove_id k p.available) (sym (weight-remove_id w k p.available))
close_found-held k w p (some c, p') h = omega (arith, h)

-- What a section adds: the connection that it creates.
abbrev pub added : (Text → ℕ) → Section → ℕ
added w (Section.creates now client k) = w k
added w _ = 0

-- No section but `create` makes the connections of a pool weigh more, and it adds one.
pub enter-held :
    (connected : ℕ → Bool) (limit : ℕ) (w : Text → ℕ) (s : Section) (p : ServerPool)
    → held w (enter connected limit s p) ≤ held w p + added w s
enter-held connected limit w (Section.reuses now) p =
    omega (arith, reuse_found-held connected now limit w (get_available p), get_available-both p w)
enter-held connected limit w (Section.retries now) p =
    omega (arith, retry_found-held connected now limit w (get_available p), get_available-both p w)
enter-held connected limit w (Section.creates now client k) p =
    omega (arith, weight-append w p.in_use (created now client k p.url ∷ []))
enter-held connected limit w (Section.releases now k) p = omega (
  arith,
  release_found-held connected now limit w p (remove_in_use k p) (remove_in_use-both k w p),
)
enter-held connected limit w (Section.closes k) p =
    omega (arith, close_found-held k w p (remove_in_use k p) (remove_in_use-both k w p))
enter-held connected limit w (Section.cleans now timeout) p =
    omega (arith, weight-retain w (λ c. not (should_evict connected now timeout c)) p.available)

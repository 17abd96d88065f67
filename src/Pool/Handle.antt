-- ===== src/Pool/Handle.antt =====
-- src/pool.rs: `PooledClient`, whose drop releases its connection again.
use ws_fabric.Prelude.{
  ℕ, ◌+◌, ◌≤◌, ◌≡◌, refl, sym, ap, ◌∙◌, Bool, List, [], ◌∷◌, Option, none, some, arith, inl, inr,
  ◌++◌, Text, list_eq, text_eq_iff, ◌=?◌, Bool-cases, leb, ◌&&◌,
}
use ws_fabric.Pool.{ConnectionPool, release, close}
use ws_fabric.Pool.Vec.{PooledConnection, remove_id, pop_last, weight, weight_of, weight-remove_id}
use ws_fabric.Pool.Server.{
  ServerPool, Acquired, reuse, release_found, keep_or_drop, total_connections,
  release as release_in,
}
use ws_fabric.Pool.Ownership.{once}

pub record PooledClient : Type 0 where
  pub client : ℕ
  pub url : Text
  pub connection_id : Text

module _ (connected : ℕ → Bool) (now : ℕ) where
  -- `Drop for PooledClient`
  abbrev pub drop_handle : PooledClient → ConnectionPool → ConnectionPool
  drop_handle h p = release connected now h.url h.connection_id p

  -- `PooledClient::release`, which drops its `self` at the end
  abbrev pub release_handle : PooledClient → ConnectionPool → ConnectionPool
  release_handle h p = drop_handle h (release connected now h.url h.connection_id p)

  -- `PooledClient::close` up to the closing of the client, after which `self` is dropped.
  abbrev pub close_handle : PooledClient → ConnectionPool → ConnectionPool
  close_handle h p = close h.url h.connection_id p

once_found :
    (k : Text) (cs : List PooledConnection)
    → weight (once k) cs ≤ 1
    → weight (once k) (remove_id k cs).1 ≡ 0
unfolding remove_id
once_found k [] h = refl
once_found k (c ∷ cs) h = elim (Bool-cases (c.id =? k)) [
  | inl e ↦ let one : once k c.id ≡ 1 = rw e refl in rw e (omega (arith, one, h))
  | inr e ↦
      let other : once k c.id ≡ 0 = rw e refl in
      rw e (omega (arith, other, once_found k cs (omega (arith, h))))
]

once_missing :
    (k : Text) (cs : List PooledConnection) → weight (once k) cs ≡ 0 → (remove_id k cs).0 ≡ none
unfolding remove_id
once_missing k [] h = refl
once_missing k (c ∷ cs) h = elim (Bool-cases (c.id =? k)) [
  | inl e ↦ let one : once k c.id ≡ 1 = rw e refl in absurd (omega (arith, one, h))
  | inr e ↦ rw e (once_missing k cs (omega (arith, h)))
]

module _ (connected : ℕ → Bool) (now limit : ℕ) where
  keep_or_drop-in_use :
      (c : PooledConnection) (p : ServerPool)
      → (keep_or_drop connected now limit c p).in_use ≡ p.in_use
  keep_or_drop-in_use c p =
      elim (Bool-cases (connected c.client && leb (total_connections p) limit)) [
        | inl e ↦ rw e refl
        | inr e ↦ rw e refl
      ]

  release_found-in_use :
      (k : Text) (p : ServerPool) (found : Option PooledConnection) (rest : List PooledConnection)
      → remove_id k p.in_use ≡ (found, rest)
      → weight (once k) p.in_use ≤ 1
      → weight
          (once k)
          (release_found connected now limit p (found, record p { in_use = rest })).in_use
        ≡ 0
  release_found-in_use k p none rest e h =
      let all : weight (once k) p.in_use ≡ weight (once k) rest =
        weight-remove_id (once k) k p.in_use
        ∙ ap
            (λ (x : Option PooledConnection × List PooledConnection).
              weight_of (once k) x.0 + weight (once k) x.1)
            e
        ∙ omega arith in
      all
      ∙ ap (λ (x : Option PooledConnection × List PooledConnection). weight (once k) x.1) (sym e)
      ∙ once_found k p.in_use h
  release_found-in_use k p (some c) rest e h =
      ap (weight (once k)) (keep_or_drop-in_use c (record p { in_use = rest }))
      ∙ ap (λ (x : Option PooledConnection × List PooledConnection). weight (once k) x.1) (sym e)
      ∙ once_found k p.in_use h

  pub release-in_use :
      (k : Text) (p : ServerPool)
      → weight (once k) p.in_use ≤ 1
      → weight (once k) (release_in connected now limit k p).in_use ≡ 0
  release-in_use k p h =
      release_found-in_use k p (remove_id k p.in_use).0 (remove_id k p.in_use).1 refl h

  release-missing :
      (k : Text) (p : ServerPool)
      → weight (once k) p.in_use ≡ 0
      → release_in connected now limit k p ≡ p
  release-missing k p h = rw (once_missing k p.in_use h) refl

  -- Releasing a connection that one task holds and releasing it again at once, as `PooledClient`
  -- does in `release` and then in its drop, is releasing it once.
  pub release_twice :
      (k : Text) (p : ServerPool)
      → weight (once k) p.in_use ≤ 1
      → release_in connected now limit k (release_in connected now limit k p)
        ≡ release_in connected now limit k p
  release_twice k p h =
      release-missing k (release_in connected now limit k p) (release-in_use k p h)

pub pop_last-append :
    (c : PooledConnection) (cs : List PooledConnection) → pop_last (cs ++ (c ∷ [])) ≡ (some c, cs)
unfolding pop_last
pop_last-append c [] = refl
pop_last-append c (d ∷ []) = refl
pop_last-append c (d ∷ e ∷ cs) =
    ap (λ (x : Option PooledConnection × List PooledConnection). (x.0, d ∷ x.1))
      (pop_last-append c (e ∷ cs))

pub remove_id-last :
    (k : Text) (c : PooledConnection) (cs : List PooledConnection)
    → c.id ≡ k
    → weight (once k) cs ≡ 0
    → remove_id k (cs ++ (c ∷ [])) ≡ (some c, cs)
unfolding remove_id
remove_id-last k c [] e h = rw ((text_eq_iff c.id k).1 e) refl
remove_id-last k c (d ∷ cs) e h = elim (Bool-cases (d.id =? k)) [
  | inl same ↦ let one : once k d.id ≡ 1 = rw same refl in absurd (omega (arith, one, h))
  | inr other ↦
      let rest = remove_id-last k c cs e (omega (arith, h)) in
      rw other (ap (λ (x : Option PooledConnection × List PooledConnection). (x.0, d ∷ x.1)) rest)
]

module _ (connected : ℕ → Bool) (limit : ℕ) where
  -- A task hands out this id and this client again.
  abbrev pub HandsOut : ℕ → ℕ → Text → ServerPool → Type 0
  HandsOut now client id p =
      (p' : ServerPool) × (reuse connected now limit p ≡ (Acquired.handed client id, p'))

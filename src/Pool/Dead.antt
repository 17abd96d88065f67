-- ===== src/Pool/Dead.antt =====
-- src/pool.rs with src/client.rs: a pooled client whose server has gone. The pool asks the client
-- whether it is connected, and the client says so still.
mod Tests
use ws_fabric.Prelude.{
  ℕ, ◌+◌, ◌≤◌, ◌≡◌, refl, sym, ap, subst, ◌∙◌, Bool, true, false, ◌&&◌, List, [], ◌∷◌, ◌++◌, Option,
  none, some, arith, inl, inr, length, length-append, le→leb, Text, ◌==◌, ==_iff, if◌then◌else◌,
  Bool-cases,
}
use ws_fabric.Error.{Result, err}
use ws_fabric.Float.{F64}
use ws_fabric.Channel.{Mpsc}
use ws_fabric.Message.{Message}
use ws_fabric.Socket.{Incoming, is_running}
use ws_fabric.Client.{Client, send, is_connected}
use ws_fabric.Client.Steps.{Step, Trace, run}
use ws_fabric.Client.Lifecycle.{none_shuts, is_end, refusal, ended_lem}
use ws_fabric.Pool.Vec.{PooledConnection, pop_last, remove_id, weight}
use ws_fabric.Pool.Server.{ServerPool, Acquired, total_connections, hand_out, reuse, release}
use ws_fabric.Pool.Ownership.{once}
use ws_fabric.Pool.Handle.{pop_last-append, remove_id-last}

-- Some task gets a connection, and releases the one of this id.
abbrev pub cycle : ℕ → Text → (ℕ → Bool) → ℕ → ℕ → ServerPool → ServerPool
cycle limit id connected now later p =
    release connected later limit id (reuse connected now limit p).1

module _ (limit client : ℕ) (id : Text) where
  -- The connection is the next that is handed out, nobody holds it, and the limit is not exceeded.
  pub record IsNext (p : ServerPool) : Type 0 where
    pub front : List PooledConnection
    pub last : PooledConnection
    pub available : p.available ≡ front ++ (last ∷ [])
    pub same : (last.id ≡ id) × (last.client ≡ client)
    pub free : weight (once id) p.in_use ≡ 0
    pub within : total_connections p ≤ limit

  abbrev pub front_only : (p : ServerPool) → IsNext p → ServerPool
  front_only p next = record p { available = next.front }

  reuse_next :
      (connected : ℕ → Bool) (now : ℕ) (p : ServerPool) (next : IsNext p)
      → connected client ≡ true
      → reuse connected now limit p
        ≡ (Acquired.handed client id, hand_out now next.last (front_only p next))
  reuse_next connected now p next up =
      let up' : connected next.last.client ≡ true =
        subst (λ c. connected c ≡ true) (sym next.same.1) up in
      let named : Acquired.handed next.last.client next.last.id ≡ Acquired.handed client id =
        cc (next.same.0, next.same.1) in
      rw (next.available, pop_last-append next.last next.front, up')
        (ap (λ (a : Acquired). (a, hand_out now next.last (front_only p next))) named)

  release_held :
      (connected : ℕ → Bool) (now later : ℕ) (c : PooledConnection) (p : ServerPool)
      → connected client ≡ true
      → (c.id ≡ id) × (c.client ≡ client)
      → weight (once id) p.in_use ≡ 0
      → total_connections p + 1 ≤ limit
      → IsNext (release connected later limit id (hand_out now c p))
  release_held connected now later c p up same free room =
      let busy : PooledConnection = record c { in_use = true; last_used = now } in
      let up' : connected c.client ≡ true = subst (λ i. connected i ≡ true) (sym same.1) up in
      let kept = le→leb (total_connections p) limit (omega (arith, room)) in
      let idle : PooledConnection = record busy { in_use = false; last_used = later } in
      rw (remove_id-last id busy p.in_use same.0 free, up', kept)
        (record {
          front = p.available;
          last = idle;
          available = refl;
          same = same;
          free = free;
          within = omega (arith, room, length-append p.available (idle ∷ []));
        })

  pub cycle-IsNext :
      (connected : ℕ → Bool) (now later : ℕ) (p : ServerPool)
      → connected client ≡ true
      → IsNext p
      → IsNext (cycle limit id connected now later p)
  cycle-IsNext connected now later p up next =
      let size = ap length next.available in
      let grown = length-append next.front (next.last ∷ []) in
      subst (λ (x : Acquired × ServerPool). IsNext (release connected later limit id x.1))
        (sym (reuse_next connected now p next up))
        (release_held connected now later next.last (front_only p next) up next.same next.free
          (omega (arith, size, grown, next.within)))

  pub reuse-handed :
      (connected : ℕ → Bool) (now : ℕ) (p : ServerPool)
      → connected client ≡ true
      → IsNext p
      → (reuse connected now limit p).0 ≡ Acquired.handed client id
  reuse-handed connected now p up next =
      ap (λ (x : Acquired × ServerPool). x.0) (reuse_next connected now p next up)

-- A task's use of the pool: what the other clients answer, the turns that the client's own tasks
-- have taken since its server has gone, and when it gets its connection and releases it.
pub record Round : Type 0 where
  pub others : ℕ → Bool
  pub steps : List Step
  pub now : ℕ
  pub later : ℕ

abbrev pub are_calm : List Round → Bool
are_calm [] = true
are_calm (r ∷ rounds) = none_shuts r.steps && are_calm rounds

-- The client's trace in a round, after its end.
abbrev pub gone : (f : F64) (q : Mpsc Message) → Step → Trace f q → Round → Trace f q
gone f q end t r = run f q (end ∷ r.steps) t

module _ (f : F64) (q : Mpsc Message) (end : Step) (t : Trace f q) (client : ℕ) where
  -- What the clients answer to the pool.
  abbrev pub answers : Round → ℕ → Bool
  answers r i = if i == client then is_connected f q (gone f q end t r).1.client else r.others i

  unfoldable pub circulate : ℕ → Text → List Round → ServerPool → ServerPool
  circulate limit id [] p = p
  circulate limit id (r ∷ rounds) p =
      circulate limit id rounds (cycle limit id (answers r) r.now r.later p)

  answers_own :
      (r : Round) → is_connected f q (gone f q end t r).1.client ≡ true → answers r client ≡ true
  answers_own r up = let own : (client == client) ≡ true = ground arith in rw own up

  circulate-IsNext :
      (limit : ℕ) (id : Text) (rounds : List Round) (p : ServerPool)
      → ((r : Round)
          → none_shuts r.steps ≡ true
          → is_connected f q (gone f q end t r).1.client ≡ true)
      → are_calm rounds ≡ true
      → IsNext limit client id p
      → IsNext limit client id (circulate limit id rounds p)
  unfolding circulate
  circulate-IsNext limit id [] p up calm next = next
  circulate-IsNext limit id (r ∷ rounds) p up calm next =
      let calm_now : none_shuts r.steps ≡ true = ground (arith, calm) in
      let calm_later : are_calm rounds ≡ true = ground (arith, calm) in
      circulate-IsNext limit id rounds (cycle limit id (answers r) r.now r.later p) up calm_later (
        cycle-IsNext limit client id (answers r) r.now r.later p (answers_own r (up r calm_now))
          next)

-- A client that was connected when its server closed the connection or reading failed, and that
-- nobody closes, comes back from the pool: however often it has been handed out and released, if
-- it is the next in the pool of a server (and nobody holds it, and there are no more connections
-- than the limit), the next task gets it again, and everything that the task sends fails.
pub dead_circulates :
    (f : F64) (q : Mpsc Message) (t : Trace f q) (at : ℕ) (w : Bool) (i : Incoming)
    (limit client : ℕ) (id : Text) (rounds : List Round) (last : Round) (p : ServerPool) (later : ℕ)
    (m : Message)
    → is_end i ≡ true
    → is_running t.1.task ≡ true
    → is_connected f q t.1.client ≡ true
    → are_calm rounds ≡ true
    → none_shuts last.steps ≡ true
    → IsNext limit client id p
    → ((reuse
          (answers f q (Step.reads at w i) t client last)
          last.now
          limit
          (circulate f q (Step.reads at w i) t client limit id rounds p)).0
        ≡ Acquired.handed client id)
      × (send f q later m (gone f q (Step.reads at w i) t last).1.client
          ≡ some (
            err (refusal f q (gone f q (Step.reads at w i) t last).1.client),
            (gone f q (Step.reads at w i) t last).1.client,
          ))
dead_circulates f q t at w i limit client id rounds last p later m ends runs up calm calm_last
      next =
    let stays_up : (r : Round)
        → none_shuts r.steps ≡ true
        → is_connected f q (gone f q (Step.reads at w i) t r).1.client ≡ true =
      λ r calm_now. (ended_lem f q r.steps t at later w i m ends calm_now runs).0 ∙ up in
    let end = Step.reads at w i in
    (
      reuse-handed limit client id (answers f q end t client last) last.now
          (circulate f q end t client limit id rounds p)
          (answers_own f q end t client last (stays_up last calm_last))
          (circulate-IsNext f q end t client limit id rounds p stays_up calm next),
      (ended_lem f q last.steps t at later w i m ends calm_last runs).1,
    )

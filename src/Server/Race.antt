-- ===== src/Server/Race.antt =====
-- src/server.rs: the limit is tested before the handshake, and the table grows after it.
use ws_fabric.Prelude.{
  ℕ, zero, suc, ◌+◌, ◌<◌, ◌≡◌, refl, ap, ◌∙◌, true, false, List, [], ◌∷◌, ◌++◌, none, arith, length,
  replicate, lt→leb, nat_eq, ◌==◌,
}
use ws_fabric.Prelude.Assoc.{lookup, lookup-nil, insert, lookup-insert_ne, length-insert_absent}
use ws_fabric.Float.{F64}
use ws_fabric.Channel.{Mpsc}
use ws_fabric.Message.{Message}
use ws_fabric.Config.Server.{ServerConfig}
use ws_fabric.Server.{Server, new, new_client, connection_count}
use ws_fabric.Server.Handler.{World, begin}
use ws_fabric.Server.Steps.{Step, step, run}

-- So many handshakes that succeed, with different ids.
abbrev pub handshake_all : ℕ → List Step
handshake_all zero = []
handshake_all (suc n) = Step.handshakes 0 n [] ∷ handshake_all n

-- So many connections are accepted, and then their handshakes succeed.
abbrev pub flood : ℕ → List Step
flood n = replicate n Step.accepts ++ handshake_all n

module _ (f : F64) (q : Mpsc Message) where
  run-append :
      (xs ys : List Step) (w : World f q) → run f q (xs ++ ys) w ≡ run f q ys (run f q xs w)
  unfolding run
  run-append [] ys w = refl
  run-append (s ∷ xs) ys w = run-append xs ys (step f q s w)

  -- None of the ids below is in the table.
  abbrev AreNew : ℕ → World f q → Type 0
  AreNew n w = (j : ℕ) → j < n → lookup j w.server.connections ≡ none

  pub accept_one :
      (w : World f q)
      → w.listening ≡ true
      → connection_count f w.server < w.server.config.max_connections
      → step f q Step.accepts w ≡ record w { pending = w.pending + 1 }
  accept_one w on room =
      rw (on, lt→leb w.server.config.max_connections (connection_count f w.server) room) refl

  accept_many :
      (n : ℕ) (w : World f q)
      → w.listening ≡ true
      → connection_count f w.server < w.server.config.max_connections
      → ((run f q (replicate n Step.accepts) w).server ≡ w.server)
        × ((run f q (replicate n Step.accepts) w).pending ≡ w.pending + n)
  unfolding run
  accept_many zero w on room = (refl, omega arith)
  accept_many (suc n) w on room =
      let moved = accept_one w on room in
      let later = accept_many n (record w { pending = w.pending + 1 }) on room in
      (
        ap (λ v. (run f q (replicate n Step.accepts) v).server) moved ∙ later.0,
        ap (λ v. (run f q (replicate n Step.accepts) v).pending) moved ∙ later.1 ∙ omega arith,
      )

  handshake_one :
      (n k : ℕ) (w : World f q)
      → w.pending ≡ suc n
      → ((step f q (Step.handshakes 0 k []) w).pending ≡ n)
        × ((step f q (Step.handshakes 0 k []) w).server.connections
            ≡ insert k (new_client k []) w.server.connections)
  handshake_one n k w e = rw e (refl, refl)

  handshake-AreNew :
      (n : ℕ) (w : World f q)
      → w.pending ≡ suc n
      → AreNew (suc n) w
      → AreNew n (step f q (Step.handshakes 0 n []) w)
  handshake-AreNew n w e fresh j lt =
      let other : (n == j) ≡ false = ground arith in
      ap (lookup j) (handshake_one n n w e).1
      ∙ (lookup-insert_ne n j (new_client n []) w.server.connections other
          ∙ fresh j (omega (arith, lt)))

  handshake_many :
      (n : ℕ) (w : World f q)
      → w.pending ≡ n
      → AreNew n w
      → connection_count f (run f q (handshake_all n) w).server ≡ connection_count f w.server + n
  unfolding run
  handshake_many zero w e fresh = omega arith
  handshake_many (suc n) w e fresh =
      let one = handshake_one n n w e in
      let more =
        length-insert_absent n (new_client n []) w.server.connections (fresh n (omega arith)) in
      let grown = ap length one.1 in
      let later =
        handshake_many n (step f q (Step.handshakes 0 n []) w) one.0
          (handshake-AreNew n w e fresh) in
      omega (arith, later, more, grown)

  -- The maximum does not bound the connections: for every number there is an order of turns in which
  -- a new server with a positive maximum gets that many of them. All are accepted before the first
  -- handshake ends.
  pub run-flood :
      (c : ServerConfig) (n : ℕ)
      → 0 < c.max_connections
      → connection_count f (run f q (flood n) (begin f q (new f c))).server ≡ n
  unfolding new
  run-flood c n room =
      let w : World f q = begin f q (new f c) in
      let (same, all) = accept_many n w refl room in
      let no_client : AreNew n (run f q (replicate n Step.accepts) w) =
        λ j lt. ap (λ (s : Server f). lookup j s.connections) same ∙ lookup-nil j in
      let none_yet = ap (λ (s : Server f). connection_count f s) same in
      let done =
        handshake_many n (run f q (replicate n Step.accepts) w) (all ∙ omega arith) no_client in
      ap (λ v. connection_count f v.server)
        (run-append (replicate n Step.accepts) (handshake_all n) w)
      ∙ (done ∙ omega (arith, none_yet))

-- ===== src/Pool/Tests.antt =====
-- src/pool.rs: one connection that comes and goes.
use ws_fabric.Prelude.{
  ℕ, ◌+◌, ◌≡◌, refl, arith, Bool, true, false, List, [], ◌∷◌, some, length, Text,
}
use ws_fabric.Pool.Vec.{pop_last, remove_id}
use ws_fabric.Pool.Server.{ServerPool, new_server, total_connections, reuse, release}
use ws_fabric.Pool.Sections.{Section}
use ws_fabric.Pool.Ownership.{Turn, run}
use ws_fabric.Pool.Drift.{all_lost, run-total_created}
use ws_fabric.Pool.{ConnectionPool, default, stats, close_all}
use ws_fabric.Pool.Waiting.{Turn as WaitingTurn, Answer, Ends, wait, wait_returns, close_all_lem}
use ws_fabric.Pool.Handle.{release_twice}

abbrev up : ℕ → Bool
up client = true

abbrev first_id : Text
first_id = 1 ∷ []

abbrev turns : List Turn
turns = (up, Section.creates 1 7 first_id) ∷ (up, Section.releases 2 first_id) ∷ []

abbrev last_pool : ServerPool
last_pool = (reuse up 3 10 (run 10 turns (new_server []))).1

abbrev down : ℕ → Bool
down client = false

-- A waiting task finds the connection when its client is down.
abbrev found_down : List Turn
found_down =
    (up, Section.creates 1 7 first_id)
    ∷ (up, Section.releases 2 first_id)
    ∷ (down, Section.retries 3)
    ∷ []

run-total_created_example :
    (run 10 found_down (new_server [])).total_created
    ≡ total_connections (run 10 found_down (new_server [])) + all_lost 10 found_down (new_server [])
run-total_created_example = run-total_created 10 found_down [] (omega arith)

one_too_many : (run 10 found_down (new_server [])).total_created ≡ 1
unfolding run pop_last remove_id
one_too_many = refl

-- Two turns of the waiting loop, 50 ms apart, on an empty pool.
abbrev nothing : ConnectionPool
nothing = record { config = default; pools = [] }

abbrev turn_at : ℕ → WaitingTurn
turn_at elapsed = record { elapsed = elapsed; now = elapsed; connected = up; pool = nothing }

abbrev waiting : List WaitingTurn
waiting = turn_at 0 ∷ turn_at 50000001 ∷ turn_at 100000002 ∷ []

wait_returns_example :
    (a : Answer) × (wait 100000000 first_id waiting ≡ some a) × Ends 100000000 first_id waiting a
wait_returns_example =
    wait_returns 100000000 first_id waiting (omega arith, (omega arith, (omega arith, tt)))
      (omega arith)

-- A pool with one connection in use, and the same when it is back.
abbrev holding : ServerPool
holding = run 10 ((up, Section.creates 1 7 first_id) ∷ []) (new_server [])

release_twice_example :
    release up 3 10 first_id (release up 3 10 first_id holding) ≡ release up 3 10 first_id holding
unfolding run
release_twice_example = release_twice up 3 10 first_id holding (omega arith)

abbrev filled : ConnectionPool
filled = record { config = default; pools = ([], holding) ∷ [] }

close_all_lem_example :
    (length (close_all filled).0 ≡ (stats filled.pools).total_connections)
    × (stats (close_all filled).1.pools ≡ stats [])
close_all_lem_example = close_all_lem filled

-- ===== src/Pool/Vec.antt =====
-- The vectors of src/pool.rs: taking the last element, and taking one by its id; and what
-- its elements weigh, by their ids.
use ws_fabric.Prelude.{
  ℕ, ◌+◌, ◌≤◌, ◌≡◌, refl, Bool, List, [], ◌∷◌, ◌++◌, Option, none, some, arith, inl, inr, retain,
  if◌then◌else◌, Text, list_eq, ◌=?◌, Bool-cases,
}

pub record PooledConnection : Type 0 where
  pub id : Text
  pub client : ℕ
  pub last_used : ℕ
  pub created_at : ℕ
  pub in_use : Bool
  pub url : Text

-- `Vec::pop`
unfoldable pub pop_last : List PooledConnection → Option PooledConnection × List PooledConnection
pop_last [] = (none, [])
pop_last (c ∷ []) = (some c, [])
pop_last (c ∷ d ∷ cs) = let (last, front) = pop_last (d ∷ cs) in (last, c ∷ front)

-- `position` by id, and `remove`
unfoldable pub remove_id :
    Text → List PooledConnection → Option PooledConnection × List PooledConnection
remove_id id [] = (none, [])
remove_id id (c ∷ cs) =
    let (found, rest) = remove_id id cs in if c.id =? id then (some c, cs) else (found, c ∷ rest)

abbrev pub weight : (Text → ℕ) → List PooledConnection → ℕ
weight w [] = 0
weight w (c ∷ cs) = w c.id + weight w cs

abbrev pub weight_of : (Text → ℕ) → Option PooledConnection → ℕ
weight_of w none = 0
weight_of w (some c) = w c.id

pub weight-append :
    (w : Text → ℕ) (cs ds : List PooledConnection) → weight w (cs ++ ds) ≡ weight w cs + weight w ds
weight-append w [] ds = omega arith
weight-append w (c ∷ cs) ds = omega (arith, weight-append w cs ds)

pub weight-pop_last :
    (w : Text → ℕ) (cs : List PooledConnection)
    → weight w cs ≡ weight_of w (pop_last cs).0 + weight w (pop_last cs).1
unfolding pop_last
weight-pop_last w [] = omega arith
weight-pop_last w (c ∷ []) = omega arith
weight-pop_last w (c ∷ d ∷ cs) = omega (arith, weight-pop_last w (d ∷ cs))

pub weight-remove_id :
    (w : Text → ℕ) (k : Text) (cs : List PooledConnection)
    → weight w cs ≡ weight_of w (remove_id k cs).0 + weight w (remove_id k cs).1
unfolding remove_id
weight-remove_id w k [] = omega arith
weight-remove_id w k (c ∷ cs) = elim (Bool-cases (c.id =? k)) [
  | inl e ↦ rw e refl
  | inr e ↦ rw e (omega (arith, weight-remove_id w k cs))
]

pub weight-retain :
    (w : Text → ℕ) (keep : PooledConnection → Bool) (cs : List PooledConnection)
    → weight w (retain keep cs) ≤ weight w cs
weight-retain w keep [] = omega arith
weight-retain w keep (c ∷ cs) = elim (Bool-cases (keep c)) [
  | inl e ↦ rw e (omega (arith, weight-retain w keep cs))
  | inr e ↦ rw e (omega (arith, weight-retain w keep cs))
]

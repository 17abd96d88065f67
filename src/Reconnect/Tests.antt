-- ===== src/Reconnect/Tests.antt =====
-- src/reconnect.rs: three attempts at most, and five times to try.
use ws_fabric.Prelude.{ℕ, ◌≡◌, refl, arith, List, [], ◌∷◌, length, min, ltb}
use ws_fabric.Float.Rationals.{rationals}
use ws_fabric.Reconnect.{ReconnectConfig, default, new, should_reconnect, attempts, attempts_lem}

abbrev three_times : ReconnectConfig rationals
three_times = record (default rationals) { max_attempts = 3 }

abbrev times : List ℕ
times = 1 ∷ 2 ∷ 3 ∷ 4 ∷ 5 ∷ []

attempts_lem_example :
    ((attempts rationals times (new rationals three_times)).attempt ≡ min (length times) 3)
    × (should_reconnect rationals (attempts rationals times (new rationals three_times))
        ≡ ltb (length times) 3)
attempts_lem_example = attempts_lem rationals times three_times refl (omega arith) (omega arith)

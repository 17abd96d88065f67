-- ===== src/Backpressure/Tests.antt =====
-- src/backpressure.rs: a buffer of 100 bytes.
use ws_fabric.Prelude.{◌+◌, ◌≤◌, ◌<◌, ◌≡◌, refl, arith, true, List, [], ◌∷◌}
use ws_fabric.Float.Rationals.{rationals}
use ws_fabric.Backpressure.{
  BackpressureConfig, Event, limit, sent, received, run, new, is_backpressure_active,
  backpressure_lem,
}

abbrev config : BackpressureConfig rationals
config = record {
  enabled = true;
  max_buffer_size = 100;
  backpressure_threshold = (4, 5);
  recovery_threshold = (3, 5);
}

abbrev events : List (Event rationals)
events = Event.send 90 ∷ Event.recv 5 ∷ []

backpressure_lem_example :
    ((run rationals events (new rationals config)).current_size ≤ sent rationals events)
    × (sent rationals events
        ≤ (run rationals events (new rationals config)).current_size + received rationals events)
    × ((is_backpressure_active rationals (run rationals events (new rationals config)) ≡ true)
        → (limit rationals config < sent rationals events))
    × ((limit rationals config + received rationals events < sent rationals events)
        → (is_backpressure_active rationals (run rationals events (new rationals config)) ≡ true))
backpressure_lem_example = backpressure_lem rationals config events refl (omega arith)

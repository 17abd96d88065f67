-- ===== src/Metrics.antt =====
-- src/metrics.rs: counters of a connection, and its latencies. The shared state has one owner at
-- a time, the holder of its lock. Latencies are microseconds, clock readings nanoseconds.
pub mod Sorted
pub mod Snapshot
pub mod Format
pub mod Latency
use ws_fabric.Prelude.{
  ℕ, ◌+◌, ◌-◌, ◌*◌, ◌/◌, ◌≤◌, ◌<◌, ◌≡◌, refl, Bool, true, false, List, [], ◌∷◌, ◌++◌, Option, none,
  some, arith, length, drop, get_elem?, ltb, if◌then◌else◌, add64,
}
use ws_fabric.Metrics.Sorted.{sort}

pub record ConnectionMetrics : Type 0 where
  pub active_connections : ℕ
  pub total_connections : ℕ
  pub disconnections : ℕ
  pub connection_errors : ℕ
  pub reconnections : ℕ
  pub messages_sent : ℕ
  pub messages_received : ℕ
  pub bytes_sent : ℕ
  pub bytes_received : ℕ
  pub send_errors : ℕ
  pub receive_errors : ℕ
  pub latencies : List ℕ
  pub last_activity : Option ℕ

abbrev pub new : ConnectionMetrics
new = record {
  active_connections = 0;
  total_connections = 0;
  disconnections = 0;
  connection_errors = 0;
  reconnections = 0;
  messages_sent = 0;
  messages_received = 0;
  bytes_sent = 0;
  bytes_received = 0;
  send_errors = 0;
  receive_errors = 0;
  latencies = [];
  last_activity = none;
}

unfoldable pub record_connection : ℕ → ConnectionMetrics → ConnectionMetrics
record_connection now m = record m {
  active_connections = add64 m.active_connections 1;
  total_connections = add64 m.total_connections 1;
  last_activity = some now;
}

-- `saturating_sub` is the subtraction of ℕ.
unfoldable pub record_disconnection : ℕ → ConnectionMetrics → ConnectionMetrics
record_disconnection now m = record m {
  active_connections = m.active_connections - 1;
  disconnections = add64 m.disconnections 1;
  last_activity = some now;
}

unfoldable pub record_connection_error : ConnectionMetrics → ConnectionMetrics
record_connection_error m = record m { connection_errors = add64 m.connection_errors 1 }

unfoldable pub record_reconnection : ConnectionMetrics → ConnectionMetrics
record_reconnection m = record m { reconnections = add64 m.reconnections 1 }

unfoldable pub record_message_sent : ℕ → ℕ → ConnectionMetrics → ConnectionMetrics
record_message_sent now size m = record m {
  messages_sent = add64 m.messages_sent 1;
  bytes_sent = add64 m.bytes_sent size;
  last_activity = some now;
}

unfoldable pub record_message_received : ℕ → ℕ → ConnectionMetrics → ConnectionMetrics
record_message_received now size m = record m {
  messages_received = add64 m.messages_received 1;
  bytes_received = add64 m.bytes_received size;
  last_activity = some now;
}

unfoldable pub record_send_error : ConnectionMetrics → ConnectionMetrics
record_send_error m = record m { send_errors = add64 m.send_errors 1 }

unfoldable pub record_receive_error : ConnectionMetrics → ConnectionMetrics
record_receive_error m = record m { receive_errors = add64 m.receive_errors 1 }

-- `push`, and `remove(0)` above 1000 entries.
abbrev pub push_latency : ℕ → List ℕ → List ℕ
push_latency micros latencies =
    let pushed = latencies ++ (micros ∷ []) in
    if ltb 1000 (length pushed) then drop 1 pushed else pushed

unfoldable pub record_latency : ℕ → ConnectionMetrics → ConnectionMetrics
record_latency micros m = record m { latencies = push_latency micros m.latencies }

pub record LatencyPercentiles : Type 0 where
  pub p50 : ℕ
  pub p95 : ℕ
  pub p99 : ℕ
  pub p999 : ℕ

-- An index past the end of the vector panics: `none`.
abbrev pub indexed : Option ℕ → Option ℕ → Option ℕ → Option ℕ → Option LatencyPercentiles
indexed (some p50) (some p95) (some p99) (some p999) =
    some (record { p50 = p50; p95 = p95; p99 = p99; p999 = p999 })
indexed _ _ _ _ = none

abbrev pub percentiles_of : List ℕ → Option LatencyPercentiles
percentiles_of sorted =
    let n = length sorted in
    indexed (get_elem? sorted (n * 50 / 100)) (get_elem? sorted (n * 95 / 100))
      (get_elem? sorted (n * 99 / 100)) (get_elem? sorted ((n - 1) * 999 / 1000))

abbrev pub percentiles : List ℕ → Option LatencyPercentiles
percentiles [] = some (record { p50 = 0; p95 = 0; p99 = 0; p999 = 0 })
percentiles (x ∷ xs) = percentiles_of (sort (x ∷ xs))

abbrev pub latency_percentiles : ConnectionMetrics → Option LatencyPercentiles
latency_percentiles m = percentiles m.latencies

-- `elapsed() > timeout`
unfoldable pub is_idle : ℕ → ℕ → ConnectionMetrics → Bool
is_idle now timeout m = elim m.last_activity [ some t ↦ ltb timeout (now - t) | none ↦ false ]

unfoldable pub reset : ConnectionMetrics → ConnectionMetrics
reset m = new

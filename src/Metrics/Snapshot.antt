-- ===== src/Metrics/Snapshot.antt =====
-- src/metrics.rs: what `MetricsCollector` tells of its counters.
use ws_fabric.Prelude.{ℕ, List, [], ◌∷◌, Option, Text, text_of, list_eq}
use ws_fabric.Prelude.Assoc.{insert}
use ws_fabric.Metrics.{ConnectionMetrics}

abbrev pub message_stats : ConnectionMetrics → ℕ × ℕ
message_stats m = (m.messages_sent, m.messages_received)

abbrev pub byte_stats : ConnectionMetrics → ℕ × ℕ
byte_stats m = (m.bytes_sent, m.bytes_received)

abbrev pub error_counts : ConnectionMetrics → ℕ × ℕ × ℕ
error_counts m = (m.connection_errors, m.send_errors, m.receive_errors)

-- The names and counters in the order in which `snapshot` inserts them.
abbrev pub counters : ConnectionMetrics → List (Text × ℕ)
counters m =
    (text_of "active_connections", m.active_connections)
    ∷ (text_of "total_connections", m.total_connections)
    ∷ (text_of "disconnections", m.disconnections)
    ∷ (text_of "connection_errors", m.connection_errors)
    ∷ (text_of "reconnections", m.reconnections)
    ∷ (text_of "messages_sent", m.messages_sent)
    ∷ (text_of "messages_received", m.messages_received)
    ∷ (text_of "bytes_sent", m.bytes_sent)
    ∷ (text_of "bytes_received", m.bytes_received)
    ∷ (text_of "send_errors", m.send_errors)
    ∷ (text_of "receive_errors", m.receive_errors)
    ∷ []

abbrev pub insert_all : List (Text × ℕ) → List (Text × ℕ) → List (Text × ℕ)
insert_all [] shown = shown
insert_all ((name, value) ∷ rest) shown = insert_all rest (insert name value shown)

abbrev pub snapshot : ConnectionMetrics → List (Text × ℕ)
snapshot m = insert_all (counters m) []

abbrev pub active_connections : ConnectionMetrics → ℕ
active_connections m = m.active_connections

abbrev pub total_connections : ConnectionMetrics → ℕ
total_connections m = m.total_connections

abbrev pub messages_sent : ConnectionMetrics → ℕ
messages_sent m = m.messages_sent

abbrev pub messages_received : ConnectionMetrics → ℕ
messages_received m = m.messages_received

abbrev pub bytes_sent : ConnectionMetrics → ℕ
bytes_sent m = m.bytes_sent

abbrev pub bytes_received : ConnectionMetrics → ℕ
bytes_received m = m.bytes_received

abbrev pub last_activity : ConnectionMetrics → Option ℕ
last_activity m = m.last_activity

-- ===== src/Heartbeat/Queries.antt =====
-- src/heartbeat.rs: what the manager tells of its state, and its timer.
use ws_fabric.Prelude.{ℕ, ◌-◌, Bool, not, Option, none, some, if◌then◌else◌}
use ws_fabric.Error.{Error, Result, ok, err}
use ws_fabric.Heartbeat.{HeartbeatManager}

abbrev pub is_enabled : HeartbeatManager → Bool
is_enabled h = h.config.enabled

abbrev pub ping_count : HeartbeatManager → ℕ
ping_count h = h.ping_count

abbrev pub pong_count : HeartbeatManager → ℕ
pong_count h = h.pong_count

abbrev pub missed_pings : HeartbeatManager → ℕ
missed_pings h = h.missed_pings

-- The period of the timer.
unfoldable pub ping_interval : HeartbeatManager → Result ℕ
ping_interval h = if not (is_enabled h) then err Error.not_supported else ok h.config.ping_interval

-- `elapsed` is zero where the clock went back.
abbrev pub time_since_last_pong : ℕ → HeartbeatManager → Option ℕ
time_since_last_pong now h = elim h.last_pong [ none ↦ none | some t ↦ some (now - t) ]

-- ===== src/Config/Builders.antt =====
-- src/config.rs: the builder methods of the configurations of reconnection, heartbeat and
-- backpressure.
use ws_fabric.Prelude.{ℕ, Bool, false, ◌&&◌, Option, none, some, if◌then◌else◌}
use ws_fabric.Float.{F64}
use ws_fabric.Heartbeat.{HeartbeatConfig}
use ws_fabric.Reconnect.{ReconnectConfig, default as default_reconnect}
use ws_fabric.Backpressure.{BackpressureConfig}
use ws_fabric.Config.{default_heartbeat, default_backpressure}

abbrev pub heartbeat_disabled : HeartbeatConfig
heartbeat_disabled = record default_heartbeat { enabled = false }

abbrev pub with_ping_interval : ℕ → HeartbeatConfig → HeartbeatConfig
with_ping_interval interval c = record c { ping_interval = interval }

abbrev pub with_ping_timeout : ℕ → HeartbeatConfig → HeartbeatConfig
with_ping_timeout timeout c = record c { ping_timeout = timeout }

module _ (f : F64) where
  abbrev pub reconnect_disabled : ReconnectConfig f
  reconnect_disabled = record (default_reconnect f) { enabled = false }

  abbrev pub with_max_attempts : ℕ → ReconnectConfig f → ReconnectConfig f
  with_max_attempts n c = record c { max_attempts = n }

  abbrev pub with_initial_delay : ℕ → ReconnectConfig f → ReconnectConfig f
  with_initial_delay delay c = record c { initial_delay = delay }

  abbrev pub with_max_delay : ℕ → ReconnectConfig f → ReconnectConfig f
  with_max_delay delay c = record c { max_delay = delay }

  abbrev pub with_backoff_multiplier : f.Float → ReconnectConfig f → ReconnectConfig f
  with_backoff_multiplier multiplier c = record c { backoff_multiplier = multiplier }

  abbrev pub backpressure_disabled : BackpressureConfig f
  backpressure_disabled = record (default_backpressure f) { enabled = false }

  abbrev pub with_max_buffer_size : ℕ → BackpressureConfig f → BackpressureConfig f
  with_max_buffer_size size c = record c { max_buffer_size = size }

  -- `(0.0..=1.0).contains(&threshold)`
  abbrev pub is_share : f.Float → Bool
  is_share x = f.le (f.of_ℕ 0) x && f.le x (f.of_ℕ 1)

  -- A failed `assert!` panics: `none`.
  abbrev pub with_backpressure_threshold :
      f.Float → BackpressureConfig f → Option (BackpressureConfig f)
  with_backpressure_threshold x c =
      if is_share x then some (record c { backpressure_threshold = x }) else none

  abbrev pub with_recovery_threshold :
      f.Float → BackpressureConfig f → Option (BackpressureConfig f)
  with_recovery_threshold x c =
      if is_share x then some (record c { recovery_threshold = x }) else none

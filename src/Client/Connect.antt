-- ===== src/Client/Connect.antt =====
-- src/client.rs: connecting by a URL, receiving, and the start of the heartbeat.
use ws_fabric.Prelude.{ℕ, Bool, Option, none, Text, if◌then◌else◌}
use ws_fabric.Error.{Result, ok}
use ws_fabric.Float.{F64}
use ws_fabric.Channel.{Mpsc}
use ws_fabric.Message.{Message}
use ws_fabric.Heartbeat.Queries.{is_enabled}
use ws_fabric.Config.{new as new_config}
use ws_fabric.Client.{Client, connect_with_config, beat}

-- `recv` sleeps, and has nothing.
unfoldable pub recv : Result (Option Message)
recv = ok none

module _ (f : F64) (q : Mpsc Message) where
  unfoldable pub connect : ℕ → Bool → Text → Result (Client f q)
  unfolding connect_with_config
  connect now reached url = connect_with_config f q now reached (new_config f url)

  -- A turn of `run_heartbeat`, which ends at once if it is disabled.
  unfoldable pub run_heartbeat : ℕ → Client f q → Option (Bool × Client f q)
  unfolding beat
  run_heartbeat now c =
      if is_enabled c.heartbeat then beat f q now c else Option.some (Bool.false, c)

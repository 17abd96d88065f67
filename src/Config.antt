-- ===== src/Config.antt =====
-- src/config.rs: `ClientConfig` and its builder methods, with the defaults of src/lib.rs. Durations
-- are nanoseconds.
pub mod Client
pub mod Server
pub mod Builders
use ws_fabric.Prelude.{ℕ, ◌*◌, Bool, true, false, List, [], ◌∷◌, Text}
use ws_fabric.Error.{Result, ok, err}
use ws_fabric.Float.{F64}
use ws_fabric.Text.{Unicode}
use ws_fabric.Subprotocol.{SubprotocolList, empty_list, from_slice}
use ws_fabric.Headers.{HeaderMap, insert, extend}
use ws_fabric.RateLimit.{RateLimitConfig, default as default_rate_limit}
use ws_fabric.Compression.{CompressionConfig, default as default_compression}
use ws_fabric.Heartbeat.{HeartbeatConfig}
use ws_fabric.Reconnect.{ReconnectConfig, default as default_reconnect}
use ws_fabric.Backpressure.{BackpressureConfig}

abbrev pub second : ℕ
second = 1000000000

abbrev pub default_max_message_size : ℕ
default_max_message_size = 10 * 1024 * 1024

abbrev pub default_connection_timeout : ℕ
default_connection_timeout = 5

abbrev pub default_heartbeat : HeartbeatConfig
default_heartbeat = record {
  enabled = true;
  ping_interval = 30 * second;
  ping_timeout = 10 * second;
}

abbrev pub authorization : Text
authorization =
    b'A' ∷ b'u' ∷ b't' ∷ b'h' ∷ b'o' ∷ b'r' ∷ b'i' ∷ b'z' ∷ b'a' ∷ b't' ∷ b'i' ∷ b'o' ∷ b'n' ∷ []

abbrev pub user_agent : Text
user_agent = b'U' ∷ b's' ∷ b'e' ∷ b'r' ∷ b'-' ∷ b'A' ∷ b'g' ∷ b'e' ∷ b'n' ∷ b't' ∷ []

abbrev pub origin : Text
origin = b'O' ∷ b'r' ∷ b'i' ∷ b'g' ∷ b'i' ∷ b'n' ∷ []

abbrev pub cookie : Text
cookie = b'C' ∷ b'o' ∷ b'o' ∷ b'k' ∷ b'i' ∷ b'e' ∷ []

abbrev pub api_key : Text
api_key = b'X' ∷ b'-' ∷ b'A' ∷ b'P' ∷ b'I' ∷ b'-' ∷ b'K' ∷ b'e' ∷ b'y' ∷ []

module _ (f : F64) where
  abbrev pub default_backpressure : BackpressureConfig f
  default_backpressure = record {
    enabled = true;
    max_buffer_size = 1000;
    backpressure_threshold = f.div (f.of_ℕ 4) (f.of_ℕ 5);
    recovery_threshold = f.div (f.of_ℕ 3) (f.of_ℕ 5);
  }

  pub record ClientConfig : Type 0 where
    pub url : Text
    pub max_message_size : ℕ
    pub auto_reconnect : Bool
    pub reconnect_config : ReconnectConfig f
    pub heartbeat_config : HeartbeatConfig
    pub backpressure_config : BackpressureConfig f
    pub compression_config : CompressionConfig
    pub rate_limit_config : RateLimitConfig
    pub connection_timeout : ℕ
    pub subprotocols : SubprotocolList
    pub headers : HeaderMap

  abbrev pub new : Text → ClientConfig
  new url = record {
    url = url;
    max_message_size = default_max_message_size;
    auto_reconnect = true;
    reconnect_config = default_reconnect f;
    heartbeat_config = default_heartbeat;
    backpressure_config = default_backpressure;
    compression_config = default_compression;
    rate_limit_config = default_rate_limit;
    connection_timeout = default_connection_timeout * second;
    subprotocols = empty_list;
    headers = [];
  }

  abbrev pub with_max_message_size : ℕ → ClientConfig → ClientConfig
  with_max_message_size max_message_size c = record c { max_message_size = max_message_size }

  abbrev pub with_auto_reconnect : Bool → ClientConfig → ClientConfig
  with_auto_reconnect auto_reconnect c = record c { auto_reconnect = auto_reconnect }

  abbrev pub with_reconnect_config : ReconnectConfig f → ClientConfig → ClientConfig
  with_reconnect_config reconnect_config c = record c { reconnect_config = reconnect_config }

  abbrev pub with_heartbeat_config : HeartbeatConfig → ClientConfig → ClientConfig
  with_heartbeat_config heartbeat_config c = record c { heartbeat_config = heartbeat_config }

  abbrev pub with_backpressure_config : BackpressureConfig f → ClientConfig → ClientConfig
  with_backpressure_config backpressure_config c = record c {
    backpressure_config = backpressure_config;
  }

  abbrev pub with_compression_config : CompressionConfig → ClientConfig → ClientConfig
  with_compression_config compression_config c = record c {
    compression_config = compression_config;
  }

  abbrev pub with_rate_limit_config : RateLimitConfig → ClientConfig → ClientConfig
  with_rate_limit_config rate_limit_config c = record c { rate_limit_config = rate_limit_config }

  abbrev pub with_connection_timeout : ℕ → ClientConfig → ClientConfig
  with_connection_timeout connection_timeout c = record c {
    connection_timeout = connection_timeout;
  }

  -- `unwrap_or_else`: a slice with an invalid name gives the empty list.
  abbrev pub list_or_empty : Result SubprotocolList → SubprotocolList
  list_or_empty (ok l) = l
  list_or_empty (err e) = empty_list

  -- The builders that validate.
  module _ (u : Unicode) where
    abbrev pub with_subprotocols : List Text → ClientConfig → ClientConfig
    with_subprotocols protocols c = record c {
      subprotocols = list_or_empty (from_slice u protocols);
    }

    -- The error of an invalid header is dropped.
    abbrev pub with_header : Text → Text → ClientConfig → ClientConfig
    with_header name value c = record c { headers = (insert u name value c.headers).1 }

    abbrev pub with_authorization : Text → ClientConfig → ClientConfig
    with_authorization value c = with_header authorization value c

    abbrev pub with_user_agent : Text → ClientConfig → ClientConfig
    with_user_agent value c = with_header user_agent value c

    abbrev pub with_origin : Text → ClientConfig → ClientConfig
    with_origin value c = with_header origin value c

    abbrev pub with_cookie : Text → ClientConfig → ClientConfig
    with_cookie value c = with_header cookie value c

    abbrev pub with_api_key : Text → ClientConfig → ClientConfig
    with_api_key value c = with_header api_key value c

  abbrev pub with_headers : HeaderMap → ClientConfig → ClientConfig
  with_headers headers c = record c { headers = extend c.headers headers }

-- ===== src/Config/Server.antt =====
-- src/config.rs: `ServerConfig` and its builder methods, with the defaults of src/lib.rs.
use ws_fabric.Prelude.{ℕ, ◌*◌, List, [], ◌∷◌, ◌++◌, Text}
use ws_fabric.Text.{Unicode}
use ws_fabric.Headers.{HeaderMap, insert, extend}
use ws_fabric.RateLimit.{RateLimitConfig, default as default_rate_limit}
use ws_fabric.Compression.{CompressionConfig, default as default_compression}
use ws_fabric.Config.{second, default_max_message_size}

pub record ServerConfig : Type 0 where
  pub bind_address : Text
  pub max_connections : ℕ
  pub max_message_size : ℕ
  pub ping_interval : ℕ
  pub ping_timeout : ℕ
  pub buffer_size : ℕ
  pub compression_config : CompressionConfig
  pub rate_limit_config : RateLimitConfig
  pub subprotocols : List Text
  pub headers : HeaderMap
  pub required_headers : List Text

abbrev pub default_ping_interval : ℕ
default_ping_interval = 30

abbrev pub default_ping_timeout : ℕ
default_ping_timeout = 10

abbrev pub default_buffer_size : ℕ
default_buffer_size = 1000

abbrev pub new : Text → ServerConfig
new bind_address = record {
  bind_address = bind_address;
  max_connections = 10000;
  max_message_size = default_max_message_size;
  ping_interval = default_ping_interval * second;
  ping_timeout = default_ping_timeout * second;
  buffer_size = default_buffer_size;
  compression_config = default_compression;
  rate_limit_config = default_rate_limit;
  subprotocols = [];
  headers = [];
  required_headers = [];
}

abbrev pub with_max_connections : ℕ → ServerConfig → ServerConfig
with_max_connections n c = record c { max_connections = n }

abbrev pub with_max_message_size : ℕ → ServerConfig → ServerConfig
with_max_message_size size c = record c { max_message_size = size }

abbrev pub with_ping_interval : ℕ → ServerConfig → ServerConfig
with_ping_interval interval c = record c { ping_interval = interval }

abbrev pub with_ping_timeout : ℕ → ServerConfig → ServerConfig
with_ping_timeout timeout c = record c { ping_timeout = timeout }

abbrev pub with_buffer_size : ℕ → ServerConfig → ServerConfig
with_buffer_size size c = record c { buffer_size = size }

abbrev pub with_compression_config : CompressionConfig → ServerConfig → ServerConfig
with_compression_config compression c = record c { compression_config = compression }

abbrev pub with_rate_limit_config : RateLimitConfig → ServerConfig → ServerConfig
with_rate_limit_config limits c = record c { rate_limit_config = limits }

-- The names are not validated.
abbrev pub with_subprotocols : List Text → ServerConfig → ServerConfig
with_subprotocols protocols c = record c { subprotocols = protocols }

-- The error of an invalid header is dropped.
abbrev pub with_header : Unicode → Text → Text → ServerConfig → ServerConfig
with_header u name value c = record c { headers = (insert u name value c.headers).1 }

abbrev pub with_headers : HeaderMap → ServerConfig → ServerConfig
with_headers headers c = record c { headers = extend c.headers headers }

abbrev pub with_required_header : Text → ServerConfig → ServerConfig
with_required_header name c = record c { required_headers = c.required_headers ++ (name ∷ []) }

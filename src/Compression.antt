-- ===== src/Compression.antt =====
-- src/compression.rs: the configuration and its builders, and the test for compressing.
pub mod Limits
pub mod Codec
pub mod Handshake
mod Tests
use ws_fabric.Prelude.{
  ℕ, ◌≤◌, Bool, true, false, ◌&&◌, not, List, [], ◌∷◌, length, Option, none, some, leb,
  if◌then◌else◌, Text,
}
use ws_fabric.Message.{Bytes}

abbrev pub default_compression_threshold : ℕ
default_compression_threshold = 1024

abbrev pub default_compression_level : ℕ
default_compression_level = 6

abbrev pub max_compression_level : ℕ
max_compression_level = 9

pub record CompressionConfig : Type 0 where
  pub enabled : Bool
  pub level : ℕ
  pub threshold : ℕ
  pub server_max_window_bits : ℕ
  pub client_max_window_bits : ℕ
  pub server_no_context_takeover : Bool
  pub client_no_context_takeover : Bool

abbrev pub default : CompressionConfig
default = record {
  enabled = true;
  level = default_compression_level;
  threshold = default_compression_threshold;
  server_max_window_bits = 15;
  client_max_window_bits = 15;
  server_no_context_takeover = false;
  client_no_context_takeover = false;
}

abbrev pub disabled : CompressionConfig
disabled = record default { enabled = false }

-- `(8..=15).contains(&bits)`
abbrev pub is_window : ℕ → Bool
is_window bits = leb 8 bits && leb bits 15

-- A failed `assert!` panics: `none`.
abbrev pub with_level : ℕ → CompressionConfig → Option CompressionConfig
with_level level c =
    if leb level max_compression_level then some (record c { level = level }) else none

abbrev pub with_threshold : ℕ → CompressionConfig → CompressionConfig
with_threshold threshold c = record c { threshold = threshold }

abbrev pub with_server_max_window_bits : ℕ → CompressionConfig → Option CompressionConfig
with_server_max_window_bits bits c =
    if is_window bits then some (record c { server_max_window_bits = bits }) else none

abbrev pub with_client_max_window_bits : ℕ → CompressionConfig → Option CompressionConfig
with_client_max_window_bits bits c =
    if is_window bits then some (record c { client_max_window_bits = bits }) else none

abbrev pub with_server_no_context_takeover : Bool → CompressionConfig → CompressionConfig
with_server_no_context_takeover enabled c = record c { server_no_context_takeover = enabled }

abbrev pub with_client_no_context_takeover : Bool → CompressionConfig → CompressionConfig
with_client_no_context_takeover enabled c = record c { client_no_context_takeover = enabled }

abbrev pub should_compress : CompressionConfig → Bytes → Bool
should_compress c message = c.enabled && leb c.threshold (length message)

-- ===== src/Compression/Limits.antt =====
-- src/compression.rs: a configuration has a level that deflate knows, and windows of 8 to 15 bits.
use ws_fabric.Prelude.{
  ℕ, ◌≤◌, ◌≡◌, refl, Bool, List, [], ◌∷◌, Option, none, some, arith, inl, inr, leb, Bool-cases,
  Text, text_of,
}
use ws_fabric.Error.{ok}
use ws_fabric.Text.{Unicode}
use ws_fabric.Text.Decimal.{parse}
use ws_fabric.Compression.{
  CompressionConfig, default, disabled, is_window, with_level, with_threshold,
  with_server_max_window_bits, with_client_max_window_bits, with_server_no_context_takeover,
  with_client_no_context_takeover,
}
use ws_fabric.Text.{contains}
use ws_fabric.Compression.Handshake.{
  Regex, parsed_or, server_bits_key, client_bits_key, window_or, answered, parse_lower,
  parse_compression_response,
}

pub record IsValid (c : CompressionConfig) : Type 0 where
  pub level : c.level ≤ 9
  pub server : (8 ≤ c.server_max_window_bits) × (c.server_max_window_bits ≤ 15)
  pub client : (8 ≤ c.client_max_window_bits) × (c.client_max_window_bits ≤ 15)

-- A call of a builder method.
pub data Builder : Type 0 where
  level threshold server_bits client_bits : ℕ → Builder
  server_takeover client_takeover : Bool → Builder

abbrev pub apply : Builder → CompressionConfig → Option CompressionConfig
apply (Builder.level n) c = with_level n c
apply (Builder.threshold n) c = some (with_threshold n c)
apply (Builder.server_bits n) c = with_server_max_window_bits n c
apply (Builder.client_bits n) c = with_client_max_window_bits n c
apply (Builder.server_takeover b) c = some (with_server_no_context_takeover b c)
apply (Builder.client_takeover b) c = some (with_client_no_context_takeover b c)

-- Calls in a row, from a configuration or from a panic.
abbrev pub build : List Builder → Option CompressionConfig → Option CompressionConfig
build bs none = none
build [] (some c) = some c
build (b ∷ bs) (some c) = build bs (apply b c)

abbrev pub BuiltIsValid : Option CompressionConfig → Type 0
BuiltIsValid none = Unit
BuiltIsValid (some c) = IsValid c

default-IsValid : IsValid default
default-IsValid = record {
  level = omega arith;
  server = (omega arith, omega arith);
  client = (omega arith, omega arith);
}

apply-IsValid : (b : Builder) (c : CompressionConfig) → IsValid c → BuiltIsValid (apply b c)
apply-IsValid (Builder.level n) c v = elim (Bool-cases (leb n 9)) [
  | inl e ↦ rw e (record { level = ground arith; server = v.server; client = v.client })
  | inr e ↦ rw e tt
]
apply-IsValid (Builder.threshold n) c v = record {
  level = v.level;
  server = v.server;
  client = v.client;
}
apply-IsValid (Builder.server_bits n) c v = elim (Bool-cases (is_window n)) [
  | inl e ↦
      rw e (record { level = v.level; server = (ground arith, ground arith); client = v.client })
  | inr e ↦ rw e tt
]
apply-IsValid (Builder.client_bits n) c v = elim (Bool-cases (is_window n)) [
  | inl e ↦
      rw e (record { level = v.level; server = v.server; client = (ground arith, ground arith) })
  | inr e ↦ rw e tt
]
apply-IsValid (Builder.server_takeover b) c v = record {
  level = v.level;
  server = v.server;
  client = v.client;
}
apply-IsValid (Builder.client_takeover b) c v = record {
  level = v.level;
  server = v.server;
  client = v.client;
}

build-IsValid :
    (bs : List Builder) (o : Option CompressionConfig) → BuiltIsValid o → BuiltIsValid (build bs o)
build-IsValid bs none v = tt
build-IsValid [] (some c) v = v
build-IsValid (b ∷ bs) (some c) v = build-IsValid bs (apply b c) (apply-IsValid b c v)

-- However a configuration is built from the default, either some call panics, or its level is at
-- most 9 and both of its windows have 8 to 15 bits.
pub build-default : (bs : List Builder) → BuiltIsValid (build bs (some default))
build-default bs = build-IsValid bs (some default) default-IsValid

parsed_or-window :
    (old : ℕ) (o : Option ℕ)
    → (8 ≤ old) × (old ≤ 15)
    → (8 ≤ parsed_or old o) × (parsed_or old o ≤ 15)
parsed_or-window old none w = w
parsed_or-window old (some bits) w = elim (Bool-cases (is_window bits)) [
  | inl e ↦ rw e (ground arith, ground arith)
  | inr e ↦ rw e w
]

window_or-window :
    (old : ℕ) (o : Option Text)
    → (8 ≤ old) × (old ≤ 15)
    → (8 ≤ window_or old o) × (window_or old o ≤ 15)
window_or-window old none w = w
window_or-window old (some digits) w = parsed_or-window old (parse 255 digits) w

module _ (u : Unicode) (r : Regex) where
  parse_lower-IsValid :
      (header : Text) → (c : CompressionConfig) × (parse_lower u r header ≡ ok c) × IsValid c
  parse_lower-IsValid header = elim (Bool-cases (contains header (text_of "permessage-deflate"))) [
    | inl e ↦ (
      answered u r header,
      rw e refl,
      record {
        level = default-IsValid.level;
        server = window_or-window 15 (r.captured header server_bits_key) default-IsValid.server;
        client = window_or-window 15 (r.captured header client_bits_key) default-IsValid.client;
      },
    )
    | inr e ↦ (
      disabled,
      rw e refl,
      record {
        level = default-IsValid.level;
        server = default-IsValid.server;
        client = default-IsValid.client;
      },
    )
  ]

  -- Whatever the server answers, and whatever its numbers are, the configuration that is read from
  -- it has a known level and windows of 8 to 15 bits; reading never fails.
  pub parse_compression_response-IsValid :
      (header : Text)
      → (c : CompressionConfig) × (parse_compression_response u r header ≡ ok c) × IsValid c
  parse_compression_response-IsValid header = parse_lower-IsValid (u.to_lowercase header)

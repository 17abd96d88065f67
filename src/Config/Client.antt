-- ===== src/Config/Client.antt =====
-- src/config.rs: what a client's configuration holds, however it was built.
use ws_fabric.Prelude.{ℕ, Bool, List, [], ◌∷◌, Text, inl, inr}
use ws_fabric.Float.{F64}
use ws_fabric.Text.{Unicode}
use ws_fabric.Subprotocol.{from_slice}
use ws_fabric.Subprotocol.Validation.{AreNames, from_slice_cases}
use ws_fabric.Headers.{from_iter}
use ws_fabric.Headers.Values.{IsClean, insert-IsClean, insert_each-IsClean, extend-IsClean}
use ws_fabric.RateLimit.{RateLimitConfig}
use ws_fabric.Compression.{CompressionConfig}
use ws_fabric.Heartbeat.{HeartbeatConfig}
use ws_fabric.Reconnect.{ReconnectConfig}
use ws_fabric.Backpressure.{BackpressureConfig}
use ws_fabric.Config.{
  authorization as authorization_name, user_agent as user_agent_name, origin as origin_name,
  cookie as cookie_name, api_key as api_key_name, list_or_empty, ClientConfig, new,
  with_max_message_size, with_auto_reconnect, with_reconnect_config, with_heartbeat_config,
  with_backpressure_config, with_compression_config, with_rate_limit_config,
  with_connection_timeout, with_subprotocols, with_header, with_authorization, with_user_agent,
  with_origin, with_cookie, with_api_key, with_headers,
}

module _ (f : F64) (u : Unicode) where
  -- A call of a builder method; the headers of `with_headers` are a map made from pairs of texts.
  pub data Builder : Type 0 where
    max_message_size : ℕ → Builder
    auto_reconnect : Bool → Builder
    reconnect : ReconnectConfig f → Builder
    heartbeat : HeartbeatConfig → Builder
    backpressure : BackpressureConfig f → Builder
    compression : CompressionConfig → Builder
    rate_limit : RateLimitConfig → Builder
    connection_timeout : ℕ → Builder
    authorization : Text → Builder
    user_agent : Text → Builder
    origin : Text → Builder
    cookie : Text → Builder
    api_key : Text → Builder
    subprotocols : List Text → Builder
    header : Text → Text → Builder
    headers : List (Text × Text) → Builder

  abbrev pub apply : Builder → ClientConfig f → ClientConfig f
  apply (Builder.max_message_size x) c = with_max_message_size f x c
  apply (Builder.auto_reconnect x) c = with_auto_reconnect f x c
  apply (Builder.reconnect x) c = with_reconnect_config f x c
  apply (Builder.heartbeat x) c = with_heartbeat_config f x c
  apply (Builder.backpressure x) c = with_backpressure_config f x c
  apply (Builder.compression x) c = with_compression_config f x c
  apply (Builder.rate_limit x) c = with_rate_limit_config f x c
  apply (Builder.connection_timeout x) c = with_connection_timeout f x c
  apply (Builder.authorization x) c = with_authorization f u x c
  apply (Builder.user_agent x) c = with_user_agent f u x c
  apply (Builder.origin x) c = with_origin f u x c
  apply (Builder.cookie x) c = with_cookie f u x c
  apply (Builder.api_key x) c = with_api_key f u x c
  apply (Builder.subprotocols ps) c = with_subprotocols f u ps c
  apply (Builder.header name value) c = with_header f u name value c
  apply (Builder.headers pairs) c = with_headers f (from_iter u pairs) c

  abbrev pub build : List Builder → ClientConfig f → ClientConfig f
  build [] c = c
  build (b ∷ bs) c = build bs (apply b c)

  pub record IsValid (c : ClientConfig f) : Type 0 where
    pub names : AreNames u c.subprotocols.protocols
    pub clean : IsClean c.headers

  list_or_empty-AreNames :
      (ps : List Text) → AreNames u (list_or_empty f (from_slice u ps)).protocols
  list_or_empty-AreNames ps = elim (from_slice_cases u ps) [
    | inl (names, e) ↦ rw e names
    | inr (bad, e) ↦ rw e tt
  ]

  with_header-IsValid :
      (name value : Text) (c : ClientConfig f) → IsValid c → IsValid (with_header f u name value c)
  with_header-IsValid name value c v = record {
    names = v.names;
    clean = insert-IsClean u name value c.headers v.clean;
  }

  apply-IsValid : (b : Builder) (c : ClientConfig f) → IsValid c → IsValid (apply b c)
  apply-IsValid (Builder.max_message_size x) c v = record { names = v.names; clean = v.clean }
  apply-IsValid (Builder.auto_reconnect x) c v = record { names = v.names; clean = v.clean }
  apply-IsValid (Builder.reconnect x) c v = record { names = v.names; clean = v.clean }
  apply-IsValid (Builder.heartbeat x) c v = record { names = v.names; clean = v.clean }
  apply-IsValid (Builder.backpressure x) c v = record { names = v.names; clean = v.clean }
  apply-IsValid (Builder.compression x) c v = record { names = v.names; clean = v.clean }
  apply-IsValid (Builder.rate_limit x) c v = record { names = v.names; clean = v.clean }
  apply-IsValid (Builder.connection_timeout x) c v = record { names = v.names; clean = v.clean }
  apply-IsValid (Builder.authorization x) c v = with_header-IsValid authorization_name x c v
  apply-IsValid (Builder.user_agent x) c v = with_header-IsValid user_agent_name x c v
  apply-IsValid (Builder.origin x) c v = with_header-IsValid origin_name x c v
  apply-IsValid (Builder.cookie x) c v = with_header-IsValid cookie_name x c v
  apply-IsValid (Builder.api_key x) c v = with_header-IsValid api_key_name x c v
  apply-IsValid (Builder.subprotocols ps) c v = record {
    names = list_or_empty-AreNames ps;
    clean = v.clean;
  }
  apply-IsValid (Builder.header name value) c v = with_header-IsValid name value c v
  apply-IsValid (Builder.headers pairs) c v = record {
    names = v.names;
    clean =
        extend-IsClean u c.headers (from_iter u pairs) v.clean (insert_each-IsClean u pairs [] tt);
  }

  build-IsValid : (bs : List Builder) (c : ClientConfig f) → IsValid c → IsValid (build bs c)
  build-IsValid [] c v = v
  build-IsValid (b ∷ bs) c v = build-IsValid bs (apply b c) (apply-IsValid b c v)

  -- Whatever texts a caller passes to the builder methods, a client's configuration holds only
  -- valid names of subprotocols and only printable header values.
  pub build-new : (bs : List Builder) (url : Text) → IsValid (build bs (new f url))
  build-new bs url = build-IsValid bs (new f url) (record { names = tt; clean = tt })

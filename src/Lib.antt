-- ===== src/Lib.antt =====
-- websocket-fabric: a WebSocket library for clients and servers, in Rust under src/. This library
-- models the client, the server and the parts that decide what is sent, accepted, limited and kept;
-- the sockets themselves are outside of it.
--
-- Parts and files:
--   Prelude          shared names, lists and options over the native numbers, machine words, and
--                    association lists for the maps (Prelude/Assoc)
--   Float, Text      parameters: IEEE doubles with the facts that the code relies on, and the
--                    Unicode tables. Float/Rationals and Text/Ascii are concrete ones, as test data.
--                    Text/Decimal prints and parses numbers
--   Error            src/error.rs: `Error`, `Result`
--   Message          src/message.rs: `Message`, `Frame`; Message/Utf8 is the check of `as_text`,
--                    Message/Display the printing of messages, Message/Json the use of serde_json
--   Channel          parameter: the channels of tokio; Channel/Fifo is a concrete one, as test data
--   Socket           what client and server do alike with a WebSocket: `Message` to tungstenite
--   Client           src/client.rs: `WebSocketClient`; Client/Steps has the turns of its tasks,
--                    Client/Pinging a ping on its way to the server and back,
--                    Client/Silent a server that sends nothing, the other files what is proved of them
--   Server           src/server.rs: `WebSocketServer`, `ConnectedClient`; Server/Handler is
--                    `handle_client_messages`, Server/Steps the turns of its tasks, the other files
--                    what is proved of them
--   Fragmentation    src/fragmentation.rs: `Fragmenter`; Fragmentation/Reassembler is `Reassembler`
--   Subprotocol      src/subprotocol.rs: `SubprotocolList`, `SubprotocolNegotiator`
--   RateLimit        src/ratelimit.rs: `RateLimiter`, with RateLimit/Bucket for `TokenBucket` and
--                    RateLimit/Global for `GlobalRateLimiter`
--   Pool             src/pool.rs: `ConnectionPool`, with Pool/Server for `ServerPool`, Pool/Waiting
--                    for the waiting loop, Pool/Handle for `PooledClient`, Pool/Health for the health
--                    checks, Pool/Drift for the count of connections created, and
--                    Pool/Dead for a pool with the clients of src/client.rs
--   Heartbeat        src/heartbeat.rs: `HeartbeatManager`
--   Metrics          src/metrics.rs: `MetricsCollector`
--   Headers          src/headers.rs: `HeaderName`, `HeaderValue`, `HeaderMap`; Headers/Known
--                    has the accessors of well-known names, Headers/Http the conversions
--   Reconnect        src/reconnect.rs: `ReconnectState`
--   Backpressure     src/backpressure.rs: `BackpressureController`
--   Compression      src/compression.rs: `CompressionConfig`, with Compression/Codec for `Compressor`
--                    and `Decompressor`, and Compression/Handshake for `compression_offer` and
--                    `parse_compression_response`
--   Config           src/config.rs: `ClientConfig`, with Config/Server for `ServerConfig` and
--                    Config/Builders for the builders of the other configurations
--
-- A client and a server keep a channel of messages for each connection; a task of the connection
-- takes them to the socket, and counts what it sends and receives in metrics and backpressure, which
-- the sender consults first. Each has one heartbeat manager. A pool keeps clients by URL. Fragments,
-- subprotocols, headers, compression and rate limits are libraries beside these: neither client nor
-- server calls them.
--
-- Correspondence. A struct is a record with its fields, and a method that changes `self` returns the
-- new record. A state behind a lock is changed by one caller at a time, so a method is one function;
-- where a method takes a lock several times, steps by atomics or waits (`add_connection`,
-- `get_with_config`, `run`), each part that does not wait is a function, and any tasks take their
-- turns in any order. A send to a full channel has not taken its turn: `none`. The clock is an
-- argument: nanoseconds, one reading for each time the code reads it, save that one call of
-- `ingest_frame` or one turn of a server's heartbeat uses one. Counters keep their width and wrap as in a release
-- build. A panic is `none`. A `HashMap` is an association list whose order stands for the order of
-- iteration. A text is a list of code points, or of UTF-8 bytes in a message.
--
-- Fuel. A number is printed with one round more than its value, and each round divides it by ten.
-- `chunks` cuts a list with its length as fuel, which is enough since a chunk has a byte at
-- least. The loop of `acquire` runs over the clock readings of its rounds, and `none` is the caller
-- still asleep; so does the waiting loop of the pool over its turns, and enough of them end it.
-- The loops of client and server tasks run over any list of turns.
--
-- Not modelled: sockets, the handshake and timers; the zlib, regex, http, JSON and channel libraries,
-- which are parameters; the sleep of the client's `recv`; the texts of errors, and what is logged; the
-- panic of `Duration::from_secs_f64` from 2 ^ 64 seconds on in `time_until_full`; and what another
-- thread sees between two locks with no wait between them: a client in the table of a server and its
-- count in the metrics change in one turn, and `ping` is one step.
pub mod Prelude
pub mod RateLimitType
pub mod Error
pub mod Message
pub mod Fragmentation
pub mod Float
pub mod RateLimit
pub mod Text
pub mod Subprotocol
pub mod Reconnect
pub mod Backpressure
pub mod Heartbeat
pub mod Metrics
pub mod Pool
pub mod Headers
pub mod Channel
pub mod Compression
pub mod Config
pub mod Socket
pub mod Client
pub mod Server

-- ===== src/Heartbeat.antt =====
-- src/heartbeat.rs, and `HeartbeatConfig` of src/config.rs: pings with a number, and the pongs
-- that must carry it back. The shared state has one owner at a time, the holder of its lock.
pub mod Words
pub mod Queries
use ws_fabric.Prelude.{
  ℕ, ◌+◌, ◌-◌, ◌^◌, ◌≤◌, ◌<◌, ◌≡◌, ◌≢◌, refl, ap, sym, suc, ◌∙◌, Bool, true, false, List, [], ◌∷◌,
  Option, none, some, arith, inl, inr, ◌==◌, ltb, length, All, if◌then◌else◌, add64, add8,
  Bool-cases, Option-cases,
}
use ws_fabric.Error.{Error, Result, ok, err}
use ws_fabric.Message.{Bytes, Message}
use ws_fabric.Message.Make.{ping as ping_message, pong as pong_message}
use ws_fabric.Heartbeat.Words.{
  to_be_bytes, from_be_bytes, length-to_be_bytes, from_be_bytes-to_be_bytes,
}

pub record HeartbeatConfig : Type 0 where
  pub enabled : Bool
  pub ping_interval : ℕ
  pub ping_timeout : ℕ

-- `HeartbeatState`, with the configuration of its manager.
pub record HeartbeatManager : Type 0 where
  pub config : HeartbeatConfig
  pub last_ping : Option ℕ
  pub last_pong : Option ℕ
  pub ping_count : ℕ
  pub pong_count : ℕ
  pub missed_pings : ℕ

unfoldable pub new : HeartbeatConfig → HeartbeatManager
new c = record {
  config = c;
  last_ping = none;
  last_pong = none;
  ping_count = 0;
  pong_count = 0;
  missed_pings = 0;
}

unfoldable pub ping : ℕ → HeartbeatManager → Message × HeartbeatManager
ping now h = (
  ping_message (to_be_bytes 8 h.ping_count),
  record h { last_ping = some now; ping_count = add64 h.ping_count 1 },
)

-- The number that a pong must carry.
abbrev pub expected_ping : HeartbeatManager → ℕ
expected_ping h = if ltb 0 h.ping_count then h.ping_count - 1 else 0

abbrev pub answers : HeartbeatManager → Bytes → Bool
answers h payload = if length payload == 8 then from_be_bytes payload == expected_ping h else false

unfoldable pub accept : ℕ → HeartbeatManager → HeartbeatManager
accept now h = record h {
  last_pong = some now;
  pong_count = add64 h.pong_count 1;
  missed_pings = 0;
}

-- `missed_pings` is a `u8` that wraps in a release build.
pub miss : HeartbeatManager → HeartbeatManager
miss h = record h { missed_pings = add8 h.missed_pings 1 }

unfoldable pub handle_pong : ℕ → Bytes → HeartbeatManager → Result (Unit {0}) × HeartbeatManager
unfolding accept miss
handle_pong now payload h =
    if answers h payload
    then (ok tt, accept now h)
    else (if ltb 3 (miss h).missed_pings then err Error.timeout else ok tt, miss h)

-- `elapsed() < self.config.ping_timeout`
abbrev pub recent : ℕ → ℕ → HeartbeatManager → Bool
recent now t h = ltb (now - t) h.config.ping_timeout

-- By the last pong, else by the last ping.
abbrev pub alive_since : ℕ → HeartbeatManager → Option ℕ → Option ℕ → Bool
alive_since now h (some t) last_ping = recent now t h
alive_since now h none (some t) = recent now t h
alive_since now h none none = true

unfoldable pub is_alive : ℕ → HeartbeatManager → Bool
is_alive now h = if h.config.enabled then alive_since now h h.last_pong h.last_ping else true

unfoldable pub reset : HeartbeatManager → HeartbeatManager
reset h = record h { last_ping = none; last_pong = none; missed_pings = 0 }

unfoldable pub handle_ping : Bytes → Message
handle_ping payload = pong_message payload

answers_own :
    (sent : ℕ) (h : HeartbeatManager)
    → h.ping_count + 1 < 2 ^ 64
    → answers (ping sent h).1 (to_be_bytes 8 h.ping_count) ≡ true
unfolding ping
answers_own sent h small =
    let same = from_be_bytes-to_be_bytes 8 h.ping_count (omega arith) in
    rw (length-to_be_bytes 8 h.ping_count, same) (ground arith)

pub handle_pong-answers :
    (now : ℕ) (payload : Bytes) (h : HeartbeatManager)
    → answers h payload ≡ true
    → handle_pong now payload h ≡ (ok tt, accept now h)
unfolding handle_pong
handle_pong-answers now payload h e = rw e

pub handle_pong-misses :
    (now : ℕ) (payload : Bytes) (h : HeartbeatManager)
    → answers h payload ≡ false
    → handle_pong now payload h
      ≡ ((if ltb 3 (miss h).missed_pings then err Error.timeout else ok tt), miss h)
unfolding handle_pong
handle_pong-misses now payload h e = rw e

accept-is_alive :
    (now : ℕ) (h : HeartbeatManager)
    → 0 < h.config.ping_timeout
    → is_alive now (accept now h) ≡ true
unfolding is_alive accept
accept-is_alive now h p = ground arith

-- The answer to a ping carries its payload; the manager that sent it last (and fewer than 2 ^ 64 - 1
-- before it) accepts it, forgets the missed pings, and is alive then, if its timeout is positive.
pub handle_pong-handle_ping :
    (sent now : ℕ) (h : HeartbeatManager)
    → h.ping_count + 1 < 2 ^ 64
    → 0 < h.config.ping_timeout
    → (handle_pong now (handle_ping (ping sent h).0.payload).payload (ping sent h).1
        ≡ (ok tt, accept now (ping sent h).1))
      × (is_alive now (accept now (ping sent h).1) ≡ true)
unfolding handle_ping ping_message pong_message ping
handle_pong-handle_ping sent now h small p = (
  handle_pong-answers now (to_be_bytes 8 h.ping_count) (ping sent h).1 (answers_own sent h small),
  accept-is_alive now (ping sent h).1 p,
)

-- Pongs one after another at some times: what the last of them gave.
pub handle_pongs :
    List (ℕ × Bytes) → Result (Unit {0}) × HeartbeatManager → Result (Unit {0}) × HeartbeatManager
handle_pongs [] (answer, h) = (answer, h)
handle_pongs ((now, payload) ∷ pongs) (answer, h) = handle_pongs pongs (handle_pong now payload h)

-- Pongs that do not answer the last ping.
abbrev pub AreStale : HeartbeatManager → List (ℕ × Bytes) → Type 0
AreStale h pongs = All (λ e. answers h e.1 ≡ false) pongs

-- The answer that goes with a number of missed pings.
abbrev pub verdict : ℕ → Result (Unit {0})
verdict missed = if ltb 3 missed then err Error.timeout else ok tt

-- What is left when so many pings have been missed since the last pong.
abbrev pub missed : ℕ → HeartbeatManager → Result (Unit {0}) × HeartbeatManager
missed n h = (verdict n, record h { missed_pings = n })

handle_pong-missed :
    (now n : ℕ) (payload : Bytes) (h : HeartbeatManager)
    → answers h payload ≡ false
    → n + 1 < 256
    → handle_pong now payload (missed n h).1 ≡ missed (n + 1) h
unfolding miss
handle_pong-missed now n payload h stale small =
    let wraps : add8 n 1 ≡ n + 1 = omega arith in
    handle_pong-misses now payload (missed n h).1 stale ∙ ap (λ k. missed k h) wraps

-- Pongs that do not answer the last ping are counted as missed pings and change nothing else, and
-- the last of them times out exactly if the count is then above 3, as long as it is below 256.
pub handle_pongs-missed :
    (pongs : List (ℕ × Bytes)) (n : ℕ) (h : HeartbeatManager)
    → AreStale h pongs
    → n + length pongs < 256
    → handle_pongs pongs (missed n h) ≡ missed (n + length pongs) h
unfolding handle_pongs
handle_pongs-missed [] n h a small = let none_more : n + 0 ≡ n = omega arith in rw none_more refl
handle_pongs-missed ((now, payload) ∷ pongs) n h a small =
    let count : n + suc (length pongs) ≡ n + 1 + length pongs = omega arith in
    ap (handle_pongs pongs) (handle_pong-missed now n payload h a.0 (omega arith))
    ∙ handle_pongs-missed pongs (n + 1) h a.1 (omega arith)
    ∙ ap (λ k. missed k h) (sym count)

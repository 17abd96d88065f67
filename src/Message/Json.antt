-- ===== src/Message/Json.antt =====
-- src/message.rs: `json` and `parse_json`. The crate serde_json is a parameter.
use ws_fabric.Prelude.{◌≡◌, refl, Option, none, some, if◌then◌else◌}
use ws_fabric.Error.{Error, Result, ok, err}
use ws_fabric.Message.{Bytes, Message, is_text}
use ws_fabric.Message.Make.{text}

-- `serde_json::to_string` and `from_slice` at one type, whose implementations of `Serialize` and
-- `Deserialize` fit each other.
pub record Serde {ℓ} (T : Type ℓ) : Type ℓ where
  pub to_string : T → Option Bytes
  pub from_slice : Bytes → Option T
  pub from_slice-to_string : (v : T) (s : Bytes) → to_string v ≡ some s → from_slice s ≡ some v

-- `map_err`
abbrev invalid_frame_or {ℓ κ} : {A : Type ℓ} {B : Type κ} → (A → B) → Option A → Result B
invalid_frame_or f none = err Error.invalid_frame
invalid_frame_or f (some a) = ok (f a)

module _ {ℓ} {T : Type ℓ} (serde : Serde T) where
  unfoldable pub json : T → Result Message
  json value = invalid_frame_or text (serde.to_string value)

  unfoldable pub parse_json : Message → Result T
  parse_json m =
      if is_text m
      then invalid_frame_or (λ v. v) (serde.from_slice m.payload)
      else err Error.invalid_frame

  json_some :
      (value : T) (o : Option Bytes) (m : Message)
      → serde.to_string value ≡ o
      → invalid_frame_or text o ≡ ok m
      → parse_json m ≡ ok value
  unfolding parse_json text
  json_some value none m e h = cc
  json_some value (some s) m e h =
      let parsed = serde.from_slice-to_string value s e in
      let made : text s ≡ m = cc h in rw (← made) (rw parsed refl)

  -- The message of a value that can be written as JSON parses to that value.
  pub parse_json-json : (value : T) (m : Message) → json value ≡ ok m → parse_json m ≡ ok value
  unfolding json
  parse_json-json value m h = json_some value (serde.to_string value) m refl h

-- ===== src/Fragmentation.antt =====
-- src/fragmentation.rs, `Fragmenter`.
pub mod Chunks
pub mod Frames
pub mod Reassembler
mod Tests
use ws_fabric.Prelude.{
  ℕ, zero, suc, ◌+◌, ◌-◌, ◌*◌, ◌/◌, ◌%◌, ◌<◌, Bool, List, [], ◌∷◌, Option, none, some, length, take,
  drop, leb, ltb, ◌==◌, if◌then◌else◌,
}
use ws_fabric.Message.{Bytes, Message, MessageType, Frame, len}
use ws_fabric.Message.Frames.{new as new_frame}

abbrev pub default_max_frame_size : ℕ
default_max_frame_size = 16 * 1024

abbrev pub opcode_continuation : ℕ
opcode_continuation = 0x0

abbrev pub opcode_text : ℕ
opcode_text = 0x1

abbrev pub opcode_binary : ℕ
opcode_binary = 0x2

abbrev pub opcode_close : ℕ
opcode_close = 0x8

abbrev pub opcode_ping : ℕ
opcode_ping = 0x9

abbrev pub opcode_pong : ℕ
opcode_pong = 0xA

pub record Fragmenter : Type 0 where
  pub max_frame_size : ℕ

-- `Fragmenter::new`; `none` is the panic of its `assert!`.
unfoldable pub new : ℕ → Option Fragmenter
new n = if leb 125 n then some (record { max_frame_size = n }) else none

-- `usize::div_ceil`
abbrev pub div_ceil : ℕ → ℕ → ℕ
div_ceil a b = if ltb 0 (a % b) then a / b + 1 else a / b

-- `slice::chunks`, on fuel: a chunk is at least one byte, so the length is enough.
pub chunks_fuel : ℕ → ℕ → Bytes → List Bytes
chunks_fuel zero n xs = []
chunks_fuel (suc fuel) n [] = []
chunks_fuel (suc fuel) n (x ∷ xs) = take n (x ∷ xs) ∷ chunks_fuel fuel n (drop n (x ∷ xs))

unfoldable pub chunks : ℕ → Bytes → List Bytes
unfolding chunks_fuel
chunks n xs = chunks_fuel (length xs) n xs

-- The opcode of a message that fits one frame.
abbrev pub whole_opcode : MessageType → ℕ
whole_opcode MessageType.text = opcode_text
whole_opcode MessageType.binary = opcode_binary
whole_opcode MessageType.ping = opcode_ping
whole_opcode MessageType.pong = opcode_pong
whole_opcode MessageType.close = opcode_close
whole_opcode MessageType.continuation = opcode_continuation

-- The opcode of the first of several frames: what is not text goes out as binary.
abbrev pub first_opcode : MessageType → ℕ
first_opcode MessageType.text = opcode_text
first_opcode _ = opcode_binary

-- The loop of `split_message`, from chunk `i` of `count`.
pub frames_from : MessageType → ℕ → ℕ → List Bytes → List Frame
frames_from ty count i [] = []
frames_from ty count i (c ∷ cs) =
    new_frame (i == count - 1) (if i == 0 then first_opcode ty else opcode_continuation) c
    ∷ frames_from ty count (i + 1) cs

unfoldable pub split_message : Fragmenter → Message → List Frame
split_message f m =
    if leb (len m) f.max_frame_size
    then new_frame Bool.true (whole_opcode m.msg_type) m.payload ∷ []
    else frames_from m.msg_type (div_ceil (len m) f.max_frame_size) 0
        (chunks f.max_frame_size m.payload)

unfoldable pub calculate_frame_count : Fragmenter → ℕ → ℕ
calculate_frame_count f size =
    if leb size f.max_frame_size then 1 else div_ceil size f.max_frame_size

unfoldable pub needs_fragmentation : Fragmenter → Message → Bool
needs_fragmentation f m = ltb f.max_frame_size (len m)

-- `Default for Fragmenter`
unfoldable pub default : Option Fragmenter
unfolding new
default = new default_max_frame_size

abbrev pub max_frame_size : Fragmenter → ℕ
max_frame_size f = f.max_frame_size

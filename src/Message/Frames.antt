-- ===== src/Message/Frames.antt =====
-- src/message.rs, `impl Frame`.
use ws_fabric.Prelude.{ℕ, Bool, false, length, ◌==◌}
use ws_fabric.Message.{Bytes, Frame}

abbrev pub new : Bool → ℕ → Bytes → Frame
new fin opcode payload = record {
  fin = fin;
  rsv1 = false;
  rsv2 = false;
  rsv3 = false;
  opcode = opcode;
  payload = payload;
}

abbrev pub with_compression : Frame → Bool → Frame
with_compression f compressed = record f { rsv1 = compressed }

abbrev pub len : Frame → ℕ
len f = length f.payload

abbrev pub is_compressed : Frame → Bool
is_compressed f = f.rsv1

abbrev pub is_empty : Frame → Bool
is_empty f = len f == 0

abbrev pub is_final : Frame → Bool
is_final f = f.fin

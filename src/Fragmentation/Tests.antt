-- ===== src/Fragmentation/Tests.antt =====
-- src/fragmentation.rs: messages of 300 bytes, split at 125.
use ws_fabric.Prelude.{◌≡◌, refl, some, replicate}
use ws_fabric.Message.{Message, MessageType}
use ws_fabric.Fragmentation.{Fragmenter, new}

abbrev pub long_message : Message
long_message = record { msg_type = MessageType.text; payload = replicate 300 7 }

abbrev pub small_frames : Fragmenter
small_frames = record { max_frame_size = 125 }

pub made : new 125 ≡ some small_frames
unfolding new
made = refl

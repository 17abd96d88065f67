-- ===== src/Fragmentation/Frames.antt =====
-- The frames that `split_message` makes of a message.
use ws_fabric.Prelude.{
  ℕ, suc, ◌+◌, ◌≤◌, ◌<◌, ◌≡◌, refl, ap, ◌∙◌, true, false, List, [], ◌∷◌, some, map, arith, length,
  concat, All, leb, append-nil, Bool-cases, inl, inr, leb→le, lt→leb,
}
use ws_fabric.Message.{Bytes, Message, MessageType, Frame, len}
use ws_fabric.Fragmentation.{
  Fragmenter, new, chunks, frames_from, split_message, calculate_frame_count, first_opcode,
  opcode_continuation, div_ceil,
}
use ws_fabric.Fragmentation.Chunks.{
  Fits, concat-chunks, chunks-Fits, length-chunks, length-chunks-gt-one,
}

-- What a sequence of frames carries.
abbrev pub payloads : List Frame → Bytes
payloads fs = concat (map (λ f. f.payload) fs)

-- Continuation frames of which the last, and no other, is final.
abbrev pub IsContinued : List Frame → Type 0
IsContinued [] = ⊥
IsContinued (f ∷ []) = (f.opcode ≡ opcode_continuation) × (f.fin ≡ true)
IsContinued (f ∷ g ∷ fs) = (f.opcode ≡ opcode_continuation) × (f.fin ≡ false) × IsContinued (g ∷ fs)

-- A first frame with the opcode, not final, and its continuation.
abbrev pub IsFragmented : ℕ → List Frame → Type 0
IsFragmented op [] = ⊥
IsFragmented op (f ∷ fs) = (f.opcode ≡ op) × (f.fin ≡ false) × IsContinued fs

payloads-frames_from :
    (ty : MessageType) (count i : ℕ) (cs : List Bytes)
    → payloads (frames_from ty count i cs) ≡ concat cs
unfolding frames_from
payloads-frames_from ty count i [] = refl
payloads-frames_from ty count i (c ∷ cs) = rw (payloads-frames_from ty count (i + 1) cs)

length-frames_from :
    (ty : MessageType) (count i : ℕ) (cs : List Bytes)
    → length (frames_from ty count i cs) ≡ length cs
unfolding frames_from
length-frames_from ty count i [] = refl
length-frames_from ty count i (c ∷ cs) = ap suc (length-frames_from ty count (i + 1) cs)

frames_from-Fits :
    (ty : MessageType) (count i n : ℕ) (cs : List Bytes)
    → All (Fits n) cs
    → All (λ f. length f.payload ≤ n) (frames_from ty count i cs)
unfolding frames_from
frames_from-Fits ty count i n [] h = tt
frames_from-Fits ty count i n (c ∷ cs) h = (h.0.1, frames_from-Fits ty count (i + 1) n cs h.1)

frames_from-IsContinued :
    (ty : MessageType) (count i : ℕ) (cs : List Bytes)
    → 0 < i
    → 0 < length cs
    → i + length cs ≡ count
    → IsContinued (frames_from ty count i cs)
unfolding frames_from
frames_from-IsContinued ty count i [] p q e = absurd (omega arith)
frames_from-IsContinued ty count i (c ∷ []) p q e = ground arith
frames_from-IsContinued ty count i (c ∷ d ∷ cs) p q e = (
  ground arith,
  ground arith,
  frames_from-IsContinued ty count (i + 1) (d ∷ cs) (omega arith) (omega arith) (omega arith),
)

frames_from-IsFragmented :
    (ty : MessageType) (count : ℕ) (cs : List Bytes)
    → 1 < length cs
    → length cs ≡ count
    → IsFragmented (first_opcode ty) (frames_from ty count 0 cs)
unfolding frames_from
frames_from-IsFragmented ty count [] p e = absurd (omega arith)
frames_from-IsFragmented ty count (c ∷ cs) p e = (
  refl,
  ground arith,
  frames_from-IsContinued ty count (0 + 1) cs (omega arith) (omega arith) (omega arith),
)

new-pos : (n : ℕ) {f : Fragmenter} → new n ≡ some f → 0 < f.max_frame_size
unfolding new
new-pos n e = ground arith

-- A fragmenter that `new` made splits a message into frames that carry its payload in order, none
-- longer than the maximum frame size, and as many as `calculate_frame_count` says.
pub split_message_lossless :
    (n : ℕ) (f : Fragmenter) (m : Message)
    → new n ≡ some f
    → (payloads (split_message f m) ≡ m.payload)
      × All (λ fr. length fr.payload ≤ f.max_frame_size) (split_message f m)
      × (length (split_message f m) ≡ calculate_frame_count f (len m))
unfolding split_message calculate_frame_count
split_message_lossless n f m e = elim (Bool-cases (leb (len m) f.max_frame_size)) [
  | inl small ↦ rw small (append-nil m.payload, (leb→le (len m) f.max_frame_size small, tt), refl)
  | inr large ↦
      let p : 0 < f.max_frame_size = new-pos n e in
      let cs : List Bytes = chunks f.max_frame_size m.payload in
      let count : ℕ = div_ceil (len m) f.max_frame_size in
      rw large (
        payloads-frames_from m.msg_type count 0 cs ∙ concat-chunks f.max_frame_size m.payload p,
        frames_from-Fits m.msg_type count 0 f.max_frame_size cs
            (chunks-Fits f.max_frame_size m.payload p),
        length-frames_from m.msg_type count 0 cs
            ∙ length-chunks f.max_frame_size m.payload p (ground arith),
      )
]

-- A message longer than the maximum frame size goes out as a first frame with the opcode of its
-- type (binary for all types but text) that is not final, then continuation frames of which the
-- last and no other is final.
pub split_message-IsFragmented :
    (n : ℕ) (f : Fragmenter) (m : Message)
    → new n ≡ some f
    → f.max_frame_size < len m
    → IsFragmented (first_opcode m.msg_type) (split_message f m)
unfolding split_message
split_message-IsFragmented n f m e h =
    let p : 0 < f.max_frame_size = new-pos n e in
    let cs : List Bytes = chunks f.max_frame_size m.payload in
    rw (lt→leb (len m) f.max_frame_size h) (
      frames_from-IsFragmented m.msg_type (div_ceil (len m) f.max_frame_size) cs
        (length-chunks-gt-one f.max_frame_size m.payload p h)
        (length-chunks f.max_frame_size m.payload p (omega arith)))

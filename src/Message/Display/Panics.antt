-- ===== src/Message/Display/Panics.antt =====
-- src/message.rs: where `Display` of a message panics.
use mathlib.Core.Option
use ws_fabric.Prelude.{
  ℕ, ◌<◌, ◌≡◌, refl, ap, ◌∙◌, sym, ◌↔◌, inl, inr, true, false, List, [], ◌∷◌, ◌++◌, Option, none,
  some, arith, All, length, length-append, append_assoc, text_of, ltb, Bool-cases,
}
use ws_fabric.Message.{Bytes}
use ws_fabric.Message.Make.{text, as_text}
use ws_fabric.Message.Utf8.{is_utf8}
use ws_fabric.Message.Utf8.Encoding.{encode_char, encode, IsScalar, is_utf8-encode}
use ws_fabric.Message.Display.{is_char_boundary, slice_to, preview, display}
use ws_fabric.Message.Display.Boundary.{Straddles, is_char_boundary-false_iff}

encode-append : (cs ds : List ℕ) → encode (cs ++ ds) ≡ encode cs ++ encode ds
unfolding encode
encode-append [] ds = refl
encode-append (c ∷ cs) ds =
    ap (λ t. encode_char c ++ t) (encode-append cs ds)
    ∙ sym (append_assoc (encode_char c) (encode cs) (encode ds))

Straddles-below : (n : ℕ) (cs : List ℕ) → Straddles n cs → n < length (encode cs)
unfolding encode
Straddles-below n cs (ds, c, es, split, before, after) =
    let whole : length (encode cs) ≡ length (encode ds ++ (encode_char c ++ encode es)) =
      ap (λ t. length (encode t)) split ∙ ap length (encode-append ds (c ∷ es)) in
    omega (
      arith,
      whole,
      length-append (encode ds) (encode_char c ++ encode es),
      length-append (encode_char c) (encode es),
      after,
    )

map-none_iff {ℓ κ} :
    {A : Type ℓ} {B : Type κ} (f : A → B) (o : Option A) → (Option.map f o ≡ none) ↔ (o ≡ none)
map-none_iff f none = ((λ e. refl), (λ e. refl))
map-none_iff f (some a) = ((λ e. cc), (λ e. cc))

slice_to-none_iff : (n : ℕ) (s : Bytes) → (slice_to n s ≡ none) ↔ (is_char_boundary n s ≡ false)
slice_to-none_iff n s = elim (Bool-cases (is_char_boundary n s)) [
  | inl b ↦ rw b ((λ e. cc), (λ e. cc))
  | inr b ↦ rw b ((λ e. refl), (λ e. refl))
]

preview-none_iff :
    (s : Bytes) → (preview s ≡ none) ↔ ((50 < length s) × (is_char_boundary 50 s ≡ false))
unfolding preview
preview-none_iff s =
    let mapped = map-none_iff (λ t. t ++ text_of "...") (slice_to 50 s) in
    let sliced = slice_to-none_iff 50 s in
    elim (Bool-cases (ltb 50 (length s))) [
      | inl e ↦
          let long : 50 < length s = ground (arith, e) in
          rw e ((λ h. (long, sliced.0 (mapped.0 h))), λ h. mapped.1 (sliced.1 h.1))
      | inr e ↦ rw e ((λ h. cc), λ h. absurd (ground (arith, e, h.0)))
    ]

display-text : (s : Bytes) → is_utf8 s ≡ true → (display (text s) ≡ none) ↔ (preview s ≡ none)
unfolding display text as_text
display-text s valid = rw valid (map-none_iff _ (preview s))

-- Printing a text message panics exactly if one of its characters begins before byte 50 of the text
-- and ends after it.
pub display-text-none_iff :
    (cs : List ℕ) → All IsScalar cs → (display (text (encode cs)) ≡ none) ↔ Straddles 50 cs
display-text-none_iff cs scalars =
    let s = encode cs in
    let shown = display-text s (is_utf8-encode cs scalars) in
    (
      (λ h.
          let p = (preview-none_iff s).0 (shown.0 h) in
          (is_char_boundary-false_iff 50 cs p.0).0 p.1),
      λ st.
          let below = Straddles-below 50 cs st in
          shown.1 ((preview-none_iff s).1 (below, (is_char_boundary-false_iff 50 cs below).1 st)),
    )

-- ===== src/Message/Tests.antt =====
-- src/message.rs: a text with characters of every length, and one that cannot be printed.
use ws_fabric.Prelude.{
  ℕ, zero, suc, ◌≡◌, ◌↔◌, arith, inl, inr, List, [], ◌∷◌, ◌++◌, none, All, replicate, refl,
}
use ws_fabric.Error.{ok}
use ws_fabric.Message.Make.{text, as_text}
use ws_fabric.Message.Utf8.Encoding.{encode, IsScalar}
use ws_fabric.Message.RoundTrip.{as_text-text}
use ws_fabric.Message.Display.{display}
use ws_fabric.Message.Display.Boundary.{Straddles}
use ws_fabric.Message.Display.Panics.{display-text-none_iff}

as_text-text_example :
    as_text (text (encode (b'a' ∷ 0xE9 ∷ 0x20AC ∷ 0x1F600 ∷ [])))
    ≡ ok (encode (b'a' ∷ 0xE9 ∷ 0x20AC ∷ 0x1F600 ∷ []))
as_text-text_example = as_text-text (b'a' ∷ 0xE9 ∷ 0x20AC ∷ 0x1F600 ∷ []) (
  inl (omega arith),
  (inl (omega arith), (inl (omega arith), (inr (omega arith, omega arith), tt))),
)

-- Forty-nine letters and one of two bytes.
abbrev accented : List ℕ
accented = replicate 49 b'a' ++ 0xE9 ∷ []

letters-IsScalar : (n : ℕ) → All IsScalar (replicate n b'a' ++ 0xE9 ∷ [])
letters-IsScalar zero = (inl (omega arith), tt)
letters-IsScalar (suc n) = (inl (omega arith), letters-IsScalar n)

display-text-none_iff_example : (display (text (encode accented)) ≡ none) ↔ Straddles 50 accented
display-text-none_iff_example = display-text-none_iff accented (letters-IsScalar 49)

accented_panics : display (text (encode accented)) ≡ none
unfolding encode
accented_panics =
    (display-text-none_iff accented (letters-IsScalar 49)).1
      (replicate 49 b'a', 0xE9, [], refl, omega arith, omega arith)

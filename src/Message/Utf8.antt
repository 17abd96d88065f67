-- ===== src/Message/Utf8.antt =====
-- `String::from_utf8` of the standard library, over bytes: a decoder with the number of continuation bytes still due and the range of the next one.
pub mod Encoding
use ws_fabric.Prelude.{
  ℕ, zero, suc, Bool, false, ◌&&◌, List, [], ◌∷◌, Option, none, some, ltb, leb, ◌==◌, if◌then◌else◌,
}

pub record Due : Type 0 where
  pub count : ℕ
  pub lo : ℕ
  pub hi : ℕ

abbrev pub due : ℕ → ℕ → ℕ → Option Due
due count lo hi = some (record { count = count; lo = lo; hi = hi })

abbrev pub between : ℕ → ℕ → ℕ → Bool
between lo hi b = leb lo b && leb b hi

-- What follows a first byte.
lead : ℕ → Option Due
lead b =
    if ltb b 0x80
    then due 0 0x80 0xBF
    else if between 0xC2 0xDF b
    then due 1 0x80 0xBF
    else if b == 0xE0
    then due 2 0xA0 0xBF
    else if b == 0xED
    then due 2 0x80 0x9F
    else if between 0xE1 0xEF b
    then due 2 0x80 0xBF
    else if b == 0xF0
    then due 3 0x90 0xBF
    else if b == 0xF4
    then due 3 0x80 0x8F
    else if between 0xF1 0xF3 b
    then due 3 0x80 0xBF
    else none

step_utf8 : ℕ → ℕ → ℕ → ℕ → Option Due
unfolding lead
step_utf8 zero lo hi b = lead b
step_utf8 (suc n) lo hi b = if between lo hi b then due n 0x80 0xBF else none

utf8_from : Option Due → List ℕ → Bool
unfolding step_utf8
utf8_from none bs = false
utf8_from (some d) [] = d.count == 0
utf8_from (some d) (b ∷ bs) = utf8_from (step_utf8 d.count d.lo d.hi b) bs

-- The bytes are well-formed UTF-8.
unfoldable pub is_utf8 : List ℕ → Bool
unfolding utf8_from
is_utf8 bs = utf8_from (due 0 0x80 0xBF) bs

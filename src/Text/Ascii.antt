-- ===== src/Text/Ascii.antt =====
-- The ASCII part of the Unicode tables, as test data.
use ws_fabric.Prelude.{ℕ, ◌≤◌, ◌≡◌, refl, arith, leb, ◌==◌, Bool, true, false, ◌&&◌, ◌||◌, map}
use ws_fabric.Text.{Unicode, ascii_lower}

abbrev is_upper : ℕ → Bool
is_upper c = leb 65 c && leb c 90

abbrev is_letter_or_digit : ℕ → Bool
is_letter_or_digit c = is_upper c || (leb 97 c && leb c 122 || (leb 48 c && leb c 57))

abbrev is_space : ℕ → Bool
is_space c = c == 32 || (leb 9 c && leb c 13)

pub no_space : (c : ℕ) → is_letter_or_digit c ≡ true → is_space c ≡ false
no_space c h = ground arith

pub no_control : (c : ℕ) → is_letter_or_digit c ≡ true → (32 ≤ c) × (c ≡ 127 → ⊥)
no_control c h = (ground arith, λ e. ground arith)

abbrev pub ascii : Unicode
ascii = record {
  is_alphanumeric = is_letter_or_digit;
  is_whitespace = is_space;
  to_lowercase = λ s. map ascii_lower s;
  alphanumeric_no_space = no_space;
  alphanumeric_no_control = no_control;
  to_lowercase_ascii = λ s plain. refl;
  comma_no_alphanumeric = refl;
  space_is_space = refl;
  hyphen_no_space = refl;
  underscore_no_space = refl;
}

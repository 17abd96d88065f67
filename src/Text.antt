-- ===== src/Text.antt =====
-- What the source uses of `str`: texts are lists of code points. The Unicode tables are a
-- parameter, with the documented facts that the program relies on.
pub mod Ascii
pub mod Laws
pub mod Decimal
use ws_fabric.Prelude.{
  ℕ, ◌+◌, ◌≤◌, leb, ltb, all, map, ◌≡◌, Bool, true, false, ◌&&◌, ◌||◌, List, [], ◌∷◌, ◌++◌, Text,
  ◌==◌, if◌then◌else◌,
}

abbrev pub ascii_lower : ℕ → ℕ
ascii_lower c = if leb 65 c && leb c 90 then c + 32 else c

pub record Unicode : Type 0 where
  -- `char::is_alphanumeric`, `char::is_whitespace`, `str::to_lowercase`
  pub is_alphanumeric : ℕ → Bool
  pub is_whitespace : ℕ → Bool
  pub to_lowercase : Text → Text
  -- A letter or digit is no white space and no control character, and these characters have the
  -- classes that ASCII gives them.
  pub alphanumeric_no_space : (c : ℕ) → is_alphanumeric c ≡ true → is_whitespace c ≡ false
  pub alphanumeric_no_control : (c : ℕ) → is_alphanumeric c ≡ true → (32 ≤ c) × (c ≡ 127 → ⊥)
  pub to_lowercase_ascii :
      (s : Text) → all (λ c. ltb c 128) s ≡ true → to_lowercase s ≡ map ascii_lower s
  pub comma_no_alphanumeric : is_alphanumeric b',' ≡ false
  pub space_is_space : is_whitespace b' ' ≡ true
  pub hyphen_no_space : is_whitespace b'-' ≡ false
  pub underscore_no_space : is_whitespace b'_' ≡ false

abbrev pub is_empty {ℓ} : {A : Type ℓ} → List A → Bool
is_empty [] = true
is_empty (x ∷ xs) = false

-- `join`
unfoldable pub join : Text → List Text → Text
join sep [] = []
join sep (p ∷ []) = p
join sep (p ∷ q ∷ ps) = p ++ (sep ++ join sep (q ∷ ps))

abbrev push_first : ℕ → List Text → List Text
push_first c [] = (c ∷ []) ∷ []
push_first c (p ∷ ps) = (c ∷ p) ∷ ps

-- `split` at one character
unfoldable pub split : ℕ → Text → List Text
split sep [] = [] ∷ []
split sep (c ∷ s) = let rest = split sep s in if c == sep then [] ∷ rest else push_first c rest

module _ (u : Unicode) where
  unfoldable pub trim_start : Text → Text
  trim_start [] = []
  trim_start (c ∷ s) = let rest = trim_start s in if u.is_whitespace c then rest else c ∷ s

  unfoldable pub trim_end : Text → Text
  trim_end [] = []
  trim_end (c ∷ s) =
      let rest = trim_end s in if u.is_whitespace c && is_empty rest then [] else c ∷ rest

  unfoldable pub trim : Text → Text
  unfolding trim_start trim_end
  trim s = trim_end (trim_start s)

-- `str::starts_with` and `str::contains`, the text first
abbrev pub starts_with : Text → Text → Bool
starts_with s [] = true
starts_with [] (d ∷ p) = false
starts_with (c ∷ s) (d ∷ p) = c == d && starts_with s p

unfoldable pub contains : Text → Text → Bool
contains [] p = is_empty p
contains (c ∷ s) p = starts_with (c ∷ s) p || contains s p

-- ===== src/Text/Laws.antt =====
-- Laws of `split`, `join` and `trim`.
use ws_fabric.Prelude.{ℕ, ◌≡◌, refl, false, [], ◌∷◌, ◌++◌, Text, ◌==◌, arith, All}
use ws_fabric.Text.{Unicode, split, trim_start, trim_end, trim}

-- No character of the text is the separator.
abbrev pub Avoids : ℕ → Text → Type 0
Avoids sep = All (λ c. (c == sep) ≡ false)

pub split-avoiding : (sep : ℕ) (p : Text) → Avoids sep p → split sep p ≡ p ∷ []
unfolding split
split-avoiding sep [] h = refl
split-avoiding sep (c ∷ p) h = rw (h.0, split-avoiding sep p h.1)

pub split-append :
    (sep : ℕ) (p s : Text) → Avoids sep p → split sep (p ++ sep ∷ s) ≡ p ∷ split sep s
unfolding split
split-append sep [] s h = ground arith
split-append sep (c ∷ p) s h = rw (h.0, split-append sep p s h.1)

module _ (u : Unicode) where
  abbrev pub HasNoSpace : Text → Type 0
  HasNoSpace = All (λ c. u.is_whitespace c ≡ false)

  pub trim_end-HasNoSpace : (p : Text) → HasNoSpace p → trim_end u p ≡ p
  unfolding trim_end
  trim_end-HasNoSpace [] h = refl
  trim_end-HasNoSpace (c ∷ p) h = rw (h.0, trim_end-HasNoSpace p h.1)

  pub trim_start-HasNoSpace : (p : Text) → HasNoSpace p → trim_start u p ≡ p
  unfolding trim_start
  trim_start-HasNoSpace [] h = refl
  trim_start-HasNoSpace (c ∷ p) h = rw h.0

  pub trim-HasNoSpace : (p : Text) → HasNoSpace p → trim u p ≡ p
  unfolding trim
  trim-HasNoSpace p h = rw (trim_start-HasNoSpace p h) (trim_end-HasNoSpace p h)

  -- One leading space is trimmed too.
  pub trim-space : (p : Text) → HasNoSpace p → trim u (b' ' ∷ p) ≡ p
  unfolding trim
  trim-space p h = rw u.space_is_space (trim-HasNoSpace p h)
